-- ===== src/Task/Server/States.antt =====
-- task/server.rs: the states that subscribers of a server see, and where it stands when they do.
use rxh.Prelude.{
  ℕ, ◌≤◌, ◌<◌, ◌≡◌, ◌≢◌, refl, ap, subst, Bool, true, false, ◌⊎◌, inl, inr, Bool-cases, ◌==◌, arith,
}
use rxh.Tokio.{Semaphore, Broadcast, Mpsc}
use rxh.Notify.{Notification}
use rxh.Task.Server
use rxh.Task.Server.{
  State, starting, listening, max_connections_reached, shutting_down, pending_connections, done,
  Phase, initial, selecting, dropped, collecting, freeing, freed, finished, loop_head, acquiring,
  accepting, Point, Task, System,
}
use rxh.Task.Server.Counts.{receiver_of, total}

-- What is shown at each point of `run`, where `users` tasks may still use the configuration.
unfoldable pub Shows : ℕ → Phase → State → (users : ℕ) → Type 0
Shows max initial st users = st ≡ starting
Shows max (selecting loop_head) st users = st ≡ listening
Shows max (selecting (acquiring true)) st users = st ≡ max_connections_reached max
Shows max (selecting (acquiring false)) st users = st ≡ listening
Shows max (selecting accepting) st users = st ≡ listening
Shows max dropped st users = (st ≡ listening) ⊎ (st ≡ max_connections_reached max)
Shows max collecting st users =
    (n : ℕ) × (st ≡ shutting_down (pending_connections n)) × (0 < n) × (users ≤ n)
Shows max freeing st users = st ≢ shutting_down done
Shows max freed st users = st ≢ shutting_down done
Shows max finished st users = st ≡ shutting_down done

pub Shows-le :
    (max : ℕ) (p : Phase) (st : State) (m n : ℕ) → n ≤ m → Shows max p st m → Shows max p st n
unfolding Shows
Shows-le max initial st m n l h = h
Shows-le max (selecting loop_head) st m n l h = h
Shows-le max (selecting (acquiring true)) st m n l h = h
Shows-le max (selecting (acquiring false)) st m n l h = h
Shows-le max (selecting accepting) st m n l h = h
Shows-le max dropped st m n l h = h
Shows-le max collecting st m n l (k, e, p, q) = (k, e, p, omega (arith, l, q))
Shows-le max freeing st m n l h = h
Shows-le max freed st m n l h = h
Shows-le max finished st m n l h = h

pub not_done :
    (m : ℕ) (st : State)
    → (st ≡ listening) ⊎ (st ≡ max_connections_reached m)
    → st ≢ shutting_down done
not_done m st (inl e) f = cc
not_done m st (inr e) f = cc

module _ {sm : Semaphore} {bc : Broadcast Notification} {mp : Mpsc} where
  -- The system at a phase shows what it should.
  pub record Shown (max : ℕ) (p : Phase) (s : System sm bc mp) : Type 0 where
    pub limit : s.max_connections ≡ max
    pub shows : Shows max p s.state (total receiver_of s.tasks)

  -- At a phase that is known.
  pub at :
      {max : ℕ} {s : System sm bc mp} (p : Phase)
      → s.phase ≡ p
      → Shown max s.phase s
      → Shown max p s
  at {max = max} {s = s} p e h = subst (λ p. Shown max p s) e h

  abbrev pub Goal : ℕ → System sm bc mp → Type 0
  Goal max s = Shown max s.phase s

  pub init-Shown : (max : ℕ) → Goal max (Server.init sm bc mp max)
  unfolding Server.init Shows
  init-Shown max = record { limit = refl; shows = refl }

  module _ {max : ℕ} {s : System sm bc mp} where
    pub begin-Shown : Shown max initial s → Goal max (Server.begin sm bc mp s)
    unfolding Server.begin Shows
    begin-Shown h = record { limit = h.limit; shows = refl }

    pub check_permits-Shown :
        Shown max (selecting loop_head) s → Goal max (Server.check_permits sm bc mp s)
    unfolding Server.check_permits Shows
    check_permits-Shown h = elim (Bool-cases (sm.available s.connections == 0)) [
      | inl e ↦ record { limit = h.limit; shows = rw e (ap max_connections_reached h.limit) }
      | inr e ↦ record { limit = h.limit; shows = rw e h.shows }
    ]

    pub acquired-Shown :
        (again : Bool) (permits : sm.Sem)
        → Shown max (selecting (acquiring again)) s
        → Goal max (Server.acquired sm bc mp again permits s)
    unfolding Server.acquired Shows
    acquired-Shown true permits h = record { limit = h.limit; shows = refl }
    acquired-Shown false permits h = record { limit = h.limit; shows = h.shows }

    pub spawn-Shown : Shown max (selecting accepting) s → Goal max (Server.spawn sm bc mp s)
    unfolding Server.spawn Shows
    spawn-Shown h = record { limit = h.limit; shows = h.shows }

    pub accept_failed-Shown :
        Shown max (selecting accepting) s → Goal max (Server.accept_failed sm bc mp s)
    unfolding Server.accept_failed Shows
    accept_failed-Shown h = record { limit = h.limit; shows = inl h.shows }

    pub local_addr_failed-Shown :
        Shown max (selecting accepting) s → Goal max (Server.local_addr_failed sm bc mp s)
    unfolding Server.local_addr_failed Shows
    local_addr_failed-Shown h = record { limit = h.limit; shows = inl h.shows }

    pub signalled-Shown :
        (p : Point) → Shown max (selecting p) s → Goal max (Server.signalled sm bc mp p s)
    unfolding Server.signalled Shows
    signalled-Shown loop_head h = record { limit = h.limit; shows = inl h.shows }
    signalled-Shown (acquiring true) h = record { limit = h.limit; shows = inr h.shows }
    signalled-Shown (acquiring false) h = record { limit = h.limit; shows = inl h.shows }
    signalled-Shown accepting h = record { limit = h.limit; shows = inl h.shows }
