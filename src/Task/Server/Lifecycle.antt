-- ===== src/Task/Server/Lifecycle.antt =====
-- task/server.rs: the life that subscribers see, as a state machine, and that a server keeps to it.
use rxh.Prelude.{
  ℕ, ◌<◌, ◌≡◌, refl, sym, ap, subst, Option, none, some, ◌⊎◌, inl, inr, Bool, true, false,
  Bool-cases, ◌==◌,
}
use rxh.Tokio.{Semaphore, Broadcast, Mpsc}
use rxh.Notify
use rxh.Notify.{Notification, Channels}
use rxh.Task.Server
use rxh.Task.Server.{
  State, starting, listening, max_connections_reached, shutting_down, pending_connections, done,
  Phase, initial, selecting, dropped, collecting, freeing, freed, loop_head, acquiring, System,
  Step, Reach, start, next, begins, checks, acquires, accepts, accept_fails, local_addr_fails,
  signal, notifies, collects, ends_collecting, frees, completes, serve_ends, panics, acknowledges,
  drops_permit, drops_receiver, drops_sender,
}
use rxh.Task.Server.Account.{Inv}
use rxh.Task.Server.Limits.{Reach-Inv}
use rxh.Task.Server.States.{Shows, Shown, at}
use rxh.Task.Server.StateChanges.{Reach-Shown, send-counts}

-- The server accepts connections, or has as many as it may.
pub data IsUp (max : ℕ) : State → Type 0 where
  accepting_more : IsUp max listening
  at_limit : IsUp max (max_connections_reached max)

-- What a server with the limit `max` may show next.
pub data Moves (max : ℕ) : State → State → Type 0 where
  opens : Moves max starting listening
  fills : Moves max listening (max_connections_reached max)
  has_room : Moves max (max_connections_reached max) listening
  waits :
      {st : State} (n : ℕ)
      → 0 < n
      → IsUp max st
      → Moves max st (shutting_down (pending_connections n))
  closes_idle : {st : State} → IsUp max st → Moves max st (shutting_down done)
  closes : (n : ℕ) → 0 < n → Moves max (shutting_down (pending_connections n)) (shutting_down done)

-- What may be shown before the end of the shutdown.
pub data IsClosing (max : ℕ) : State → Type 0 where
  up : {st : State} → IsUp max st → IsClosing max st
  pending : (n : ℕ) → 0 < n → IsClosing max (shutting_down (pending_connections n))

closing-Moves : {max : ℕ} {st : State} → IsClosing max st → Moves max st (shutting_down done)
closing-Moves (up u) = closes_idle u
closing-Moves (pending n p) = closes n p

-- Once all tasks are told or gone, the state is one of these.
unfoldable Closing : ℕ → Phase → State → Type 0
Closing max freeing st = IsClosing max st
Closing max freed st = IsClosing max st
Closing max _ st = Unit

IsUp-of :
    {max : ℕ} (st : State) → (st ≡ listening) ⊎ (st ≡ max_connections_reached max) → IsUp max st
IsUp-of {max} st (inl e) = subst (IsUp max) (sym e) accepting_more
IsUp-of {max} st (inr e) = subst (IsUp max) (sym e) at_limit

module _ {sm : Semaphore} {bc : Broadcast Notification} {mp : Mpsc} (max : ℕ) where
  abbrev Goes : System sm bc mp → Type 0
  Goes s = Closing max s.phase s.state

  -- What is shown stays, or moves on.
  abbrev Follows : (s t : System sm bc mp) → Type 0
  Follows s t = (t.state ≡ s.state) ⊎ Moves max s.state t.state

module _ {sm : Semaphore} {bc : Broadcast Notification} {mp : Mpsc} {max : ℕ} where
  notified-Closing :
      (s : System sm bc mp) (r : Option ℕ) (channels : Channels bc mp)
      → Shown max dropped s
      → Goes max (Server.notified sm bc mp s (r, channels))
  unfolding Closing Shows
  notified-Closing s none channels h = up (IsUp-of s.state h.shows)
  notified-Closing s (some n) channels h = tt

  Step-Closing :
      {s t : System sm bc mp} → Step sm bc mp s t → Shown max s.phase s → Goes max s → Goes max t
  unfolding Closing Shows Server.begin Server.check_permits Server.acquired Server.spawn
      Server.accept_failed Server.local_addr_failed Server.signalled Server.notify Server.collected
      Server.all_collected Server.free_config Server.complete Server.serve_end Server.panicked
      Server.acknowledged Server.drop_permit Server.drop_receiver Server.drop_sender
  Step-Closing (begins p e) h k = subst (Goes max) (sym e) tt
  Step-Closing (checks p e) h k = subst (Goes max) (sym e) tt
  Step-Closing (acquires again permits p a e) h k = subst (Goes max) (sym e) tt
  Step-Closing (accepts p e) h k = subst (Goes max) (sym e) tt
  Step-Closing (accept_fails p e) h k = subst (Goes max) (sym e) tt
  Step-Closing (local_addr_fails p e) h k = subst (Goes max) (sym e) tt
  Step-Closing (signal q p e) h k = subst (Goes max) (sym e) tt
  Step-Closing {s} (notifies p e) h k =
      subst (Goes max) (sym e) (notified-Closing s _ _ (at dropped p h))
  Step-Closing {s} (collects channels p c e) h k = subst (Goes max) (sym e) k
  Step-Closing {s} (ends_collecting p c e) h k =
      let (n, shown, some_left, _) = (at collecting p h).shows in
      subst (Goes max) (sym e) (subst (IsClosing max) (sym shown) (pending n some_left))
  Step-Closing {s} (frees p e) h k =
      subst (Goes max) (sym e) (subst (λ g. Closing max g s.state) p k)
  Step-Closing (completes p e) h k = subst (Goes max) (sym e) tt
  Step-Closing (serve_ends before after t l g e) h k = subst (Goes max) (sym e) k
  Step-Closing (panics before after t l g e) h k = subst (Goes max) (sym e) k
  Step-Closing (acknowledges before after t channels l g a e) h k = subst (Goes max) (sym e) k
  Step-Closing (drops_permit before after t l g e) h k = subst (Goes max) (sym e) k
  Step-Closing (drops_receiver before after t l g e) h k = subst (Goes max) (sym e) k
  Step-Closing (drops_sender before after t l g e) h k = subst (Goes max) (sym e) k

  Reach-Closing : {s : System sm bc mp} → Reach sm bc mp max s → Goes max s
  unfolding Closing Server.init
  Reach-Closing start = tt
  Reach-Closing (next r step) = Step-Closing step (Reach-Shown r) (Reach-Closing r)

  moves :
      (s t : System sm bc mp) {st st' : State}
      → s.state ≡ st
      → t.state ≡ st'
      → Moves max st st'
      → Follows max s t
  moves s t e f m = inr (rw (e, f) m)

  check_permits-Follows :
      (s : System sm bc mp)
      → Shown max (selecting loop_head) s
      → Follows max s (Server.check_permits sm bc mp s)
  unfolding Server.check_permits Shows
  check_permits-Follows s h = elim (Bool-cases (sm.available s.connections == 0)) [
    | inl e ↦ inr (rw (e, h.limit, h.shows) fills)
    | inr e ↦ inl (rw e refl)
  ]

  acquired-Follows :
      (s : System sm bc mp) (again : Bool) (permits : sm.Sem)
      → Shown max (selecting (acquiring again)) s
      → Follows max s (Server.acquired sm bc mp again permits s)
  unfolding Server.acquired Shows
  acquired-Follows s true permits h = inr (rw h.shows has_room)
  acquired-Follows s false permits h = inl refl

  notified-Follows :
      (s : System sm bc mp) (r : Option ℕ) (channels : Channels bc mp)
      → Shown max dropped s
      → ((n : ℕ) → r ≡ some n → 0 < n)
      → Follows max s (Server.notified sm bc mp s (r, channels))
  unfolding Shows
  notified-Follows s none channels h f = inl refl
  notified-Follows s (some n) channels h f = inr (waits n (f n refl) (IsUp-of s.state h.shows))

  Step-Follows :
      {s t : System sm bc mp}
      → Step sm bc mp s t
      → Inv max s
      → Shown max s.phase s
      → Goes max s
      → Follows max s t
  unfolding Closing Shows Server.begin Server.spawn Server.accept_failed Server.local_addr_failed
      Server.signalled Server.notify Notify.send Server.collected Server.all_collected
      Server.free_config Server.complete Server.serve_end Server.panicked Server.acknowledged
      Server.drop_permit Server.drop_receiver Server.drop_sender
  Step-Follows {s} {t} (begins p e) i h k =
      moves s t (at initial p h).shows (ap (λ s. s.state) e) opens
  Step-Follows {s} (checks p e) i h k =
      subst (Follows max s) (sym e) (check_permits-Follows s (at _ p h))
  Step-Follows {s} (acquires again permits p a e) i h k =
      subst (Follows max s) (sym e) (acquired-Follows s again permits (at _ p h))
  Step-Follows (accepts p e) i h k = inl (ap (λ s. s.state) e)
  Step-Follows (accept_fails p e) i h k = inl (ap (λ s. s.state) e)
  Step-Follows (local_addr_fails p e) i h k = inl (ap (λ s. s.state) e)
  Step-Follows (signal q p e) i h k = inl (ap (λ s. s.state) e)
  Step-Follows {s} (notifies p e) i h k =
      subst (Follows max s) (sym e)
        (notified-Follows s _ _ (at dropped p h) λ n f. (send-counts s i.receivers n f).0)
  Step-Follows (collects channels p c e) i h k = inl (ap (λ s. s.state) e)
  Step-Follows (ends_collecting p c e) i h k = inl (ap (λ s. s.state) e)
  Step-Follows (frees p e) i h k = inl (ap (λ s. s.state) e)
  Step-Follows {s} {t} (completes p e) i h k =
      moves s t refl (ap (λ s. s.state) e) (closing-Moves (subst (λ g. Closing max g s.state) p k))
  Step-Follows (serve_ends before after t l g e) i h k = inl (ap (λ s. s.state) e)
  Step-Follows (panics before after t l g e) i h k = inl (ap (λ s. s.state) e)
  Step-Follows (acknowledges before after t channels l g a e) i h k = inl (ap (λ s. s.state) e)
  Step-Follows (drops_permit before after t l g e) i h k = inl (ap (λ s. s.state) e)
  Step-Follows (drops_receiver before after t l g e) i h k = inl (ap (λ s. s.state) e)
  Step-Follows (drops_sender before after t l g e) i h k = inl (ap (λ s. s.state) e)

  -- Every step from a state that a server with the limit max reaches leaves what its subscribers see
  -- as it is, or moves it on as the life of a server says: from starting to listening; between
  -- listening and max_connections_reached with max; from either of them to a positive number of
  -- pending connections, or straight to done; and from pending connections to done, the end.
  pub follows_life :
      {s t : System sm bc mp}
      → Reach sm bc mp max s
      → Step sm bc mp s t
      → (t.state ≡ s.state) ⊎ Moves max s.state t.state
  follows_life r step = Step-Follows step (Reach-Inv r) (Reach-Shown r) (Reach-Closing r)
