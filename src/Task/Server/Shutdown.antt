-- ===== src/Task/Server/Shutdown.antt =====
-- task/server.rs: the graceful shutdown ends, whatever the schedule.
use rxh.Prelude.{ℕ, suc, ◌+◌, ◌≤◌, ◌≡◌, sym, ap, subst, ◌∙◌, true, arith}
use rxh.Tokio.{Semaphore, Broadcast, Mpsc}
use rxh.Notify.{Notification}
use rxh.Task.Server.{
  Phase, initial, selecting, Point, System, Step, begins, checks, acquires, accepts, accept_fails,
  local_addr_fails, signal, notifies, collects, ends_collecting, frees, completes, serve_ends,
  panics, acknowledges, drops_permit, drops_receiver, drops_sender,
}
use rxh.Task.Server.Work.{
  draining, work, Less, notify-Less, collected-Less, all_collected-Less, free_config-Less,
  complete-Less, serve_end-Less, panicked-Less, acknowledged-Less, drop_permit-Less,
  drop_receiver-Less, drop_sender-Less,
}

draining-at : (p : Phase) → draining p ≡ true → (q : Phase) → p ≡ q → draining q ≡ true
draining-at p d q e = sym (ap draining e) ∙ d

initial-absurd : draining initial ≡ true → ⊥
unfolding draining
initial-absurd e = cc

selecting-absurd : (p : Point) → draining (selecting p) ≡ true → ⊥
unfolding draining
selecting-absurd p e = cc

module _ {sm : Semaphore} {bc : Broadcast Notification} {mp : Mpsc} where
  -- Any number of steps.
  pub data Steps : ℕ → System sm bc mp → System sm bc mp → Type 0 where
    stay : {s : System sm bc mp} → Steps 0 s s
    go : {n : ℕ} {s t u : System sm bc mp} → Step sm bc mp s t → Steps n t u → Steps (suc n) s u

  abbrev moved : (s : System sm bc mp) {t u : System sm bc mp} → t ≡ u → Less s u → Less s t
  moved s e h = subst (Less s) (sym e) h

  module _ (s t : System sm bc mp) where
    pub Step-Less : Step sm bc mp s t → draining s.phase ≡ true → Less s t
    Step-Less (begins p e) d = absurd (initial-absurd (draining-at _ d _ p))
    Step-Less (checks p e) d = absurd (selecting-absurd _ (draining-at _ d _ p))
    Step-Less (acquires again permits p a e) d = absurd (selecting-absurd _ (draining-at _ d _ p))
    Step-Less (accepts p e) d = absurd (selecting-absurd _ (draining-at _ d _ p))
    Step-Less (accept_fails p e) d = absurd (selecting-absurd _ (draining-at _ d _ p))
    Step-Less (local_addr_fails p e) d = absurd (selecting-absurd _ (draining-at _ d _ p))
    Step-Less (signal q p e) d = absurd (selecting-absurd _ (draining-at _ d _ p))
    Step-Less (notifies p e) d = moved s e (notify-Less s p)
    Step-Less (collects channels p c e) d = moved s e (collected-Less s channels d c)
    Step-Less (ends_collecting p c e) d = moved s e (all_collected-Less s p)
    Step-Less (frees p e) d = moved s e (free_config-Less s p)
    Step-Less (completes p e) d = moved s e (complete-Less s p)
    Step-Less (serve_ends before after k l g e) d =
        moved s e (serve_end-Less s before after k l d g)
    Step-Less (panics before after k l g e) d = moved s e (panicked-Less s before after k l d g)
    Step-Less (acknowledges before after k channels l g a e) d =
        moved s e (acknowledged-Less s before after k l d channels g a)
    Step-Less (drops_permit before after k l g e) d =
        moved s e (drop_permit-Less s before after k l d g)
    Step-Less (drops_receiver before after k l g e) d =
        moved s e (drop_receiver-Less s before after k l d g)
    Step-Less (drops_sender before after k l g e) d =
        moved s e (drop_sender-Less s before after k l d g)

  -- Once the listener is dropped, every run of the server and its tasks, in any order, has at most as
  -- many steps as there is work, and what work remains is bounded by the difference.
  pub shutdown_bounded :
      {n : ℕ} {s t : System sm bc mp} → Steps n s t → draining s.phase ≡ true → n + work t ≤ work s
  shutdown_bounded stay d = omega arith
  shutdown_bounded (go {n} {s} {t} step rest) d =
      let (d', l) = Step-Less s t step d in omega (arith, l, shutdown_bounded rest d')
