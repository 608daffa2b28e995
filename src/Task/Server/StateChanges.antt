-- ===== src/Task/Server/StateChanges.antt =====
-- task/server.rs: what is shown stays right through notifications, tasks, and whole runs.
use mathlib.Core.Option.{some-injective}
use rxh.Prelude.{
  ℕ, ◌≤◌, ◌<◌, ◌≡◌, refl, sym, ap, subst, ◌∙◌, Option, none, some, List, ◌∷◌, ◌++◌, inl, inr,
  zero_or_pos, some-none, arith,
}
use rxh.Tokio.{Semaphore, Broadcast, Mpsc}
use rxh.Notify
use rxh.Notify.{Notification, shutdown, Channels}
use rxh.Task.Server
use rxh.Task.Server.{
  dropped, collecting, freeing, freed, Stage, serving, acking, leaving, released, parting, Task,
  System, Step, Reach, start, next, begins, checks, acquires, accepts, accept_fails,
  local_addr_fails, signal, notifies, collects, ends_collecting, frees, completes, serve_ends,
  panics, acknowledges, drops_permit, drops_receiver, drops_sender,
}
use rxh.Task.Server.Counts.{receiver_of, total, total-at, total-middle}
use rxh.Task.Server.Account.{Inv}
use rxh.Task.Server.Limits.{Reach-Inv}
use rxh.Task.Server.States.{
  Shows, Shows-le, not_done, Shown, at, Goal, init-Shown, begin-Shown, check_permits-Shown,
  acquired-Shown, spawn-Shown, accept_failed-Shown, local_addr_failed-Shown, signalled-Shown,
}

module _ {sm : Semaphore} {bc : Broadcast Notification} {mp : Mpsc} where
  -- The answer of `send` is the number of tasks with a receiver, if there are any.
  pub send-counts :
      (s : System sm bc mp)
      → bc.receivers s.channels.notifications ≡ total receiver_of s.tasks
      → (n : ℕ) → (bc.send shutdown s.channels.notifications).0 ≡ some n
      → (0 < n) × (total receiver_of s.tasks ≤ n)
  send-counts s h n e =
      let b = s.channels.notifications in
      elim (zero_or_pos (bc.receivers b)) [
        | inl z ↦ absurd (some-none n (sym e ∙ bc.send-none shutdown b z))
        | inr p ↦
            let f = some-injective n (bc.receivers b) (sym e ∙ bc.send-some shutdown b p) in
            (omega (arith, f, p), omega (arith, f, h))
      ]

  module _ {max : ℕ} {s : System sm bc mp} where
    notified-Shown :
        (r : Option ℕ) (b : bc.Bus)
        → ((n : ℕ) → r ≡ some n → (0 < n) × (total receiver_of s.tasks ≤ n))
        → Shown max dropped s
        → Goal max (Server.notified sm bc mp s (r, record s.channels { notifications = b }))
    unfolding Shows
    notified-Shown none b f h = record { limit = h.limit; shows = not_done max s.state h.shows }
    notified-Shown (some n) b f h =
        let (p, l) = f n refl in record { limit = h.limit; shows = (n, refl, p, l) }

    notify-Shown : Inv max s → Shown max dropped s → Goal max (Server.notify sm bc mp s)
    unfolding Server.notify Notify.send
    notify-Shown i h =
        let b = s.channels.notifications in
        notified-Shown (bc.send shutdown b).0 (bc.send shutdown b).1 (send-counts s i.receivers) h

    collected-Shown :
        (channels : Channels bc mp) → Goal max s → Goal max (Server.collected sm bc mp channels s)
    unfolding Server.collected
    collected-Shown channels h = record { limit = h.limit; shows = h.shows }

    all_collected-Shown : Shown max collecting s → Goal max (Server.all_collected sm bc mp s)
    unfolding Server.all_collected Shows
    all_collected-Shown h =
        let (n, e, _, _) = h.shows in record { limit = h.limit; shows = λ f. cc }

    free_config-Shown : Shown max freeing s → Goal max (Server.free_config sm bc mp s)
    unfolding Server.free_config Shows
    free_config-Shown h = record { limit = h.limit; shows = h.shows }

    complete-Shown : Shown max freed s → Goal max (Server.complete sm bc mp s)
    unfolding Server.complete Shows
    complete-Shown h = record { limit = h.limit; shows = refl }

    -- A step of a task changes neither the phase nor the state, and adds no user.
    task-Shown :
        {t : System sm bc mp}
        → (t.phase ≡ s.phase) × (t.state ≡ s.state) × (t.max_connections ≡ s.max_connections)
        → total receiver_of t.tasks ≤ total receiver_of s.tasks
        → Goal max s
        → Goal max t
    task-Shown {t = t} (p, e, m) l h = record {
      limit = m ∙ h.limit;
      shows = rw (p, e) (Shows-le max s.phase s.state _ _ l h.shows);
    }

    module _ (before after : List (Task sm bc mp)) (k : Task sm bc mp)
        (l : s.tasks ≡ before ++ k ∷ after) (h : Goal max s) where
      users-le :
          (g : Stage)
          → receiver_of g ≤ receiver_of k.stage
          → total receiver_of (before ++ record k { stage = g } ∷ after) ≤ total receiver_of s.tasks
      users-le g e = omega (
        arith,
        e,
        total-at receiver_of s.tasks before k after k.stage l refl,
        total-middle receiver_of before (record k { stage = g }) after,
      )

      checked-le :
          (received : Option Notification)
          → k.stage ≡ serving
          → receiver_of (Server.after_check sm bc mp received) ≤ receiver_of k.stage
      checked-le none e = omega (arith, ap receiver_of e)
      checked-le (some shutdown) e = omega (arith, ap receiver_of e)

      serve_end-Shown : k.stage ≡ serving → Goal max (Server.serve_end sm bc mp before k after s)
      unfolding Server.serve_end
      serve_end-Shown e = task-Shown (refl, refl, refl) (users-le _ (checked-le _ e)) h

      panicked-Shown : k.stage ≡ serving → Goal max (Server.panicked sm bc mp before k after s)
      unfolding Server.panicked
      panicked-Shown e =
          task-Shown (refl, refl, refl) (users-le leaving (omega (arith, ap receiver_of e))) h

      acknowledged-Shown :
          (channels : Channels bc mp)
          → k.stage ≡ acking
          → Goal max (Server.acknowledged sm bc mp before k after channels s)
      unfolding Server.acknowledged
      acknowledged-Shown channels e =
          task-Shown (refl, refl, refl) (users-le leaving (omega (arith, ap receiver_of e))) h

      drop_permit-Shown :
          k.stage ≡ leaving → Goal max (Server.drop_permit sm bc mp before k after s)
      unfolding Server.drop_permit
      drop_permit-Shown e =
          task-Shown (refl, refl, refl) (users-le released (omega (arith, ap receiver_of e))) h

      drop_receiver-Shown : Goal max (Server.drop_receiver sm bc mp before k after s)
      unfolding Server.drop_receiver
      drop_receiver-Shown = task-Shown (refl, refl, refl) (users-le parting (omega arith)) h

      drop_sender-Shown : Goal max (Server.drop_sender sm bc mp before after s)
      unfolding Server.drop_sender
      drop_sender-Shown =
          task-Shown (refl, refl, refl)
            (omega (arith, total-at receiver_of s.tasks before k after k.stage l refl)) h

  Step-Shown :
      {max : ℕ} {s t : System sm bc mp} → Step sm bc mp s t → Inv max s → Goal max s → Goal max t
  Step-Shown {max = m} (begins p e) i h = subst (Goal m) (sym e) (begin-Shown (at _ p h))
  Step-Shown {max = m} (checks p e) i h = subst (Goal m) (sym e) (check_permits-Shown (at _ p h))
  Step-Shown {max = m} (acquires again permits p a e) i h =
      subst (Goal m) (sym e) (acquired-Shown again permits (at _ p h))
  Step-Shown {max = m} (accepts p e) i h = subst (Goal m) (sym e) (spawn-Shown (at _ p h))
  Step-Shown {max = m} (accept_fails p e) i h =
      subst (Goal m) (sym e) (accept_failed-Shown (at _ p h))
  Step-Shown {max = m} (local_addr_fails p e) i h =
      subst (Goal m) (sym e) (local_addr_failed-Shown (at _ p h))
  Step-Shown {max = m} (signal q p e) i h = subst (Goal m) (sym e) (signalled-Shown q (at _ p h))
  Step-Shown {max = m} (notifies p e) i h = subst (Goal m) (sym e) (notify-Shown i (at _ p h))
  Step-Shown {max = m} (collects channels p c e) i h =
      subst (Goal m) (sym e) (collected-Shown channels h)
  Step-Shown {max = m} (ends_collecting p c e) i h =
      subst (Goal m) (sym e) (all_collected-Shown (at _ p h))
  Step-Shown {max = m} (frees p e) i h = subst (Goal m) (sym e) (free_config-Shown (at _ p h))
  Step-Shown {max = m} (completes p e) i h = subst (Goal m) (sym e) (complete-Shown (at _ p h))
  Step-Shown {max = m} (serve_ends before after k l g e) i h =
      subst (Goal m) (sym e) (serve_end-Shown before after k l h g)
  Step-Shown {max = m} (panics before after k l g e) i h =
      subst (Goal m) (sym e) (panicked-Shown before after k l h g)
  Step-Shown {max = m} (acknowledges before after k channels l g a e) i h =
      subst (Goal m) (sym e) (acknowledged-Shown before after k l h channels g)
  Step-Shown {max = m} (drops_permit before after k l g e) i h =
      subst (Goal m) (sym e) (drop_permit-Shown before after k l h g)
  Step-Shown {max = m} (drops_receiver before after k l g e) i h =
      subst (Goal m) (sym e) (drop_receiver-Shown before after k l h)
  Step-Shown {max = m} (drops_sender before after k l g e) i h =
      subst (Goal m) (sym e) (drop_sender-Shown before after k l h)

  pub Reach-Shown : {max : ℕ} {s : System sm bc mp} → Reach sm bc mp max s → Goal max s
  Reach-Shown {max = max} start = init-Shown max
  Reach-Shown (next r step) = Step-Shown step (Reach-Inv r) (Reach-Shown r)

  -- In every state that a server with max_connections reaches, what its subscribers see fits where it
  -- stands: starting before run; listening, or max_connections_reached with max_connections while it
  -- waits for a permit after it found none; either of them once the listener is dropped; the number of
  -- pending connections while it collects, positive and at least the number of tasks that may still
  -- use the configuration; then anything but done; and done at the end.
  pub state_shown :
      {max : ℕ} {s : System sm bc mp}
      → Reach sm bc mp max s
      → Shows max s.phase s.state (total receiver_of s.tasks)
  state_shown r = (Reach-Shown r).shows
