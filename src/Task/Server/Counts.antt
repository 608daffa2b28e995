-- ===== src/Task/Server/Counts.antt =====
-- task/server.rs: how many tasks hold what.
use rxh.Prelude.{ℕ, ◌+◌, ◌≤◌, ◌≡◌, refl, ap, ◌∙◌, List, [], ◌∷◌, ◌++◌, arith}
use rxh.Tokio.{Semaphore, Broadcast, Mpsc}
use rxh.Notify.{Notification}
use rxh.Task.Server.{Stage, serving, acking, leaving, released, parting, Task}

-- What a task at a stage holds: a permit, and a receiver of notifications. (Each task holds a sender.)
abbrev pub permit_of : Stage → ℕ
permit_of serving = 1
permit_of acking = 1
permit_of leaving = 1
permit_of released = 0
permit_of parting = 0

abbrev pub receiver_of : Stage → ℕ
receiver_of parting = 0
receiver_of _ = 1

abbrev pub sender_of : Stage → ℕ
sender_of _ = 1

-- Steps that are left to a task, where an acknowledgement counts twice, since it is also collected.
abbrev pub work_of : Stage → ℕ
work_of serving = 6
work_of acking = 5
work_of leaving = 3
work_of released = 2
work_of parting = 1

receiver_le_sender : (g : Stage) → receiver_of g ≤ sender_of g
receiver_le_sender serving = omega arith
receiver_le_sender acking = omega arith
receiver_le_sender leaving = omega arith
receiver_le_sender released = omega arith
receiver_le_sender parting = omega arith

module _ {sm : Semaphore} {bc : Broadcast Notification} {mp : Mpsc} where
  abbrev pub total : (Stage → ℕ) → List (Task sm bc mp) → ℕ
  total w [] = 0
  total w (k ∷ tasks) = w k.stage + total w tasks

  pub total-middle :
      (w : Stage → ℕ) (before : List (Task sm bc mp)) (k : Task sm bc mp)
      (after : List (Task sm bc mp))
      → total w (before ++ k ∷ after) ≡ w k.stage + total w (before ++ after)
  total-middle w [] k after = refl
  total-middle w (j ∷ before) k after = omega (arith, total-middle w before k after)

  -- The total before a step of one task, from the total of the others.
  pub total-at :
      (w : Stage → ℕ) (tasks before : List (Task sm bc mp)) (k : Task sm bc mp)
      (after : List (Task sm bc mp)) (g : Stage)
      → tasks ≡ before ++ k ∷ after
      → k.stage ≡ g
      → total w tasks ≡ w g + total w (before ++ after)
  total-at w tasks before k after g e f =
      ap (total w) e ∙ total-middle w before k after ∙ ap (λ h. w h + total w (before ++ after)) f

  -- Whoever holds a receiver holds a sender.
  pub receivers_le_senders :
      (tasks : List (Task sm bc mp)) → total receiver_of tasks ≤ total sender_of tasks
  receivers_le_senders [] = omega arith
  receivers_le_senders (k ∷ tasks) =
      omega (arith, receivers_le_senders tasks, receiver_le_sender k.stage)
