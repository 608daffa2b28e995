-- ===== src/Task/Server/Tests.antt =====
-- task/server.rs on concrete runs: a server with one connection, which is shut down while it is full.
use rxh.Prelude.{ℕ, ◌+◌, ◌≤◌, ◌≡◌, refl, ◌⊎◌, [], true, false, All}
use rxh.Tokio.Counters.{counting_semaphore, counting_broadcast, counting_mpsc}
use rxh.Notify
use rxh.Notify.{Notification}
use rxh.Task.Server
use rxh.Task.Server.{
  finished, acquiring, loop_head, parting, shutting_down, done, Task, System, Step, Reach, start,
  next, begins, checks, acquires, accepts, signal, notifies, serve_ends, drops_permit,
  drops_receiver,
}
use rxh.Task.Server.Counts.{permit_of, receiver_of, total}
use rxh.Task.Server.Account.{held}
use rxh.Task.Server.Limits.{over, connections_limited, config_outlives_tasks}
use rxh.Task.Server.States.{Shows}
use rxh.Task.Server.StateChanges.{state_shown}
use rxh.Task.Server.Lifecycle.{Moves, follows_life}
use rxh.Task.Server.Work.{draining, work}
use rxh.Task.Server.Shutdown.{Steps, stay, go, shutdown_bounded}
use rxh.Task.Server.Finish.{shutdown_completes}

abbrev Sys : Type 0
Sys = System counting_semaphore (counting_broadcast Notification) counting_mpsc

abbrev Runs : Sys → Type 0
Runs s = Reach counting_semaphore (counting_broadcast Notification) counting_mpsc 1 s

abbrev Goes : Sys → Sys → Type 0
Goes s t = Step counting_semaphore (counting_broadcast Notification) counting_mpsc s t

-- Up to the first connection.
abbrev busy : Sys
busy =
    let sm = counting_semaphore in
    let bc = counting_broadcast Notification in
    let mp = counting_mpsc in
    Server.spawn sm bc mp (
      Server.acquired sm bc mp false 0
        (Server.check_permits sm bc mp (Server.begin sm bc mp (Server.init sm bc mp 1))))

busy-Runs : Runs busy
unfolding Server.init Server.begin Server.check_permits Server.acquired Server.spawn
busy-Runs =
    next
      (next (next (next start (begins refl refl)) (checks refl refl))
        (acquires false 0 refl refl refl))
      (accepts refl refl)

-- The head of the loop finds no permit.
abbrev full : Sys
full = Server.check_permits counting_semaphore (counting_broadcast Notification) counting_mpsc busy

full-Runs : Runs full
unfolding Server.init Server.begin Server.check_permits Server.acquired Server.spawn
full-Runs = next busy-Runs (checks refl refl)

-- The shutdown, up to the wait for the task.
abbrev dropping : Sys
dropping =
    Server.signalled counting_semaphore (counting_broadcast Notification) counting_mpsc
      (acquiring true) full

dropping-Runs : Runs dropping
unfolding Server.init Server.begin Server.check_permits Server.acquired Server.spawn
    Server.signalled
dropping-Runs = next full-Runs (signal (acquiring true) refl refl)

abbrev pending : Sys
pending = Server.notify counting_semaphore (counting_broadcast Notification) counting_mpsc dropping

pending-Runs : Runs pending
unfolding Server.init Server.begin Server.check_permits Server.acquired Server.spawn
    Server.signalled Server.notify Notify.send
pending-Runs = next dropping-Runs (notifies refl refl)

abbrev the_task : Task counting_semaphore (counting_broadcast Notification) counting_mpsc
the_task = record { subscription = record { notification_receiver = tt }; stage = Server.serving }

-- The connection ends before the shutdown, and the task is about to drop its sender when it comes.
abbrev leaving_on : Sys
leaving_on =
    Server.serve_end counting_semaphore (counting_broadcast Notification) counting_mpsc [] the_task
      [] busy

abbrev late : Sys
late =
    let sm = counting_semaphore in
    let bc = counting_broadcast Notification in
    let mp = counting_mpsc in
    Server.notify sm bc mp (
      Server.signalled sm bc mp loop_head (
        Server.drop_receiver sm bc mp [] (record the_task { stage = Server.released }) []
          (Server.drop_permit sm bc mp [] (record the_task { stage = Server.leaving }) []
            leaving_on)))

late-Runs : Runs late
unfolding Server.init Server.begin Server.check_permits Server.acquired Server.spawn
    Server.signalled Server.notify Notify.send Notify.subscribe Notify.new Server.serve_end
    Server.drop_permit Server.drop_receiver Notify.receive_notification Notify.drop_receiver
late-Runs =
    let one = next busy-Runs (serve_ends [] [] the_task refl refl refl) in
    let two =
      next one (drops_permit [] [] (record the_task { stage = Server.leaving }) refl refl refl) in
    let three =
      next two
        (drops_receiver [] [] (record the_task { stage = Server.released }) refl refl refl) in
    next (next three (signal loop_head refl refl)) (notifies refl refl)

config_outlives_tasks_example : All (λ k. k.stage ≡ parting) late.tasks
unfolding Server.init Server.begin Server.check_permits Server.acquired Server.spawn
    Server.signalled Server.notify Notify.send Notify.subscribe Notify.new Server.serve_end
    Server.drop_permit Server.drop_receiver Notify.receive_notification Notify.drop_receiver over
config_outlives_tasks_example = config_outlives_tasks late-Runs refl

connections_limited_example : 0 + total permit_of full.tasks + held full.phase ≡ 1
unfolding Server.init Server.begin Server.check_permits Server.acquired Server.spawn
connections_limited_example = connections_limited full-Runs

state_shown_example : Shows 1 full.phase full.state (total receiver_of full.tasks)
state_shown_example = state_shown full-Runs

shutdown_bounded_example : 1 + work pending ≤ work dropping
unfolding Server.init Server.begin Server.check_permits Server.acquired Server.spawn
    Server.signalled draining Server.notify
shutdown_bounded_example =
    shutdown_bounded {n = 1} {s = dropping} {t = pending} (go (notifies refl refl) stay) refl

shutdown_completes_example :
    ((n : ℕ) × (t : Sys) × Steps n pending t
      × (t.phase ≡ finished)
      × (t.state ≡ shutting_down done)
      × All (λ k. k.stage ≡ parting) t.tasks)
    × ((pending.phase ≡ finished) ⊎ ((t : Sys) × Goes pending t))
unfolding Server.init Server.begin Server.check_permits Server.acquired Server.spawn
    Server.signalled draining Server.notify Notify.send Notify.subscribe Notify.new
shutdown_completes_example = shutdown_completes pending-Runs refl

follows_life_example : (pending.state ≡ dropping.state) ⊎ Moves 1 dropping.state pending.state
unfolding Server.init Server.begin Server.check_permits Server.acquired Server.spawn
    Server.signalled Server.notify
follows_life_example = follows_life dropping-Runs (notifies refl refl)
