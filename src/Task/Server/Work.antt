-- ===== src/Task/Server/Work.antt =====
-- task/server.rs: the work that a shutdown has left, and how each step lessens it.
use rxh.Prelude.{
  ℕ, ◌+◌, ◌<◌, ◌≡◌, refl, ap, Option, none, some, List, ◌∷◌, ◌++◌, Bool, true, false, arith,
}
use rxh.Tokio.{Semaphore, Broadcast, Mpsc, got}
use rxh.Notify
use rxh.Notify.{Notification, shutdown, Channels}
use rxh.Notify.Counts.{collect-got, acknowledge-some}
use rxh.Task.Server
use rxh.Task.Server.{
  Phase, initial, selecting, dropped, collecting, freeing, freed, Stage, serving, acking, leaving,
  released, parting, Task, System,
}
use rxh.Task.Server.Counts.{work_of, total, total-at, total-middle}

-- The listener is dropped.
unfoldable pub draining : Phase → Bool
draining initial = false
draining (selecting p) = false
draining _ = true

-- Steps that are left to the server itself.
unfoldable pub server_work : Phase → ℕ
server_work dropped = 4
server_work collecting = 3
server_work freeing = 2
server_work freed = 1
server_work _ = 0

module _ {sm : Semaphore} {bc : Broadcast Notification} {mp : Mpsc} where
  -- A bound on the steps that are left: the server's, the tasks', and the acknowledgements to collect.
  unfoldable pub work : System sm bc mp → ℕ
  work s = server_work s.phase + total work_of s.tasks + mp.queued s.channels.acknowledgements

  -- A step leads to `t`, which drains too, with less work.
  abbrev pub Less : System sm bc mp → System sm bc mp → Type 0
  Less s t = (draining t.phase ≡ true) × (work t < work s)

  module _ (s : System sm bc mp) where
    notified-Less :
        (r : Option ℕ) (b : bc.Bus)
        → s.phase ≡ dropped
        → Less s (Server.notified sm bc mp s (r, record s.channels { notifications = b }))
    unfolding draining work server_work Notify.begin_collecting
    notified-Less none b p = (refl, omega (arith, ap server_work p))
    notified-Less (some n) b p =
        (refl, omega (arith, ap server_work p, (mp.drop_counts s.channels.acknowledgements).1))

    pub notify-Less : s.phase ≡ dropped → Less s (Server.notify sm bc mp s)
    unfolding Server.notify Notify.send
    notify-Less p =
        let b = s.channels.notifications in
        notified-Less (bc.send shutdown b).0 (bc.send shutdown b).1 p

    pub collected-Less :
        (channels : Channels bc mp)
        → draining s.phase ≡ true
        → Notify.collect bc mp s.channels ≡ got channels
        → Less s (Server.collected sm bc mp channels s)
    unfolding work Server.collected
    collected-Less channels d e =
        let (same, q) = collect-got s.channels channels e in (d, omega (arith, q))

    pub all_collected-Less : s.phase ≡ collecting → Less s (Server.all_collected sm bc mp s)
    unfolding draining work server_work Server.all_collected
    all_collected-Less p = (refl, omega (arith, ap server_work p))

    pub free_config-Less : s.phase ≡ freeing → Less s (Server.free_config sm bc mp s)
    unfolding draining work server_work Server.free_config
    free_config-Less p = (refl, omega (arith, ap server_work p))

    pub complete-Less : s.phase ≡ freed → Less s (Server.complete sm bc mp s)
    unfolding draining work server_work Server.complete
    complete-Less p = (refl, omega (arith, ap server_work p))

    module _ (before after : List (Task sm bc mp)) (k : Task sm bc mp)
        (at : s.tasks ≡ before ++ k ∷ after) (d : draining s.phase ≡ true) where
      -- A task goes on, and the queue grows by less.
      task-Less :
          (g g' : Stage) (connections : sm.Sem) (channels : Channels bc mp)
          → k.stage ≡ g
          → work_of g' + mp.queued channels.acknowledgements
            < work_of g + mp.queued s.channels.acknowledgements
          → Less s (record s {
            connections = connections;
            channels = channels;
            tasks = before ++ record k { stage = g' } ∷ after;
          })
      unfolding work
      task-Less g g' connections channels e q = (
        d,
        omega (
          arith,
          q,
          total-at work_of s.tasks before k after g at e,
          total-middle work_of before (record k { stage = g' }) after,
        ),
      )

      checked-Less :
          (received : Option Notification) (b : bc.Bus)
          → k.stage ≡ serving
          → Less s (record s {
            channels = record s.channels { notifications = b };
            tasks = before ++ record k { stage = Server.after_check sm bc mp received } ∷ after;
          })
      checked-Less none b e = task-Less serving leaving s.connections _ e (omega arith)
      checked-Less (some shutdown) b e = task-Less serving acking s.connections _ e (omega arith)

      pub serve_end-Less : k.stage ≡ serving → Less s (Server.serve_end sm bc mp before k after s)
      unfolding Server.serve_end Notify.receive_notification
      serve_end-Less e =
          let (received, b) =
            bc.try_recv k.subscription.notification_receiver s.channels.notifications in
          checked-Less received b e

      pub panicked-Less : k.stage ≡ serving → Less s (Server.panicked sm bc mp before k after s)
      unfolding Server.panicked
      panicked-Less g = task-Less serving leaving s.connections s.channels g (omega arith)

      pub acknowledged-Less :
          (channels : Channels bc mp)
          → k.stage ≡ acking
          → Notify.acknowledge_notification bc mp s.channels ≡ some channels
          → Less s (Server.acknowledged sm bc mp before k after channels s)
      unfolding Server.acknowledged
      acknowledged-Less channels g e =
          task-Less acking leaving s.connections channels g
            (omega (arith, (acknowledge-some s.channels channels e).1))

      pub drop_permit-Less :
          k.stage ≡ leaving → Less s (Server.drop_permit sm bc mp before k after s)
      unfolding Server.drop_permit
      drop_permit-Less g =
          task-Less leaving released (sm.release s.connections) s.channels g (omega arith)

      pub drop_receiver-Less :
          k.stage ≡ released → Less s (Server.drop_receiver sm bc mp before k after s)
      unfolding Server.drop_receiver Notify.drop_receiver
      drop_receiver-Less g = task-Less released parting s.connections _ g (omega arith)

      pub drop_sender-Less : k.stage ≡ parting → Less s (Server.drop_sender sm bc mp before after s)
      unfolding work Server.drop_sender Notify.drop_sender
      drop_sender-Less g = (
        d,
        omega (
          arith,
          total-at work_of s.tasks before k after parting at g,
          (mp.drop_counts s.channels.acknowledgements).1,
        ),
      )
