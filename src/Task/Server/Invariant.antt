-- ===== src/Task/Server/Invariant.antt =====
-- task/server.rs: the invariant of the counts through the notifications and the tasks' steps.
use rxh.Prelude.{
  ℕ, ◌+◌, ◌≤◌, ◌≡◌, refl, sym, ap, ◌∙◌, Option, none, some, List, ◌∷◌, ◌++◌, inl, inr, zero_or_pos,
  some-none, arith,
}
use rxh.Tokio.{Semaphore, Broadcast, Mpsc, got, closed}
use rxh.Notify
use rxh.Notify.{Notification, shutdown, Channels}
use rxh.Notify.Counts.{collect-got, collect-closed, acknowledge-some}
use rxh.Task.Server
use rxh.Task.Server.{
  dropped, collecting, freeing, freed, Stage, serving, acking, leaving, released, parting, Task,
  System, after_check,
}
use rxh.Task.Server.Counts.{
  permit_of, receiver_of, sender_of, total, total-at, total-middle, receivers_le_senders,
}
use rxh.Task.Server.Account.{Account-step, Holds, Inv}

module _ (bc : Broadcast Notification) where
  -- The notification reaches nobody exactly if there is no receiver.
  none-receivers : (m : Notification) (b : bc.Bus) → (bc.send m b).0 ≡ none → bc.receivers b ≡ 0
  none-receivers m b e = elim (zero_or_pos (bc.receivers b)) [
    | inl z ↦ z
    | inr p ↦ absurd (some-none (bc.receivers b) (sym (bc.send-some m b p) ∙ e))
  ]

module _ {sm : Semaphore} {bc : Broadcast Notification} {mp : Mpsc} {max : ℕ}
    {s : System sm bc mp} where
  notified-Inv :
      (r : Option ℕ) (b : bc.Bus)
      → bc.receivers b ≡ bc.receivers s.channels.notifications
      → (r ≡ none → bc.receivers b ≡ 0)
      → Holds max dropped s
      → Inv max (Server.notified sm bc mp s (r, record s.channels { notifications = b }))
  unfolding Notify.begin_collecting
  notified-Inv none b e f h = record {
    permits = h.permits;
    receivers = e ∙ h.receivers;
    senders = omega (arith, h.receivers, e, f refl);
  }
  notified-Inv (some n) b e f h = record {
    permits = h.permits;
    receivers = e ∙ h.receivers;
    senders = omega (arith, h.senders, (mp.drop_counts s.channels.acknowledgements).0);
  }

  pub notify-Inv : Holds max dropped s → Inv max (Server.notify sm bc mp s)
  unfolding Server.notify Notify.send
  notify-Inv h =
      let b = s.channels.notifications in
      notified-Inv (bc.send shutdown b).0 (bc.send shutdown b).1 (bc.receivers-send shutdown b)
        (λ e. bc.receivers-send shutdown b ∙ none-receivers bc shutdown b e) h

  pub collected-Inv :
      (channels : Channels bc mp)
      → Notify.collect bc mp s.channels ≡ got channels
      → Inv max s
      → Inv max (Server.collected sm bc mp channels s)
  unfolding Server.collected
  collected-Inv channels e h =
      let (same, k) = collect-got s.channels channels e in
      record {
        permits = h.permits;
        receivers = ap bc.receivers same.bus ∙ h.receivers;
        senders =
            Account-step s.phase _ _ _ _ _ _ 0 h.senders (omega arith) (omega (arith, same.senders))
              (omega arith);
      }

  pub all_collected-Inv :
      Notify.collect bc mp s.channels ≡ closed
      → Holds max collecting s
      → Inv max (Server.all_collected sm bc mp s)
  unfolding Server.all_collected
  all_collected-Inv e h = record {
    permits = h.permits;
    receivers = h.receivers;
    senders =
        omega (arith, h.senders, (collect-closed s.channels e).0, receivers_le_senders s.tasks);
  }

  pub free_config-Inv : Holds max freeing s → Inv max (Server.free_config sm bc mp s)
  unfolding Server.free_config
  free_config-Inv h = record { permits = h.permits; receivers = h.receivers; senders = h.senders }

  pub complete-Inv : Holds max freed s → Inv max (Server.complete sm bc mp s)
  unfolding Server.complete
  complete-Inv h = record { permits = h.permits; receivers = h.receivers; senders = h.senders }

  module _ (before after : List (Task sm bc mp)) (k : Task sm bc mp)
      (at : s.tasks ≡ before ++ k ∷ after) (h : Inv max s) where
    -- The totals when the task goes from one stage to another.
    change :
        (w : Stage → ℕ) (g g' : Stage)
        → k.stage ≡ g
        → total w (before ++ record k { stage = g' } ∷ after) + w g ≡ total w s.tasks + w g'
    change w g g' e = omega (
      arith,
      total-at w s.tasks before k after g at e,
      total-middle w before (record k { stage = g' }) after,
    )

    -- What a step of one task has to satisfy.
    task-Inv :
        (g g' : Stage) (connections : sm.Sem) (channels : Channels bc mp)
        → k.stage ≡ g
        → sm.available connections + permit_of g' ≡ sm.available s.connections + permit_of g
        → bc.receivers channels.notifications + receiver_of g
          ≡ bc.receivers s.channels.notifications + receiver_of g'
        → mp.senders channels.acknowledgements ≡ mp.senders s.channels.acknowledgements
        → receiver_of g' ≤ receiver_of g
        → Inv max (record s {
          connections = connections;
          channels = channels;
          tasks = before ++ record k { stage = g' } ∷ after;
        })
    task-Inv g g' connections channels e p r n le = record {
      permits = omega (arith, h.permits, change permit_of g g' e, p);
      receivers = omega (arith, h.receivers, change receiver_of g g' e, r);
      senders =
          Account-step s.phase _ _ _ _ _ _ 0 h.senders (omega (arith, change sender_of g g' e))
            (omega (arith, n)) (omega (arith, change receiver_of g g' e, le));
    }

    checked-Inv :
        (received : Option Notification) (b : bc.Bus)
        → bc.receivers b ≡ bc.receivers s.channels.notifications
        → k.stage ≡ serving
        → Inv max (record s {
          channels = record s.channels { notifications = b };
          tasks = before ++ record k { stage = Server.after_check sm bc mp received } ∷ after;
        })
    checked-Inv none b e g =
        task-Inv serving leaving s.connections _ g refl (omega (arith, e)) refl (omega arith)
    checked-Inv (some shutdown) b e g =
        task-Inv serving acking s.connections _ g refl (omega (arith, e)) refl (omega arith)

    pub serve_end-Inv : k.stage ≡ serving → Inv max (Server.serve_end sm bc mp before k after s)
    unfolding Server.serve_end Notify.receive_notification
    serve_end-Inv g =
        let (received, b) =
          bc.try_recv k.subscription.notification_receiver s.channels.notifications in
        let e =
          bc.receivers-try_recv k.subscription.notification_receiver s.channels.notifications in
        checked-Inv received b e g

    pub panicked-Inv : k.stage ≡ serving → Inv max (Server.panicked sm bc mp before k after s)
    unfolding Server.panicked
    panicked-Inv g =
        task-Inv serving leaving s.connections s.channels g refl (omega arith) refl (omega arith)

    pub acknowledged-Inv :
        (channels : Channels bc mp)
        → k.stage ≡ acking
        → Notify.acknowledge_notification bc mp s.channels ≡ some channels
        → Inv max (Server.acknowledged sm bc mp before k after channels s)
    unfolding Server.acknowledged
    acknowledged-Inv channels g e =
        let (same, q) = acknowledge-some s.channels channels e in
        task-Inv acking leaving s.connections channels g refl
          (omega (arith, ap bc.receivers same.bus)) same.senders (omega arith)

    pub drop_permit-Inv : k.stage ≡ leaving → Inv max (Server.drop_permit sm bc mp before k after s)
    unfolding Server.drop_permit
    drop_permit-Inv g =
        task-Inv leaving released (sm.release s.connections) s.channels g
          (omega (arith, sm.release_gives s.connections)) refl refl (omega arith)

    pub drop_receiver-Inv :
        k.stage ≡ released → Inv max (Server.drop_receiver sm bc mp before k after s)
    unfolding Server.drop_receiver Notify.drop_receiver
    drop_receiver-Inv g =
        let r = k.subscription.notification_receiver in
        task-Inv released parting s.connections _ g refl
          (omega (
            arith,
            h.receivers,
            bc.receivers-drop r s.channels.notifications,
            total-at receiver_of s.tasks before k after released at g,
          ))
          refl (omega arith)

    pub drop_sender-Inv : k.stage ≡ parting → Inv max (Server.drop_sender sm bc mp before after s)
    unfolding Server.drop_sender Notify.drop_sender
    drop_sender-Inv g = record {
      permits = omega (arith, h.permits, total-at permit_of s.tasks before k after parting at g);
      receivers =
          omega (arith, h.receivers, total-at receiver_of s.tasks before k after parting at g);
      senders =
          Account-step s.phase _ _ _ _ _ _ 1 h.senders
            (omega (arith, total-at sender_of s.tasks before k after parting at g))
            ((mp.drop_counts s.channels.acknowledgements).0)
            (omega (arith, total-at receiver_of s.tasks before k after parting at g));
    }
