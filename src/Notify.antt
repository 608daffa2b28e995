-- ===== src/Notify.antt =====
-- src/sync/notify.rs: notifications to the tasks of a server, and their acknowledgements.
-- The handles of a `Notifier` and of its `Subscription`s share two channels, whose states go through
-- each operation.
pub mod Counts
pub mod Protocol
pub mod Acks
mod Tests
use rxh.Prelude.{ℕ, Option, none, some}
use rxh.Tokio.{Broadcast, Mpsc, Received, got, closed, waiting}

pub data Notification : Type 0 where
  shutdown : Notification

module _ (bc : Broadcast Notification) (mp : Mpsc) where
  -- The channels behind a `Notifier`.
  pub record Channels : Type 0 where
    pub notifications : bc.Bus
    pub acknowledgements : mp.Chan

  -- `Subscription`, which also owns a sender of `acknowledgements`.
  pub record Subscription : Type 0 where
    pub notification_receiver : bc.Receiver

  unfoldable pub new : Channels
  new = record { notifications = bc.bus; acknowledgements = mp.chan }

  unfoldable pub subscribe : Channels → Subscription × Channels
  subscribe c =
      let (receiver, notifications) = bc.subscribe c.notifications in
      (
        record { notification_receiver = receiver },
        record {
          notifications = notifications;
          acknowledgements = mp.clone_sender c.acknowledgements;
        },
      )

  unfoldable pub send : Notification → Channels → Option ℕ × Channels
  send notification c =
      let (sent, notifications) = bc.send notification c.notifications in
      (sent, record c { notifications = notifications })

  unfoldable pub receive_notification : Subscription → Channels → Option Notification × Channels
  receive_notification s c =
      let (received, notifications) = bc.try_recv s.notification_receiver c.notifications in
      (received, record c { notifications = notifications })

  -- A poll of `acknowledge_notification`: `none` while it waits.
  abbrev pub offered : Channels → Option mp.Chan → Option Channels
  offered c none = none
  offered c (some acknowledgements) = some (record c { acknowledgements = acknowledgements })

  unfoldable pub acknowledge_notification : Channels → Option Channels
  acknowledge_notification c = offered c (mp.offer c.acknowledgements)

  -- `collect_acknowledgements` up to its loop.
  unfoldable pub begin_collecting : Channels → Channels
  begin_collecting c = record c { acknowledgements = mp.drop_sender c.acknowledgements }

  -- A poll of its loop: another acknowledgement, the end of the loop, or nothing yet.
  abbrev pub polled : Channels → Received mp.Chan → Received Channels
  polled c (got acknowledgements) = got (record c { acknowledgements = acknowledgements })
  polled c closed = closed
  polled c waiting = waiting

  unfoldable pub collect : Channels → Received Channels
  collect c = polled c (mp.recv c.acknowledgements)

  -- A `Subscription` is dropped field by field.
  unfoldable pub drop_receiver : Subscription → Channels → Channels
  drop_receiver s c = record c {
    notifications = bc.drop_receiver s.notification_receiver c.notifications;
  }

  unfoldable pub drop_sender : Channels → Channels
  drop_sender c = record c { acknowledgements = mp.drop_sender c.acknowledgements }
