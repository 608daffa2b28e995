-- ===== src/Notify/Protocol.antt =====
-- src/sync/notify.rs: a `Notifier` and its `Subscription`s, used in any order.
use rxh.Prelude.{ℕ, ◌+◌, ◌≡◌, some, List, [], ◌∷◌, ◌++◌}
use rxh.Tokio.{Broadcast, Mpsc, got, closed}
use rxh.Notify
use rxh.Notify.{Notification, Channels, Subscription}

-- The `Notifier`: it can be used, `collect_acknowledgements` has taken it, or has returned.
pub data Life : Type 0 where
  notifying collecting collected : Life

-- The sender that the `Notifier` keeps for itself.
abbrev pub own : Life → ℕ
own notifying = 1
own collecting = 0
own collected = 0

module _ (bc : Broadcast Notification) (mp : Mpsc) where
  -- The subscriptions that are alive, how many are half dropped, and how many acknowledgements were sent
  -- and received.
  pub record Handles : Type 0 where
    pub channels : Channels bc mp
    pub life : Life
    pub subscriptions : List (Subscription bc mp)
    pub leaving : ℕ
    pub sent : ℕ
    pub received : ℕ

  abbrev pub first : Handles
  first = record {
    channels = Notify.new bc mp;
    life = notifying;
    subscriptions = [];
    leaving = 0;
    sent = 0;
    received = 0;
  }

  -- One call on a handle that is alive, or a part of its drop.
  pub data Used : Handles → Type 0 where
    new : Used first
    subscribe :
        (h : Handles)
        → Used h
        → h.life ≡ notifying
        → Used (record h {
          subscriptions = (Notify.subscribe bc mp h.channels).0 ∷ h.subscriptions;
          channels = (Notify.subscribe bc mp h.channels).1;
        })
    send :
        (h : Handles) (notification : Notification)
        → Used h
        → h.life ≡ notifying
        → Used (record h { channels = (Notify.send bc mp notification h.channels).1 })
    receive :
        (h : Handles) (before : List (Subscription bc mp)) (s : Subscription bc mp)
        (after : List (Subscription bc mp))
        → Used h
        → h.subscriptions ≡ before ++ s ∷ after
        → Used (record h { channels = (Notify.receive_notification bc mp s h.channels).1 })
    acknowledge :
        (h : Handles) (before : List (Subscription bc mp)) (s : Subscription bc mp)
        (after : List (Subscription bc mp)) (channels : Channels bc mp)
        → Used h
        → h.subscriptions ≡ before ++ s ∷ after
        → Notify.acknowledge_notification bc mp h.channels ≡ some channels
        → Used (record h { channels = channels; sent = h.sent + 1 })
    drop_receiver :
        (h : Handles) (before : List (Subscription bc mp)) (s : Subscription bc mp)
        (after : List (Subscription bc mp))
        → Used h
        → h.subscriptions ≡ before ++ s ∷ after
        → Used (record h {
          channels = Notify.drop_receiver bc mp s h.channels;
          subscriptions = before ++ after;
          leaving = h.leaving + 1;
        })
    drop_sender :
        (h : Handles) (left : ℕ)
        → Used h
        → h.leaving ≡ left + 1
        → Used (record h { channels = Notify.drop_sender bc mp h.channels; leaving = left })
    begin_collecting :
        (h : Handles)
        → Used h
        → h.life ≡ notifying
        → Used (record h { channels = Notify.begin_collecting bc mp h.channels; life = collecting })
    collect :
        (h : Handles) (channels : Channels bc mp)
        → Used h
        → h.life ≡ collecting
        → Notify.collect bc mp h.channels ≡ got channels
        → Used (record h { channels = channels; received = h.received + 1 })
    finish :
        (h : Handles)
        → Used h
        → h.life ≡ collecting
        → Notify.collect bc mp h.channels ≡ closed
        → Used (record h { life = collected })
