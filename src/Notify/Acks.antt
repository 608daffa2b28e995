-- ===== src/Notify/Acks.antt =====
-- sync/notify.rs: what `send` answers, and when `collect_acknowledgements` returns.
use rxh.Prelude.{
  false, ◌+◌, ◌<◌, ◌≡◌, refl, ap, ◌∙◌, arith, none, some, List, [], ◌∷◌, ◌++◌, length,
  length-append, ◌⊎◌, inl, inr, zero_or_pos, ◌==◌, if◌then◌else◌,
}
use rxh.Tokio.{Broadcast, Mpsc, got, closed}
use rxh.Notify
use rxh.Notify.{Notification, shutdown, Channels}
use rxh.Notify.Counts.{
  collect-got, collect-closed, acknowledge-some, collect-is-got, collect-is-closed,
}
use rxh.Notify.Protocol.{
  Life, notifying, collecting, collected, own, Handles, Used, new, subscribe, send, receive,
  acknowledge, drop_receiver, drop_sender, begin_collecting, collect, finish,
}

length-middle :
    {A : Type 0} {l : List A} (before : List A) (s : A) (after : List A)
    → l ≡ before ++ s ∷ after
    → length l ≡ length (before ++ after) + 1
length-middle before s after e =
    omega (arith, ap length e, length-append before (s ∷ after), length-append before after)

length-empty : {A : Type 0} (l : List A) → length l ≡ 0 → l ≡ []
length-empty [] e = refl
length-empty (x ∷ l) e = absurd (omega (arith, e))

module _ {bc : Broadcast Notification} {mp : Mpsc} where
  -- The counts of the channels.
  record Fits (h : Handles bc mp) : Type 0 where
    receivers : bc.receivers h.channels.notifications ≡ length h.subscriptions
    senders :
        mp.senders h.channels.acknowledgements ≡ length h.subscriptions + h.leaving + own h.life
    messages : mp.queued h.channels.acknowledgements + h.received ≡ h.sent
    over : h.life ≡ collected → (length h.subscriptions + h.leaving ≡ 0) × (h.received ≡ h.sent)

  Used-Fits : {h : Handles bc mp} → Used bc mp h → Fits h
  unfolding Notify.new Notify.subscribe Notify.send Notify.receive_notification Notify.drop_receiver
      Notify.drop_sender Notify.begin_collecting
  Used-Fits new = record {
    receivers = bc.receivers-bus;
    senders = omega (arith, mp.chan-empty.0);
    messages = omega (arith, mp.chan-empty.1);
    over = λ e. cc;
  }
  Used-Fits (subscribe h u e) =
      let i = Used-Fits u in
      let (c, d) = mp.clone_counts h.channels.acknowledgements in
      record {
        receivers = omega (arith, bc.receivers-subscribe h.channels.notifications, i.receivers);
        senders = omega (arith, c, i.senders);
        messages = omega (arith, d, i.messages);
        over = λ f. cc;
      }
  Used-Fits (send h n u e) =
      let i = Used-Fits u in
      record {
        receivers = bc.receivers-send n h.channels.notifications ∙ i.receivers;
        senders = i.senders;
        messages = i.messages;
        over = i.over;
      }
  Used-Fits (receive h before s after u e) =
      let i = Used-Fits u in
      record {
        receivers =
            bc.receivers-try_recv s.notification_receiver h.channels.notifications ∙ i.receivers;
        senders = i.senders;
        messages = i.messages;
        over = i.over;
      }
  Used-Fits (acknowledge h before s after c u e f) =
      let i = Used-Fits u in
      let (same, more) = acknowledge-some h.channels c f in
      let l = length-middle before s after e in
      record {
        receivers = ap bc.receivers same.bus ∙ i.receivers;
        senders = same.senders ∙ i.senders;
        messages = omega (arith, more, i.messages);
        over = λ g. let (none_left, _) = i.over g in absurd (omega (arith, l, none_left));
      }
  Used-Fits (drop_receiver h before s after u e) =
      let i = Used-Fits u in
      let l = length-middle before s after e in
      record {
        receivers = omega (
          arith,
          bc.receivers-drop s.notification_receiver h.channels.notifications,
          i.receivers,
          l,
        );
        senders = omega (arith, i.senders, l);
        messages = i.messages;
        over = λ g. let (none_left, _) = i.over g in absurd (omega (arith, l, none_left));
      }
  Used-Fits (drop_sender h left u e) =
      let i = Used-Fits u in
      let (c, d) = mp.drop_counts h.channels.acknowledgements in
      record {
        receivers = i.receivers;
        senders = omega (arith, c, i.senders, e);
        messages = omega (arith, d, i.messages);
        over = λ g. let (none_left, _) = i.over g in absurd (omega (arith, e, none_left));
      }
  Used-Fits (begin_collecting h u e) =
      let i = Used-Fits u in
      let (c, d) = mp.drop_counts h.channels.acknowledgements in
      record {
        receivers = i.receivers;
        senders = omega (arith, c, i.senders, ap own e);
        messages = omega (arith, d, i.messages);
        over = λ g. cc;
      }
  Used-Fits (collect h c u e f) =
      let i = Used-Fits u in
      let (same, less) = collect-got h.channels c f in
      record {
        receivers = ap bc.receivers same.bus ∙ i.receivers;
        senders = same.senders ∙ i.senders;
        messages = omega (arith, less, i.messages);
        over = λ g. cc;
      }
  Used-Fits (finish h u e f) =
      let i = Used-Fits u in
      let (c, d) = collect-closed h.channels f in
      record {
        receivers = i.receivers;
        senders = omega (arith, c, i.senders, ap own e);
        messages = i.messages;
        over = λ g. (omega (arith, c, i.senders), omega (arith, d, i.messages));
      }

  -- What can be said at each point of the notifier's life.
  abbrev pub Told : Handles bc mp → Life → Type 0
  Told h notifying =
      (Notify.send bc mp shutdown h.channels).0
      ≡ (if length h.subscriptions == 0 then none else some (length h.subscriptions))
  Told h collecting =
      ((c : Channels bc mp) × (Notify.collect bc mp h.channels ≡ got c))
      ⊎ (0 < length h.subscriptions + h.leaving)
      ⊎ ((Notify.collect bc mp h.channels ≡ closed) × (h.received ≡ h.sent))
  Told h collected = (h.subscriptions ≡ []) × (h.leaving ≡ 0) × (h.received ≡ h.sent)

  Fits-Told : (h : Handles bc mp) (life : Life) → h.life ≡ life → Fits h → Told h life
  unfolding Notify.send
  Fits-Told h notifying e i = elim (zero_or_pos (length h.subscriptions)) [
    | inl n ↦ rw n (bc.send-none shutdown h.channels.notifications (i.receivers ∙ n))
    | inr n ↦
        let many : (length h.subscriptions == 0) ≡ false = ground arith in
        rw many (
          bc.send-some shutdown h.channels.notifications (omega (arith, i.receivers, n))
          ∙ ap some i.receivers)
  ]
  Fits-Told h collecting e i = elim (zero_or_pos (mp.queued h.channels.acknowledgements)) [
    | inr q ↦ inl (collect-is-got h.channels q)
    | inl q ↦ elim (zero_or_pos (length h.subscriptions + h.leaving)) [
      | inr n ↦ inr (inl n)
      | inl n ↦ inr (
          inr (
            collect-is-closed h.channels q (omega (arith, i.senders, n, ap own e)),
            omega (arith, i.messages, q),
          ))
    ]
  ]
  Fits-Told h collected e i =
      let (none_left, all) = i.over e in
      (length-empty h.subscriptions (omega (arith, none_left)), omega (arith, none_left), all)

  -- In whatever order a notifier and its subscriptions are used and dropped: while it can be used, send
  -- fails if no subscription is there and otherwise gives their number; while it collects, there is an
  -- acknowledgement to receive, or a subscription is not wholly dropped, or all acknowledgements that
  -- were sent have been received and the loop ends; and when collect_acknowledgements has returned, every
  -- subscription has been dropped and every acknowledgement received.
  pub Used-Told : (h : Handles bc mp) → Used bc mp h → Told h h.life
  Used-Told h u = Fits-Told h h.life refl (Used-Fits u)
