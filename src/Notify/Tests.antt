-- ===== src/Notify/Tests.antt =====
-- sync/notify.rs: one subscription that acknowledges the shutdown.
use rxh.Prelude.{◌≡◌, refl, [], some}
use rxh.Tokio.Counters.{counting_broadcast, counting_mpsc}
use rxh.Notify
use rxh.Notify.{Notification, shutdown, Subscription}
use rxh.Notify.Protocol.{
  collected, Handles, Used, new, subscribe, send, receive, acknowledge, drop_receiver, drop_sender,
  begin_collecting, collect, finish,
}
use rxh.Notify.Acks.{Used-Told}

-- Nobody is left.
abbrev over : Handles (counting_broadcast Notification) counting_mpsc
over = record {
  channels = record { notifications = (0, some shutdown); acknowledgements = (0, 0) };
  life = collected;
  subscriptions = [];
  leaving = 0;
  sent = 1;
  received = 1;
}

over-Used : Used (counting_broadcast Notification) counting_mpsc over
unfolding Notify.new Notify.subscribe Notify.send Notify.receive_notification Notify.drop_receiver
    Notify.drop_sender Notify.begin_collecting Notify.acknowledge_notification Notify.collect
over-Used =
    let s0 : Subscription (counting_broadcast Notification) counting_mpsc = record {
      notification_receiver = tt;
    } in
    let u1 = send _ shutdown (subscribe _ new refl) refl in
    let u2 = receive _ [] s0 [] u1 refl in
    let u3 = acknowledge _ [] s0 [] _ u2 refl refl in
    let u4 = begin_collecting _ u3 refl in
    let u5 = drop_receiver _ [] s0 [] u4 refl in
    let u6 = drop_sender _ 0 u5 refl in finish _ (collect _ _ u6 refl refl) refl refl

Used-Told_example : (over.subscriptions ≡ []) × (over.leaving ≡ 0) × (over.received ≡ over.sent)
Used-Told_example = Used-Told over over-Used
