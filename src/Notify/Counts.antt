-- ===== src/Notify/Counts.antt =====
-- sync/notify.rs: what a poll does to the counts of the channels.
use rxh.Prelude.{◌+◌, ◌≡◌, ◌<◌, refl, ap, subst, Option, none, some}
use rxh.Tokio.{Broadcast, Mpsc, Received, got, closed, waiting}
use rxh.Notify
use rxh.Notify.{Notification, Channels, offered, polled}

module _ {bc : Broadcast Notification} {mp : Mpsc} where
  -- The same notifications and senders.
  pub record Same (c c' : Channels bc mp) : Type 0 where
    pub bus : c'.notifications ≡ c.notifications
    pub senders : mp.senders c'.acknowledgements ≡ mp.senders c.acknowledgements

  polled-got :
      (c c' : Channels bc mp) (r : Received mp.Chan)
      → polled bc mp c r ≡ got c'
      → (a : mp.Chan) × (r ≡ got a) × (record c { acknowledgements = a } ≡ c')
  polled-got c c' (got a) e = (a, refl, cc)
  polled-got c c' closed e = cc
  polled-got c c' waiting e = cc

  polled-closed :
      (c : Channels bc mp) (r : Received mp.Chan) → polled bc mp c r ≡ closed → r ≡ closed
  polled-closed c (got a) e = cc
  polled-closed c closed e = refl
  polled-closed c waiting e = cc

  offered-some :
      (c c' : Channels bc mp) (o : Option mp.Chan)
      → offered bc mp c o ≡ some c'
      → (a : mp.Chan) × (o ≡ some a) × (record c { acknowledgements = a } ≡ c')
  offered-some c c' none e = cc
  offered-some c c' (some a) e = (a, refl, cc)

  pub collect-got :
      (c c' : Channels bc mp)
      → Notify.collect bc mp c ≡ got c'
      → Same c c' × (mp.queued c.acknowledgements ≡ mp.queued c'.acknowledgements + 1)
  unfolding Notify.collect
  collect-got c c' e =
      let (a, f, g) = polled-got c c' (mp.recv c.acknowledgements) e in
      let (h, k) = mp.got_counts c.acknowledgements a f in
      subst (λ d. Same c d × (mp.queued c.acknowledgements ≡ mp.queued d.acknowledgements + 1)) g
        (record { bus = refl; senders = h }, k)

  pub collect-closed :
      (c : Channels bc mp)
      → Notify.collect bc mp c ≡ closed
      → (mp.senders c.acknowledgements ≡ 0) × (mp.queued c.acknowledgements ≡ 0)
  unfolding Notify.collect
  collect-closed c e =
      mp.closed_counts c.acknowledgements (polled-closed c (mp.recv c.acknowledgements) e)

  pub acknowledge-some :
      (c c' : Channels bc mp)
      → Notify.acknowledge_notification bc mp c ≡ some c'
      → Same c c' × (mp.queued c'.acknowledgements ≡ mp.queued c.acknowledgements + 1)
  unfolding Notify.acknowledge_notification
  acknowledge-some c c' e =
      let (a, f, g) = offered-some c c' (mp.offer c.acknowledgements) e in
      let (h, k) = mp.offer_counts c.acknowledgements a f in
      subst (λ d. Same c d × (mp.queued d.acknowledgements ≡ mp.queued c.acknowledgements + 1)) g
        (record { bus = refl; senders = h }, k)

  pub collect-is-got :
      (c : Channels bc mp)
      → 0 < mp.queued c.acknowledgements
      → (c' : Channels bc mp) × (Notify.collect bc mp c ≡ got c')
  unfolding Notify.collect
  collect-is-got c q =
      let (a, e) = mp.recv-got c.acknowledgements q in
      (record c { acknowledgements = a }, ap (Notify.polled bc mp c) e)

  pub collect-is-closed :
      (c : Channels bc mp)
      → mp.queued c.acknowledgements ≡ 0
      → mp.senders c.acknowledgements ≡ 0
      → Notify.collect bc mp c ≡ closed
  unfolding Notify.collect
  collect-is-closed c q n = ap (Notify.polled bc mp c) (mp.recv-closed c.acknowledgements q n)

  pub acknowledge-is-some :
      (c : Channels bc mp)
      → mp.queued c.acknowledgements ≡ 0
      → (c' : Channels bc mp) × (Notify.acknowledge_notification bc mp c ≡ some c')
  unfolding Notify.acknowledge_notification
  acknowledge-is-some c q =
      let (a, e) = mp.offer-some c.acknowledgements q in
      (record c { acknowledgements = a }, ap (Notify.offered bc mp c) e)
