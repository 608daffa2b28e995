-- ===== src/Service/Flight/Lands.antt =====
-- src/service/mod.rs and src/service/proxy.rs: a future that is polled alone does what `call` says.
use rxh.Prelude.{ℕ, ◌≡◌, refl, Option, none, some, ◌⊎◌, inl, inr, List}
use rxh.Prelude.Texts.{Text, starts_with}
use rxh.Sched.{Scheduler, next_server}
use rxh.Config.{Pattern, Action, Forward, forward, serve}
use rxh.Http.{Web, Request, upgrade}
use rxh.Http.Forwarded
use rxh.Http.Forwarded.{ProxyRequest}
use rxh.Service.{Upstream, FileSystem, Answer}
use rxh.Service.Proxy
use rxh.Service.Proxy.{connected, shaken, sent, wanted, taken}
use rxh.Service.Dispatch.{Rxh, find, call, act, dispatched, scheduled}
use rxh.Service.Flight.{
  connecting, Flight, passed, on_connect, on_handshake, prepared, polls, output, begin, acted,
  routed, departed,
}

module _ (web : Web) (version : Text) {Addr Incoming : Type 0} (show : Addr → Text)
    (up : Upstream web Addr Incoming) where
  -- Polled `n` times, the future has this output, and leaves this network.
  abbrev pub Lands :
      ℕ → Flight web version show up → up.Net → Answer web Incoming up.Failure × up.Net → Type 0
  Lands n flight net out =
      (output web version show up (polls web version show up n flight net).0 ≡ some out.0)
      × ((polls web version show up n flight net).1 ≡ out.1)

  pub Lands-unique :
      (n : ℕ) (flight : Flight web version show up) (net : up.Net)
      {out out' : Answer web Incoming up.Failure × up.Net}
      → Lands n flight net out
      → Lands n flight net out'
      → out ≡ out'
  Lands-unique n flight net {out} {out'} (a, e) (b, f) =
      let same : out.0 ≡ out'.0 = cc in let also : out.1 ≡ out'.1 = cc in λ i. (same i, also i)

  prepared-Lands :
      (to : Addr) (sender : up.Sender) (client : Option (Option web.OnUpgrade))
      (request : Option (Request web Incoming)) (net : up.Net)
      → Lands 1
          (passed to (prepared web version show up sender client request))
          net
          (sent web version show up sender client request net)
  unfolding polls
  prepared-Lands to sender none request net = (refl, refl)
  prepared-Lands to sender (some client) none net = (refl, refl)
  prepared-Lands to sender (some client) (some request) net = (refl, refl)

  shaken-Lands :
      (to : Addr) (p : ProxyRequest web Addr Incoming) (x : up.Failure ⊎ up.Sender) (net : up.Net)
      → Lands 1
          (passed to (on_handshake web version show up p x))
          net
          (shaken web version show up p x net)
  unfolding polls
  shaken-Lands to p (inl err) net = (refl, refl)
  shaken-Lands to p (inr sender) net =
      prepared-Lands to sender
        (wanted web version show up (web.get upgrade p.request.headers) p.request.on_upgrade)
        (Forwarded.into_forwarded web show (taken web version show up p)) net

  connected-Lands :
      (to : Addr) (p : ProxyRequest web Addr Incoming) (c : Option up.Stream) (net : up.Net)
      → Lands 2
          (passed to (on_connect web version show up p c))
          net
          (connected web version show up p c net)
  unfolding polls
  connected-Lands to p none net = (refl, refl)
  connected-Lands to p (some stream) net =
      shaken-Lands to p (up.handshake stream net).0 (up.handshake stream net).1

  pub forward-Lands :
      (to : Addr) (p : ProxyRequest web Addr Incoming) (net : up.Net)
      → Lands 3 (passed to (connecting p)) net (Proxy.forward web version show up p to net)
  unfolding polls Proxy.forward
  forward-Lands to p net = connected-Lands to p (up.connect to net).0 (up.connect to net).1

module _ {web : Web} {version : Text} {Addr Incoming : Type 0} {show : Addr → Text}
    {up : Upstream web Addr Incoming} {fs : FileSystem} (s : Rxh web version show up fs)
    (request : Request web Incoming) (net : up.Net) where
  -- The future and what `call` gives.
  abbrev pub Agree :
      Flight web version show up × Rxh web version show up fs
      → Answer web Incoming up.Failure × Rxh web version show up fs × up.Net
      → Type 0
  Agree x out = Lands web version show up 3 x.0 net (out.0, out.2) × (x.1 ≡ out.1)

  departed-Agree :
      (before : List (Pattern Addr)) (p : Pattern Addr) (after : List (Pattern Addr))
      (f : Forward Addr) (o : Option (Addr × Scheduler Addr))
      → Agree
          (departed web version show up fs s request before p after f o)
          (scheduled web version show up fs s request net before p after f o)
  unfolding polls
  departed-Agree before p after f none = ((refl, refl), refl)
  departed-Agree before p after f (some (to, scheduler)) = (
    forward-Lands web version show up to
        (Forwarded.new web show request s.client_addr s.server_addr s.config.name) net,
    refl,
  )

  acted-Agree :
      (before : List (Pattern Addr)) (p : Pattern Addr) (after : List (Pattern Addr))
      (a : Action Addr)
      → Agree
          (acted web version show up fs s request before p after a)
          (act web version show up fs s request net before p after a)
  unfolding polls
  acted-Agree before p after (forward f) = departed-Agree before p after f (next_server f.scheduler)
  acted-Agree before p after (serve directory) = ((refl, refl), refl)

  routed-Agree :
      (o : Option (List (Pattern Addr) × Pattern Addr × List (Pattern Addr)))
      → Agree
          (routed web version show up fs s request o)
          (dispatched web version show up fs s request net o)
  unfolding polls
  routed-Agree none = ((refl, refl), refl)
  routed-Agree (some (before, p, after)) = acted-Agree before p after p.action

  -- For every service, request and state of the network: the future of a request, taken to its first
  -- await and then resumed three times with nothing in between, has the output of call, leaves the
  -- network that call leaves, and has moved the schedulers of the configuration as call has.
  pub begin-call :
      Lands web version show up 3 (begin web version show up fs s request).0 net (
        (call web version show up fs s request net).0,
        (call web version show up fs s request net).2,
      )
      × ((begin web version show up fs s request).1 ≡ (call web version show up fs s request net).1)
  unfolding begin call
  begin-call =
      routed-Agree (find (λ p. starts_with (web.uri_text request.uri) p.uri) s.config.patterns)
