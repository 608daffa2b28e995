-- ===== src/Service/Flight/Clients.antt =====
-- src/service/mod.rs: the services of several connections to one server.
use rxh.Prelude.{◌≡◌, refl, Option, none, some, List}
use rxh.Prelude.Texts.{Text, starts_with}
use rxh.Sched.{Scheduler, next_server}
use rxh.Config
use rxh.Config.{Pattern, Action, forward, serve, Forward}
use rxh.Http.{Web, Request}
use rxh.Service.{Upstream, FileSystem}
use rxh.Service.Dispatch.{Rxh, find}
use rxh.Service.Flight.{Flight, local, passed, resume, begin, acted, routed, departed}

module _ {web : Web} {version : Text} {Addr Incoming : Type 0} {show : Addr → Text}
    {up : Upstream web Addr Incoming} where
  -- Where the future goes.
  abbrev pub address : Flight web version show up → Option Addr
  address (local answer) = none
  address (passed to stage) = some to

  pub resume-address :
      (flight : Flight web version show up) (net : up.Net)
      → address flight ≡ address (resume web version show up flight net).0
  unfolding resume
  resume-address (local answer) net = refl
  resume-address (passed to stage) net = refl

module _ {web : Web} {version : Text} {Addr Incoming : Type 0} {show : Addr → Text}
    {up : Upstream web Addr Incoming} {fs : FileSystem} where
  abbrev pub Same :
      Flight web version show up × Rxh web version show up fs
      → Flight web version show up × Rxh web version show up fs
      → Type 0
  Same (flight, s) (flight', s') = (address flight ≡ address flight') × (s.config ≡ s'.config)

  module _ (s : Rxh web version show up fs) (client server : Addr)
      (request : Request web Incoming) where
    -- The same server, behind another connection.
    abbrev pub other : Rxh web version show up fs
    other = record s { client_addr = client; server_addr = server }

    departed-Same :
        (before : List (Pattern Addr)) (p : Pattern Addr) (after : List (Pattern Addr))
        (f : Forward Addr) (o : Option (Addr × Scheduler Addr))
        → Same
            (departed web version show up fs other request before p after f o)
            (departed web version show up fs s request before p after f o)
    departed-Same before p after f none = (refl, refl)
    departed-Same before p after f (some (to, scheduler)) = (refl, refl)

    acted-Same :
        (before : List (Pattern Addr)) (p : Pattern Addr) (after : List (Pattern Addr))
        (a : Action Addr)
        → Same
            (acted web version show up fs other request before p after a)
            (acted web version show up fs s request before p after a)
    acted-Same before p after (forward f) = departed-Same before p after f (next_server f.scheduler)
    acted-Same before p after (serve directory) = (refl, refl)

    routed-Same :
        (o : Option (List (Pattern Addr) × Pattern Addr × List (Pattern Addr)))
        → Same
            (routed web version show up fs other request o)
            (routed web version show up fs s request o)
    routed-Same none = (refl, refl)
    routed-Same (some (before, p, after)) = acted-Same before p after p.action

    pub begin-Same :
        Same (begin web version show up fs other request) (begin web version show up fs s request)
    unfolding begin
    begin-Same =
        routed-Same (find (λ p. starts_with (web.uri_text request.uri) p.uri) s.config.patterns)

  -- The service behind a connection, with this configuration.
  abbrev pub with_config :
      Config.Server Addr → Rxh web version show up fs → Rxh web version show up fs
  with_config config s = record s { config = config }
