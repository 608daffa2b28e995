-- ===== src/Service/Flight.antt =====
-- src/service/mod.rs and src/service/proxy.rs: the future of a request, from one `await` to the next, and
-- the futures of many clients that share a configuration. The choice of an address is one step: only the
-- counter of the scheduler changes, by one atomic operation.
pub mod Lands
pub mod Departs
pub mod Clients
pub mod Shares
pub mod Stages
pub mod Answers
mod Tests
use rxh.Prelude.{ℕ, zero, suc, ◌≡◌, Option, none, some, ◌⊎◌, inl, inr, List, [], ◌∷◌, ◌++◌}
use rxh.Prelude.Texts.{Text, starts_with}
use rxh.Sched.{Scheduler, next_server}
use rxh.Config
use rxh.Config.{Pattern, Action, Forward, forward, serve}
use rxh.Http.{Web, Request, upgrade}
use rxh.Http.Forwarded
use rxh.Http.Forwarded.{ProxyRequest}
use rxh.Http.Answers.{not_found, bad_gateway}
use rxh.Service.{Upstream, FileSystem, Answer, failed, panicked, of_option}
use rxh.Service.Proxy.{wanted, taken, received}
use rxh.Service.Files.{transfer}
use rxh.Service.Dispatch.{Rxh, find, relative, advanced}

module _ (web : Web) (version : Text) {Addr Incoming : Type 0} (show : Addr → Text)
    (up : Upstream web Addr Incoming) where
  -- The `await` of `forward` where the future waits, with the variables that it still needs.
  pub data Stage : Type 0 where
    connecting : ProxyRequest web Addr Incoming → Stage
    shaking : ProxyRequest web Addr Incoming → up.Stream → Stage
    sending : up.Sender → Option web.OnUpgrade → Request web Incoming → Stage
    done : Answer web Incoming up.Failure → Stage

  abbrev pub on_connect : ProxyRequest web Addr Incoming → Option up.Stream → Stage
  on_connect p none = done (of_option (bad_gateway web version))
  on_connect p (some stream) = shaking p stream

  abbrev pub prepared :
      up.Sender → Option (Option web.OnUpgrade) → Option (Request web Incoming) → Stage
  prepared sender none request = done panicked
  prepared sender (some client) none = done panicked
  prepared sender (some client) (some request) = sending sender client request

  abbrev pub on_handshake : ProxyRequest web Addr Incoming → (up.Failure ⊎ up.Sender) → Stage
  on_handshake p (inl err) = done (failed err)
  on_handshake p (inr sender) =
      prepared sender
        (wanted web version show up (web.get upgrade p.request.headers) p.request.on_upgrade)
        (Forwarded.into_forwarded web show (taken web version show up p))

  -- The call that the future waits for is answered, and the future goes on to its next `await`.
  unfoldable pub proceed : Addr → Stage → up.Net → Stage × up.Net
  proceed to (connecting p) net =
      let (stream, net) = up.connect to net in (on_connect p stream, net)
  proceed to (shaking p stream) net =
      let (shake, net) = up.handshake stream net in (on_handshake p shake, net)
  proceed to (sending sender client request) net =
      let (answer, net) = up.send_request sender request net in
      let (answer, net) = received web version show up client answer net in (done answer, net)
  proceed to (done answer) net = (done answer, net)

  -- The future of a request: answered by this server, or passed on to an address.
  pub data Flight : Type 0 where
    local : Answer web Incoming up.Failure → Flight
    passed : Addr → Stage → Flight

  unfoldable pub resume : Flight → up.Net → Flight × up.Net
  unfolding proceed
  resume (local answer) net = (local answer, net)
  resume (passed to stage) net = let (stage, net) = proceed to stage net in (passed to stage, net)

  -- The future's output, once it is ready.
  abbrev pub output : Flight → Option (Answer web Incoming up.Failure)
  output (local answer) = some answer
  output (passed to (done answer)) = some answer
  output (passed to stage) = none

  -- `n` polls in a row.
  unfoldable pub polls : ℕ → Flight → up.Net → Flight × up.Net
  unfolding resume
  polls zero flight net = (flight, net)
  polls (suc n) flight net = let (flight, net) = resume flight net in polls n flight net

  module _ (fs : FileSystem) where
    abbrev S : Type 0
    S = Rxh web version show up fs

    -- The future of `call` up to its first `await`, with the scheduler that has gone on.
    abbrev pub departed :
        S
        → Request web Incoming
        → List (Pattern Addr)
        → Pattern Addr
        → List (Pattern Addr)
        → Forward Addr
        → Option (Addr × Scheduler Addr)
        → Flight × S
    departed s request before p after f none = (local panicked, s)
    departed s request before p after f (some (to, scheduler)) = (
      passed to
          (connecting (Forwarded.new web show request s.client_addr s.server_addr s.config.name)),
      advanced web version show up fs s before p after f scheduler,
    )

    abbrev pub acted :
        S
        → Request web Incoming
        → List (Pattern Addr)
        → Pattern Addr
        → List (Pattern Addr)
        → Action Addr
        → Flight × S
    acted s request before p after (forward f) =
        departed s request before p after f (next_server f.scheduler)
    acted s request before p after (serve directory) =
        (local (transfer web version fs (relative (web.uri_path request.uri)) directory), s)

    abbrev pub routed :
        S
        → Request web Incoming
        → Option (List (Pattern Addr) × Pattern Addr × List (Pattern Addr))
        → Flight × S
    routed s request none = (local (of_option (not_found web version)), s)
    routed s request (some (before, p, after)) = acted s request before p after p.action

    unfoldable pub begin : S → Request web Incoming → Flight × S
    unfolding find
    begin s request =
        routed s request
          (find (λ p. starts_with (web.uri_text request.uri) p.uri) s.config.patterns)

    -- A server with the requests that have come to it, the last one first.
    pub record Traffic : Type 0 where
      pub config : Config.Server Addr
      pub net : up.Net
      pub flights : List (Request web Incoming × Flight)

    -- The service that `Rxh::new` makes for a connection.
    abbrev pub service_for : Traffic → Addr → Addr → S
    service_for t client server = record {
      config = t.config;
      client_addr = client;
      server_addr = server;
    }

    -- What requests in flight on one server can come to: one arrives on some connection, one is resumed,
    -- or the network changes for another reason.
    pub data Flies (config : Config.Server Addr) (net : up.Net) : Traffic → Type 0 where
      quiet : Flies config net (record { config = config; net = net; flights = [] })
      arrive :
          (t : Traffic) (client server : Addr) (request : Request web Incoming)
          → Flies config net t
          → Flies config net (record t {
            config = (begin (service_for t client server) request).1.config;
            flights = (request, (begin (service_for t client server) request).0) ∷ t.flights;
          })
      go_on :
          (t : Traffic) (before : List (Request web Incoming × Flight))
          (request : Request web Incoming) (flight : Flight)
          (after : List (Request web Incoming × Flight))
          → Flies config net t
          → t.flights ≡ before ++ (request, flight) ∷ after
          → Flies config net (record t {
            net = (resume flight t.net).1;
            flights = before ++ (request, (resume flight t.net).0) ∷ after;
          })
      elsewhere :
          (t : Traffic) (changed : up.Net)
          → Flies config net t
          → Flies config net (record t { net = changed })
