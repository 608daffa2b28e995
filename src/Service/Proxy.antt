-- ===== src/Service/Proxy.antt =====
-- src/service/proxy.rs: `forward`.
use rxh.Prelude.{Option, none, some, ◌⊎◌, inl, inr, ◌==◌, if◌then◌else◌}
use rxh.Prelude.Texts.{Text}
use rxh.Http.{Web, Request, Response, upgrade}
use rxh.Http.Forwarded
use rxh.Http.Forwarded.{ProxyRequest}
use rxh.Http.Answers.{bad_gateway, into_forwarded}
use rxh.Service.{Upstream, Answer, failed, panicked, of_option}

module _ (web : Web) (version : Text) {Addr Incoming : Type 0} (show : Addr → Text)
    (up : Upstream web Addr Incoming) where
  abbrev Out : Type 0
  Out = Answer web Incoming up.Failure × up.Net

  -- `ProxyResponse::new(response.map(...)).into_forwarded()`
  abbrev pass_on : Response web Incoming → Answer web Incoming up.Failure
  pass_on response = of_option (into_forwarded web version response)

  -- The response to a request; a protocol switch needs both ends.
  abbrev pub switched :
      Option web.OnUpgrade → Option web.OnUpgrade → Response web Incoming → up.Net → Out
  switched none server response net = (of_option (bad_gateway web version), net)
  switched (some client) none response net = (panicked, net)
  switched (some client) (some server) response net =
      (pass_on (record response { on_upgrade = none }), up.tunnel client server net)

  abbrev pub received : Option web.OnUpgrade → (up.Failure ⊎ Response web Incoming) → up.Net → Out
  received client (inl err) net = (failed err, net)
  received client (inr response) net =
      if response.status == 101
      then switched client response.on_upgrade response net
      else (pass_on response, net)

  -- What the client wants to upgrade to: a panic if the header has no extension with it.
  abbrev pub wanted : Option web.Value → Option web.OnUpgrade → Option (Option web.OnUpgrade)
  wanted none extension = some none
  wanted (some value) none = none
  wanted (some value) (some client) = some (some client)

  abbrev pub sent :
      up.Sender → Option (Option web.OnUpgrade) → Option (Request web Incoming) → up.Net → Out
  sent sender none request net = (panicked, net)
  sent sender (some client) none net = (panicked, net)
  sent sender (some client) (some request) net =
      let (answer, net) = up.send_request sender request net in received client answer net

  -- `remove` takes the extension out of the request.
  abbrev removed : Option web.Value → Request web Incoming → Request web Incoming
  removed none request = request
  removed (some value) request = record request { on_upgrade = none }

  abbrev pub taken : ProxyRequest web Addr Incoming → ProxyRequest web Addr Incoming
  taken p = record p { request = removed (web.get upgrade p.request.headers) p.request }

  abbrev pub shaken : ProxyRequest web Addr Incoming → (up.Failure ⊎ up.Sender) → up.Net → Out
  shaken p (inl err) net = (failed err, net)
  shaken p (inr sender) net =
      sent sender (wanted (web.get upgrade p.request.headers) p.request.on_upgrade)
        (Forwarded.into_forwarded web show (taken p)) net

  abbrev pub connected : ProxyRequest web Addr Incoming → Option up.Stream → up.Net → Out
  connected p none net = (of_option (bad_gateway web version), net)
  connected p (some stream) net = let (shake, net) = up.handshake stream net in shaken p shake net

  unfoldable pub forward : ProxyRequest web Addr Incoming → Addr → up.Net → Out
  forward p to net = let (stream, net) = up.connect to net in connected p stream net
