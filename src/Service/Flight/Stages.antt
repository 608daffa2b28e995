-- ===== src/Service/Flight/Stages.antt =====
-- src/service/proxy.rs: what a forwarded request comes to, from one `await` to the next.
use rxh.Prelude.{◌≡◌, ◌≢◌, refl, ap, ◌⊎◌, inl, inr, Option, none, some}
use rxh.Prelude.Texts.{Text}
use rxh.Http.{Web, Request, upgrade}
use rxh.Http.Forwarded
use rxh.Http.Forwarded.{ProxyRequest, Legal, by}
use rxh.Service.{Upstream, Answer}
use rxh.Service.Proxy.{wanted, taken}
use rxh.Service.Exchange.{Assumed, gateway-Sound, received-Sound, wanted-total, made-total}
use rxh.Service.Answered.{IsAnswered, Sound-IsAnswered}
use rxh.Service.Flight.{
  Stage, connecting, shaking, sending, done, on_connect, on_handshake, prepared, proceed,
}

module _ (web : Web) (version : Text) {Addr Incoming : Type 0} (show : Addr → Text)
    (up : Upstream web Addr Incoming) where
  -- What a stage leads to without a panic.
  abbrev pub CanFly : ProxyRequest web Addr Incoming → Type 0
  CanFly p =
      Legal web (by web show p)
      × (web.get upgrade p.request.headers ≢ none → p.request.on_upgrade ≢ none)

  abbrev pub IsFine : Stage web version show up → Type 0
  IsFine (connecting p) = CanFly p
  IsFine (shaking p stream) = CanFly p
  IsFine (sending sender client request) =
      (p : ProxyRequest web Addr Incoming) × (Forwarded.into_forwarded web show
          (taken web version show up p)
        ≡ some request)
  IsFine (done a) = IsAnswered version a

module _ {web : Web} {version : Text} {Addr Incoming : Type 0} {show : Addr → Text}
    {up : Upstream web Addr Incoming} (assumed : Assumed version show up) where
  on_connect-IsFine :
      (p : ProxyRequest web Addr Incoming) (c : Option up.Stream)
      → CanFly web version show up p
      → IsFine web version show up (on_connect web version show up p c)
  on_connect-IsFine p none h = Sound-IsAnswered assumed p _ (gateway-Sound assumed p)
  on_connect-IsFine p (some stream) h = h

  on_handshake-IsFine :
      (p : ProxyRequest web Addr Incoming) (x : up.Failure ⊎ up.Sender)
      → CanFly web version show up p
      → IsFine web version show up (on_handshake web version show up p x)
  on_handshake-IsFine p (inl err) h = inl (err, refl)
  on_handshake-IsFine p (inr sender) (legal, extended) =
      let (client, e) =
        wanted-total assumed p (web.get upgrade p.request.headers) p.request.on_upgrade extended in
      let (request, made) = made-total assumed p legal in rw (e, made) (p, made)

  pub proceed-IsFine :
      (to : Addr) (stage : Stage web version show up) (net : up.Net)
      → IsFine web version show up stage
      → IsFine web version show up (proceed web version show up to stage net).0
  unfolding proceed
  proceed-IsFine to (connecting p) net h = on_connect-IsFine p (up.connect to net).0 h
  proceed-IsFine to (shaking p stream) net h = on_handshake-IsFine p (up.handshake stream net).0 h
  proceed-IsFine to (sending sender client request) net (p, made) = Sound-IsAnswered assumed p _ (
      received-Sound assumed p sender request net made client (up.send_request sender request net).0
        (up.send_request sender request net).1 refl)
  proceed-IsFine to (done a) net h = h

  -- Three calls that are answered, whatever the network, bring a future to its output.
  abbrev pub Ends : Stage web version show up → Type 0
  Ends stage = (a : Answer web Incoming up.Failure) × (stage ≡ done a)

  prepared-Ends :
      (to : Addr) (sender : up.Sender) (client : Option (Option web.OnUpgrade))
      (request : Option (Request web Incoming)) (net : up.Net)
      → Ends
          (proceed web version show up to
            (prepared web version show up sender client request)
            net).0
  unfolding proceed
  prepared-Ends to sender none request net = (_, refl)
  prepared-Ends to sender (some client) none net = (_, refl)
  prepared-Ends to sender (some client) (some request) net = (_, refl)

  shaken-Ends :
      (to : Addr) (p : ProxyRequest web Addr Incoming) (x : up.Failure ⊎ up.Sender) (net : up.Net)
      → Ends (proceed web version show up to (on_handshake web version show up p x) net).0
  unfolding proceed
  shaken-Ends to p (inl err) net = (_, refl)
  shaken-Ends to p (inr sender) net =
      prepared-Ends to sender
        (wanted web version show up (web.get upgrade p.request.headers) p.request.on_upgrade)
        (Forwarded.into_forwarded web show (taken web version show up p)) net

  abbrev pub after : Addr → Stage web version show up → up.Net → Stage web version show up
  after to stage net = (proceed web version show up to stage net).0

  connected-Ends :
      (to : Addr) (p : ProxyRequest web Addr Incoming) (c : Option up.Stream) (n m : up.Net)
      → Ends (after to (after to (on_connect web version show up p c) n) m)
  unfolding proceed
  connected-Ends to p none n m = (_, refl)
  connected-Ends to p (some stream) n m = shaken-Ends to p (up.handshake stream n).0 m

  Ends-after :
      (to : Addr) (stage : Stage web version show up) (net : up.Net)
      → Ends stage
      → Ends (after to stage net)
  unfolding proceed
  Ends-after to stage net (a, e) = (a, ap (λ x. after to x net) e)

  pub three-Ends :
      (to : Addr) (stage : Stage web version show up) (n m k : up.Net)
      → Ends (after to (after to (after to stage n) m) k)
  unfolding proceed
  three-Ends to (connecting p) n m k = connected-Ends to p (up.connect to n).0 m k
  three-Ends to (shaking p stream) n m k =
      Ends-after to _ k (shaken-Ends to p (up.handshake stream n).0 m)
  three-Ends to (sending sender client request) n m k = (_, refl)
  three-Ends to (done a) n m k = (a, refl)
