-- ===== src/Service/Exchange.antt =====
-- src/service/proxy.rs: what a client gets for a request that is forwarded.
use rxh.Prelude.{
  ◌≡◌, ◌≢◌, refl, sym, ap, ◌∙◌, ◌==◌, ==_iff, Option, none, some, ◌⊎◌, inl, inr, Bool-cases,
  some-none,
}
use rxh.Prelude.Texts.{Text, bytes}
use rxh.Http.{Web, Visible, Request, Response, upgrade}
use rxh.Http.Forwarded
use rxh.Http.Forwarded.{ProxyRequest, Legal, by, into_forwarded_cases}
use rxh.Http.Answers.{
  Body, full, boxed, bad_gateway, into_forwarded, Named, respond_total, forwarded_total,
}
use rxh.Service.{Upstream, Answer, answered, failed, of_option}
use rxh.Service.Proxy.{forward, connected, shaken, sent, received, switched, wanted, taken}

-- What src/ relies on of hyper and of the package.
pub record Assumed {web : Web} (version : Text) {Addr Incoming : Type 0} (show : Addr → Text)
    (up : Upstream web Addr Incoming) : Type 0 where
  pub version-Visible : Visible version
  pub show-Visible : (a : Addr) → Visible (show a)
  -- A response with the status 101 has the extension.
  pub switches :
      (sender : up.Sender) (request : Request web Incoming) (net : up.Net)
      (r : Response web Incoming)
      → (up.send_request sender request net).0 ≡ inr r
      → r.status ≡ 101
      → r.on_upgrade ≢ none

module _ {web : Web} {version : Text} {Addr Incoming : Type 0} {show : Addr → Text}
    {up : Upstream web Addr Incoming} (ok : Assumed version show up)
    (p : ProxyRequest web Addr Incoming) where
  -- The answer is an error of a connection; or a response: 502 of this server, or the one that upstream
  -- gave to the forwarded request, with its status and its body, and this server's name.
  abbrev pub Sound : Answer web Incoming up.Failure → Type 0
  Sound a =
      ((err : up.Failure) × (a ≡ failed err))
      ⊎ ((r : Response web (Body Incoming)) × (a ≡ answered r)
          × Named web version r.headers
          × (((r.status ≡ 502) × (r.body ≡ full (bytes "HTTP 502 BAD GATEWAY")))
              ⊎ ((sender : up.Sender) × (request : Request web Incoming) × (net : up.Net)
                  × (r0 : Response web Incoming) × (Forwarded.into_forwarded web show
                        (taken web version show up p)
                      ≡ some request)
                  × ((up.send_request sender request net).0 ≡ inr r0)
                  × (r.status ≡ r0.status)
                  × (r.body ≡ boxed r0.body))))

  pub gateway-Sound : Sound (of_option (bad_gateway web version))
  unfolding bad_gateway
  gateway-Sound =
      let (r, _, e, s, b, _, _, n) =
        respond_total web version ok.version-Visible 502 (bytes "text/plain")
          (bytes "HTTP 502 BAD GATEWAY") refl in
      inr (r, ap of_option e, n, inl (s, b))

  module _ (sender : up.Sender) (request : Request web Incoming) (net : up.Net)
      (made : Forwarded.into_forwarded web show (taken web version show up p) ≡ some request) where
    module _ (r0 : Response web Incoming)
        (got_it : (up.send_request sender request net).0 ≡ inr r0) where
      pass-Sound :
          (r1 : Response web Incoming)
          → r1.status ≡ r0.status
          → r1.body ≡ r0.body
          → Sound (of_option (into_forwarded web version r1))
      pass-Sound r1 s b =
          let (r, e, t, c, n, _, _) = forwarded_total web version ok.version-Visible r1 in
          inr (
            r,
            ap of_option e,
            n,
            inr (sender, request, net, r0, made, got_it, t ∙ s, c ∙ ap boxed b),
          )

      switched-Sound :
          (client server : Option web.OnUpgrade) (net' : up.Net)
          → r0.status ≡ 101
          → r0.on_upgrade ≡ server
          → Sound (switched web version show up client server r0 net').0
      switched-Sound none server net' s e = gateway-Sound
      switched-Sound (some client) none net' s e =
          absurd (ok.switches sender request net r0 got_it s e)
      switched-Sound (some client) (some server) net' s e =
          pass-Sound (record r0 { on_upgrade = none }) refl refl

      answer-Sound :
          (client : Option web.OnUpgrade) (net' : up.Net)
          → Sound (received web version show up client (inr r0) net').0
      answer-Sound client net' = elim (Bool-cases (r0.status == 101)) [
        | inl e ↦ rw e (switched-Sound client r0.on_upgrade net' ((==_iff _ _).0 e) refl)
        | inr e ↦ rw e (pass-Sound r0 refl refl)
      ]

    pub received-Sound :
        (client : Option web.OnUpgrade) (x : up.Failure ⊎ Response web Incoming) (net' : up.Net)
        → (up.send_request sender request net).0 ≡ x
        → Sound (received web version show up client x net').0
    received-Sound client (inl err) net' e = inl (err, refl)
    received-Sound client (inr r0) net' e = answer-Sound r0 e client net'

  pub wanted-total :
      (value : Option web.Value) (extension : Option web.OnUpgrade)
      → (value ≢ none → extension ≢ none)
      → (client : Option web.OnUpgrade) × (wanted web version show up value extension ≡ some client)
  wanted-total none extension h = (none, refl)
  wanted-total (some v) none h = absurd (h (λ e. some-none v e) refl)
  wanted-total (some v) (some client) h = (some client, refl)

  pub made-total :
      Legal web (by web show p)
      → (request : Request web Incoming) × (Forwarded.into_forwarded web show
            (taken web version show up p)
          ≡ some request)
  unfolding by
  made-total l = elim (into_forwarded_cases show (taken web version show up p) ok.show-Visible) [
    | inl (illegal, _) ↦ absurd (illegal l)
    | inr (_, request, _, e, _, _, _) ↦ (request, e)
  ]

  module _ (legal : Legal web (by web show p))
      (extended : web.get upgrade p.request.headers ≢ none → p.request.on_upgrade ≢ none) where
    sent-Sound :
        (sender : up.Sender) (net : up.Net) (o : Option (Option web.OnUpgrade))
        (q : Option (Request web Incoming)) (client : Option web.OnUpgrade)
        → o ≡ some client
        → (request : Request web Incoming) → q ≡ some request
        → Forwarded.into_forwarded web show (taken web version show up p) ≡ q
        → Sound (sent web version show up sender o q net).0
    sent-Sound sender net none q client e request f made = absurd (some-none client (sym e))
    sent-Sound sender net (some c) none client e request f made = absurd (some-none request (sym f))
    sent-Sound sender net (some c) (some r) client e request f made =
        received-Sound sender r net made c (up.send_request sender r net).0 _ refl

    shaken-Sound :
        (x : up.Failure ⊎ up.Sender) (net : up.Net) → Sound (shaken web version show up p x net).0
    shaken-Sound (inl err) net = inl (err, refl)
    shaken-Sound (inr sender) net =
        let (client, e) =
          wanted-total (web.get upgrade p.request.headers) p.request.on_upgrade extended in
        let (request, made) = made-total legal in
        sent-Sound sender net _ _ client e request made refl

    -- If the name of the proxy is legal in a header and a request with an Upgrade header has the
    -- extension to upgrade it, then, under what is assumed of hyper and of the package, forwarding never
    -- panics: the answer is an error of a connection; or 502 by this server; or the response of upstream
    -- to the forwarded request, with its status and body, and this server as its Server header.
    pub forward-Sound : (to : Addr) (net : up.Net) → Sound (forward web version show up p to net).0
    unfolding forward
    forward-Sound to net = connected-Sound (up.connect to net).0 (up.connect to net).1
      where
        connected-Sound :
            (c : Option up.Stream) (net : up.Net) → Sound (connected web version show up p c net).0
        connected-Sound none net = gateway-Sound
        connected-Sound (some stream) net =
            shaken-Sound (up.handshake stream net).0 (up.handshake stream net).1
