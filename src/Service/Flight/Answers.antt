-- ===== src/Service/Flight/Answers.antt =====
-- src/service/mod.rs with src/service/proxy.rs: what the requests in flight come to.
use rxh.Prelude.{
  ◌≡◌, ◌≢◌, refl, sym, ap, subst, ◌∙◌, ◌⊎◌, inl, inr, Option, none, some, List, ◌∷◌, ◌++◌, All,
  All-middle, All-insert,
}
use rxh.Prelude.Texts.{Text, starts_with}
use rxh.Sched.{Scheduler, next_server}
use rxh.Config
use rxh.Config.{Pattern, Action, forward, serve, Forward}
use rxh.Http.{Web, Request, upgrade}
use rxh.Http.Forwarded
use rxh.Http.Forwarded.{ProxyRequest}
use rxh.Service.{Upstream, FileSystem, Answer}
use rxh.Service.Dispatch.{Rxh, find, call}
use rxh.Service.Exchange.{Assumed}
use rxh.Service.Answered.{IsAnswered, by-Legal, HasLegalName, call-IsAnswered}
use rxh.Service.Routing.{AllServe, configured-AllServe}
use rxh.Service.Session.{Keeps, call-Keeps}
use rxh.Service.Flight.Lands.{Lands, Lands-unique, begin-call}
use rxh.Config.Deser.{ok}
use rxh.Config.Deser.Visit.{Entry, visit_map}
use rxh.Service.Flight.{
  Stage, connecting, done, Flight, local, passed, resume, output, begin, acted, routed, departed,
  Traffic, service_for, Flies, quiet, arrive, go_on, elsewhere, polls,
}
use rxh.Service.Flight.Stages.{IsFine, proceed-IsFine, three-Ends}
use rxh.Service.Flight.Clients.{begin-Same, with_config}
use rxh.Service.Flight.Lands.{Lands, Lands-unique, begin-call}

module _ {web : Web} {version : Text} {Addr Incoming : Type 0} {show : Addr → Text}
    {up : Upstream web Addr Incoming} (assumed : Assumed version show up) where
  -- What a future leads to without a panic.
  abbrev pub FliesFine : Flight web version show up → Type 0
  FliesFine (local a) = IsAnswered version a
  FliesFine (passed to stage) = IsFine web version show up stage

  resume-FliesFine :
      (flight : Flight web version show up) (net : up.Net)
      → FliesFine flight
      → FliesFine (resume web version show up flight net).0
  unfolding resume
  resume-FliesFine (local a) net h = h
  resume-FliesFine (passed to stage) net h = proceed-IsFine assumed to stage net h

  -- Polled once at each of these states of the network.
  abbrev pub thrice :
      Flight web version show up → up.Net → up.Net → up.Net → Flight web version show up
  thrice flight n m k =
      (resume web version show up
        (resume web version show up (resume web version show up flight n).0 m).0 k).0

  -- The output, which is no panic.
  abbrev pub IsOver : Flight web version show up → Type 0
  IsOver flight =
      (a : Answer web Incoming up.Failure) × (output web version show up flight ≡ some a)
      × IsAnswered version a

  done-IsOver :
      (to : Addr) {stage : Stage web version show up} (a : Answer web Incoming up.Failure)
      → stage ≡ done a
      → IsFine web version show up stage
      → IsOver (passed to stage)
  done-IsOver to a e h = rw e (a, refl, subst (IsFine web version show up) e h)

  thrice-IsOver :
      (flight : Flight web version show up) (n m k : up.Net)
      → FliesFine flight
      → IsOver (thrice flight n m k)
  unfolding resume
  thrice-IsOver (local a) n m k h = (a, refl, h)
  thrice-IsOver (passed to stage) n m k h =
      let (a, e) = three-Ends assumed to stage n m k in
      done-IsOver to a e (
        proceed-IsFine assumed to _ k
          (proceed-IsFine assumed to _ m (proceed-IsFine assumed to stage n h)))

module _ {web : Web} {version : Text} {Addr Incoming : Type 0} {show : Addr → Text}
    {up : Upstream web Addr Incoming} {fs : FileSystem} (assumed : Assumed version show up) where
  module _ (s : Rxh web version show up fs) (request : Request web Incoming) where
    abbrev proxied : ProxyRequest web Addr Incoming
    proxied = Forwarded.new web show request s.client_addr s.server_addr s.config.name

    -- A future starts with its output, or with a connection to some address.
    abbrev Starts : Flight web version show up → Type 0
    Starts flight =
        ((a : Answer web Incoming up.Failure) × (flight ≡ local a))
        ⊎ ((to : Addr) × (flight ≡ passed to (connecting proxied)))

    departed-Starts :
        (before : List (Pattern Addr)) (p : Pattern Addr) (after : List (Pattern Addr))
        (f : Forward Addr) (o : Option (Addr × Scheduler Addr))
        → Starts (departed web version show up fs s request before p after f o).0
    departed-Starts before p after f none = inl (_, refl)
    departed-Starts before p after f (some (to, scheduler)) = inr (to, refl)

    acted-Starts :
        (before : List (Pattern Addr)) (p : Pattern Addr) (after : List (Pattern Addr))
        (a : Action Addr)
        → Starts (acted web version show up fs s request before p after a).0
    acted-Starts before p after (forward f) =
        departed-Starts before p after f (next_server f.scheduler)
    acted-Starts before p after (serve directory) = inl (_, refl)

    routed-Starts :
        (o : Option (List (Pattern Addr) × Pattern Addr × List (Pattern Addr)))
        → Starts (routed web version show up fs s request o).0
    routed-Starts none = inl (_, refl)
    routed-Starts (some (before, p, after)) = acted-Starts before p after p.action

    begin-Starts : Starts (begin web version show up fs s request).0
    unfolding begin
    begin-Starts =
        routed-Starts (find (λ p. starts_with (web.uri_text request.uri) p.uri) s.config.patterns)

    -- The request can be upgraded if it asks for it.
    abbrev pub IsExtended : Type 0
    IsExtended = web.get upgrade request.headers ≢ none → request.on_upgrade ≢ none

    begin-FliesFine :
        up.Net
        → AllServe s.config.patterns
        → HasLegalName assumed s
        → IsExtended
        → FliesFine assumed (begin web version show up fs s request).0
    unfolding polls Forwarded.new
    begin-FliesFine net serves legal extended = elim begin-Starts [
      | inl (a, e) ↦
          let out = call web version show up fs s request net in
          let here =
            subst (λ flight. Lands web version show up 3 flight net (out.0, out.2)) e
              (begin-call s request net).0 in
          let same : out.0 ≡ a =
            ap (λ x. x.0)
              (Lands-unique web version show up 3 (local a) net {out' = (a, net)} here
                (refl, refl)) in
          rw e (
            subst (IsAnswered version) same
              (call-IsAnswered assumed s request net serves legal extended))
      | inr (to, e) ↦ rw e (by-Legal assumed proxied s.config.name refl legal, extended)
    ]

  module _ (s : Rxh web version show up fs) where
    abbrev Ready : Request web Incoming × Flight web version show up → Type 0
    Ready (request, flight) = IsExtended s request → FliesFine assumed flight

    record Safe (t : Traffic web version show up fs) : Type 0 where
      keeps : Keeps s (with_config t.config s)
      ready : All Ready t.flights

    Keeps-config :
        {now : Rxh web version show up fs} {config : Config.Server Addr}
        → config ≡ now.config
        → Keeps s now
        → Keeps s (with_config config s)
    Keeps-config {now} e (serves, uris, rest) =
        subst (λ c. Keeps s (with_config c s)) (sym e)
          (serves, uris, ap (λ y. with_config y.config s) rest)

    Flies-Safe :
        {net : up.Net} {t : Traffic web version show up fs}
        → AllServe s.config.patterns
        → HasLegalName assumed s
        → Flies web version show up fs s.config net t
        → Safe t
    Flies-Safe serves legal quiet = record { keeps = (serves, refl, refl); ready = tt }
    Flies-Safe serves legal (arrive t client server request r) =
        let i = Flies-Safe serves legal r in
        let now : Rxh web version show up fs = with_config t.config s in
        let (serves', _, same) = i.keeps in
        let (_, config_same) = begin-Same now client server request in
        let (_, moves) = begin-call now request t.net in
        record {
          keeps =
              Keeps-config (config_same ∙ ap (λ x. x.config) moves)
                (call-Keeps s now request t.net i.keeps);
          ready = (
            λ extended.
                begin-FliesFine (service_for web version show up fs t client server) request t.net
                  serves' (λ name e. legal name (sym (ap (λ x. x.config.name) same) ∙ e)) extended,
            i.ready,
          );
        }
    Flies-Safe serves legal (go_on t before request flight after r e) =
        let i = Flies-Safe serves legal r in
        let (this, others) =
          All-middle Ready before (request, flight) after (subst (All Ready) e i.ready) in
        record {
          keeps = i.keeps;
          ready =
              All-insert Ready before _ after (λ x. resume-FliesFine assumed flight t.net (this x))
                others;
        }
    Flies-Safe serves legal (elsewhere t changed r) =
        let i = Flies-Safe serves legal r in record { keeps = i.keeps; ready = i.ready }

    -- In whatever order requests of any connections come to a server that the configuration file
    -- describes, their exchanges with upstream servers go on, and the network changes: if the name of
    -- the server is legal in a header or there is none, and under what is assumed of hyper and of the
    -- package, a request that has come, and that has the extension to upgrade it if it has an Upgrade
    -- header, is answered once it has been resumed three times with what it waits for, whatever the
    -- network is at each of them, and without a panic: by an error of a connection or by a response
    -- whose Server header names this server.
    pub traffic_answers :
        (es : List (Entry Addr)) {net : up.Net} (t : Traffic web version show up fs)
        (before : List (Request web Incoming × Flight web version show up))
        (request : Request web Incoming) (flight : Flight web version show up)
        (after : List (Request web Incoming × Flight web version show up)) (n m k : up.Net)
        → visit_map es ≡ ok s.config
        → HasLegalName assumed s
        → Flies web version show up fs s.config net t
        → t.flights ≡ before ++ (request, flight) ∷ after
        → IsExtended s request
        → IsOver assumed (thrice assumed flight n m k)
    traffic_answers es t before request flight after n m k e legal r here extended =
        let i = Flies-Safe (configured-AllServe es e) legal r in
        let (this, _) =
          All-middle Ready before (request, flight) after (subst (All Ready) here i.ready) in
        thrice-IsOver assumed flight n m k (this extended)
