-- ===== src/Service/Flight/Shares.antt =====
-- src/service/mod.rs with src/sched/wrr.rs: which upstream servers the requests of many clients are sent
-- to, while the exchanges of others are under way.
use rxh.Prelude.{
  ℕ, suc, ◌*◌, ◌≤◌, ◌≡◌, refl, sym, ap, ◌∙◌, inl, inr, Option, some, List, [], ◌∷◌, ◌++◌, map,
  map-replace, if◌then◌else◌,
}
use rxh.Prelude.Texts.{Text}
use rxh.Sched.Picks.{down, picks_between, down_total, count-down}
use rxh.Ring.{usize_mod}
use rxh.Sched.Turns.{HasGiven-heavy}
use rxh.Sched.Expand.{total_weight}
use rxh.Sched.Fairness.{count, weight_of}
use rxh.Config
use rxh.Config.{Pattern, forward, Forward}
use rxh.Config.Deser.{ok}
use rxh.Config.Deser.Visit.{Entry, visit_map}
use rxh.Http.{Web, Request}
use rxh.Service.{Upstream, FileSystem}
use rxh.Service.Dispatch.{Rxh}
use rxh.Service.Flight.{
  Flight, resume, begin, Traffic, service_for, Flies, quiet, arrive, go_on, elsewhere,
}
use rxh.Service.Flight.Departs.{hits, hit_count, HasTurned, begin-HasTurned, configured-HasTurned}
use rxh.Service.Flight.Clients.{address, resume-address, begin-Same, with_config}

module _ {web : Web} {version : Text} {Addr Incoming : Type 0} {show : Addr → Text}
    {up : Upstream web Addr Incoming} {fs : FileSystem} where
  module _ (s : Rxh web version show up fs) (before : List (Pattern Addr)) (p : Pattern Addr)
      (f : Forward Addr) where
    -- The addresses of the pattern's requests, the last one first.
    abbrev sent_of : List (Request web Incoming × Option Addr) → List (Option Addr)
    sent_of [] = []
    sent_of ((request, to) ∷ rest) =
        let more = sent_of rest in if hits s before p f request then to ∷ more else more

    -- What is fixed for a request in flight.
    abbrev pub trip :
        Request web Incoming × Flight web version show up → Request web Incoming × Option Addr
    trip (request, flight) = (request, address flight)

    abbrev pub requests :
        List (Request web Incoming × Flight web version show up) → List (Request web Incoming)
    requests flights = map (λ x. x.0) flights

    record Shares (t : Traffic web version show up fs) : Type 0 where
      turns_had : ℕ
      turned : HasTurned s before p f turns_had (record s { config = t.config })
      counted : hit_count s before p f (requests t.flights) ≡ turns_had
      handed : sent_of (map trip t.flights) ≡ down turns_had f.backends

    HasTurned-config :
        {k : ℕ} {now : Rxh web version show up fs} {config : Config.Server Addr}
        → config ≡ now.config
        → HasTurned s before p f k now
        → HasTurned s before p f k (record s { config = config })
    HasTurned-config e h = record {
      front = h.front;
      back = h.back;
      scheduler = h.scheduler;
      given = h.given;
      stands = ap (λ c. with_config c s) (e ∙ ap (λ x. x.config) h.stands);
      same = h.same;
    }

    Flies-Shares :
        {net : up.Net} {t : Traffic web version show up fs}
        → HasTurned s before p f 0 s
        → Flies web version show up fs s.config net t
        → Shares t
    Flies-Shares h quiet = record { turns_had = 0; turned = h; counted = refl; handed = refl }
    Flies-Shares h (arrive t client server request r) =
        let i = Flies-Shares h r in
        let now : Rxh web version show up fs = with_config t.config s in
        let (to_same, config_same) = begin-Same now client server request in
        elim (begin-HasTurned s before p f i.turns_had now request i.turned) [
          | inl (hit, to, turned, starts, later) ↦
              let goes : address
                    (begin web version show up fs
                      (service_for web version show up fs t client server) request).0
                  ≡ some to =
                to_same ∙ ap address starts in
              record {
                turns_had = suc i.turns_had;
                turned = HasTurned-config config_same later;
                counted = rw hit (ap suc i.counted);
                handed = rw (hit, goes, turned, i.handed) refl;
              }
          | inr (missed, still) ↦ record {
            turns_had = i.turns_had;
            turned = HasTurned-config config_same still;
            counted = rw missed i.counted;
            handed = rw missed i.handed;
          }
        ]
    Flies-Shares h (go_on t front request flight back r e) =
        let i = Flies-Shares h r in
        let resumed = (resume web version show up flight t.net).0 in
        record {
          turns_had = i.turns_had;
          turned = i.turned;
          counted =
              ap (hit_count s before p f) (
                sym (
                  ap requests e
                  ∙ map-replace (λ x. x.0) front (request, flight) (request, resumed) back refl))
              ∙ i.counted;
          handed =
              ap sent_of (
                sym (
                  ap (map trip) e
                  ∙ map-replace trip front (request, flight) (request, resumed) back
                      (ap (λ a. (request, a)) (resume-address flight t.net))))
              ∙ i.handed;
        }
    Flies-Shares h (elsewhere t changed r) =
        let i = Flies-Shares h r in
        record {
          turns_had = i.turns_had;
          turned = i.turned;
          counted = i.counted;
          handed = i.handed;
        }

    -- Where the pattern's requests go, the last one first.
    abbrev pub sent_to : Traffic web version show up fs → List (Option Addr)
    sent_to t = sent_of (map trip t.flights)

    -- In whatever order requests of any connections come to a server that the configuration file
    -- describes, their exchanges with upstream servers go on, and the network changes: the requests
    -- whose first matching pattern is a given forward are passed on, the last one first, to the
    -- addresses of the turns n - 1 down to 0 of its scheduler, where n is their number. No turn is
    -- skipped or given twice.
    pub traffic_turns :
        (es : List (Entry Addr)) (after : List (Pattern Addr)) {net : up.Net}
        (t : Traffic web version show up fs)
        → visit_map es ≡ ok s.config
        → s.config.patterns ≡ before ++ p ∷ after
        → p.action ≡ forward f
        → Flies web version show up fs s.config net t
        → sent_to t ≡ down (hit_count s before p f (requests t.flights)) f.backends
    traffic_turns es after t c e a r =
        let i = Flies-Shares (configured-HasTurned s before p f es after c e a) r in
        i.handed ∙ ap (λ k. down k f.backends) (sym i.counted)

    -- In whatever order requests of any connections come to a server that the configuration file
    -- describes, their exchanges with upstream servers go on, and the network changes: when n requests
    -- whose first matching pattern is a given forward have come, n at most 2^64, all of them are
    -- passed on to an address, and each address has been given at least as many as the sum of its
    -- weights for each whole cycle in n, and at most once more that sum.
    pub traffic_shares :
        (dec : Discrete Addr) (es : List (Entry Addr)) (after : List (Pattern Addr)) {net : up.Net}
        (t : Traffic web version show up fs) (n cycles : ℕ)
        → visit_map es ≡ ok s.config
        → s.config.patterns ≡ before ++ p ∷ after
        → p.action ≡ forward f
        → Flies web version show up fs s.config net t
        → hit_count s before p f (requests t.flights) ≡ n
        → n ≤ usize_mod
        → cycles * total_weight f.backends ≤ n
        → n ≤ suc cycles * total_weight f.backends
        → (sent : List Addr) × (sent_to t ≡ map some sent)
          × ((a : Addr)
              → (cycles * weight_of dec a f.backends ≤ count dec a sent)
                × (count dec a sent ≤ suc cycles * weight_of dec a f.backends))
    traffic_shares dec es after t n cycles c e a r total small low high =
        let turns = traffic_turns es after t c e a r ∙ ap (λ k. down k f.backends) total in
        let start = configured-HasTurned s before p f es after c e a in
        let (sent, whole) = down_total f.backends n (HasGiven-heavy start.given) in
        (
          sent,
          turns ∙ whole,
          λ b.
              rw (count-down dec f.backends b n sent small whole)
                (picks_between dec f.backends b n cycles low high),
        )
