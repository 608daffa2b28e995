-- ===== src/Service/Turns.antt =====
-- src/service/mod.rs with src/sched/wrr.rs: which upstream server a request is sent to, among the
-- requests for all patterns of a server.
use rxh.Prelude.{
  ℕ, suc, ◌+◌, arith, ◌≡◌, sym, subst, true, false, ◌⊎◌, inl, inr, some, List, [], ◌∷◌, ◌++◌,
}
use rxh.Prelude.Texts.{Text}
use rxh.Sched.Turns.{turn}
use rxh.Config.{Pattern, forward, Forward}
use rxh.Config.Deser.{ok}
use rxh.Config.Deser.Visit.{Entry, visit_map}
use rxh.Http.{Web, Request}
use rxh.Http.Forwarded
use rxh.Service.{Upstream, FileSystem}
use rxh.Service.Proxy
use rxh.Service.Dispatch.{Rxh, call}
use rxh.Service.Flight.{begin}
use rxh.Service.Flight.Lands.{Lands, Lands-unique, forward-Lands, begin-call}
use rxh.Service.Session.{session}
use rxh.Service.Flight.Departs.{hits, hit_count, HasTurned, begin-HasTurned, configured-HasTurned}

module _ {web : Web} {version : Text} {Addr Incoming : Type 0} {show : Addr → Text}
    {up : Upstream web Addr Incoming} {fs : FileSystem} (s : Rxh web version show up fs)
    (before : List (Pattern Addr)) (p : Pattern Addr) (f : Forward Addr) where
  -- What a request does, after `k` turns of the pattern.
  abbrev pub Turned : ℕ → Rxh web version show up fs → Request web Incoming → up.Net → Type 0
  Turned k now request net =
      ((hits s before p f request ≡ true)
        × (to : Addr) × (turn k f.backends ≡ some to)
        × ((
          (call web version show up fs now request net).0,
          (call web version show up fs now request net).2,
        )
            ≡ Proxy.forward web version show up
                (Forwarded.new web show request s.client_addr s.server_addr s.config.name) to net)
        × HasTurned s before p f (suc k) (call web version show up fs now request net).1)
      ⊎ ((hits s before p f request ≡ false)
          × HasTurned s before p f k (call web version show up fs now request net).1)

  pub call-HasTurned :
      (k : ℕ) (now : Rxh web version show up fs) (request : Request web Incoming) (net : up.Net)
      → HasTurned s before p f k now
      → Turned k now request net
  call-HasTurned k now request net h =
      let (lands, moves) = begin-call now request net in
      elim (begin-HasTurned s before p f k now request h) [
        | inl (t, to, turned, starts, later) ↦
            let proxied =
              Forwarded.new web show request s.client_addr s.server_addr s.config.name in
            inl (
              t,
              to,
              turned,
              Lands-unique web version show up 3 (begin web version show up fs now request).0 net
                  lands
                  (subst
                    (λ x.
                      Lands web version show up 3 x net
                        (Proxy.forward web version show up proxied to net))
                    (sym starts) (forward-Lands web version show up to proxied net)),
              subst (HasTurned s before p f (suc k)) moves later,
            )
        | inr (t, still) ↦ inr (t, subst (HasTurned s before p f k) moves still)
      ]

  pub session-HasTurned :
      (requests : List (Request web Incoming)) (k : ℕ) {n : ℕ} (now : Rxh web version show up fs)
      (net : up.Net)
      → hit_count s before p f requests + k ≡ n
      → HasTurned s before p f k now
      → HasTurned s before p f n (session now requests net).0
  unfolding session
  session-HasTurned [] k now net e h =
      subst (λ n. HasTurned s before p f n now) (omega (arith, e)) h
  session-HasTurned (request ∷ requests) k now net e h = elim (call-HasTurned k now request net h) [
    | inl (t, _, _, _, h') ↦ session-HasTurned requests (suc k) _ _ (ground (arith, e, t)) h'
    | inr (t, h') ↦ session-HasTurned requests k _ _ (ground (arith, e, t)) h'
  ]

  -- On every server that the configuration file describes, after any sequence of requests, a request
  -- whose first matching pattern is a forward is passed on to this address: in the list of the pattern's
  -- addresses, each as often as its weight, the one at k modulo 2^64 modulo the sum of the weights,
  -- where k is the number of requests so far for the same pattern. Requests for other patterns make no
  -- difference, and the answer is the proxy's.
  pub configured_turn :
      (es : List (Entry Addr)) (after : List (Pattern Addr)) (old : List (Request web Incoming))
      (request : Request web Incoming) (net : up.Net)
      → visit_map es ≡ ok s.config
      → s.config.patterns ≡ before ++ p ∷ after
      → p.action ≡ forward f
      → hits s before p f request ≡ true
      → (to : Addr) × (turn (hit_count s before p f old) f.backends ≡ some to)
        × ((
          (call web version show up fs (session s old net).0 request (session s old net).1).0,
          (call web version show up fs (session s old net).0 request (session s old net).1).2,
        )
            ≡ Proxy.forward web version show up
                (Forwarded.new web show request s.client_addr s.server_addr s.config.name)
                to
                (session s old net).1)
  configured_turn es after old request net c e a t =
      let start = configured-HasTurned s before p f es after c e a in
      elim (call-HasTurned (hit_count s before p f old) (session s old net).0 request
        (session s old net).1 (session-HasTurned old 0 s net (omega arith) start)) [
          | inl (_, to, turned, sends, _) ↦ (to, turned, sends)
          | inr (missed, _) ↦ cc
        ]
