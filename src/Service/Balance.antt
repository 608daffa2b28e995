-- ===== src/Service/Balance.antt =====
-- src/service/mod.rs with src/sched/wrr.rs: how the requests of one pattern are spread over its servers.
use rxh.Prelude.{
  ℕ, suc, ◌≡◌, refl, ap, ◌∙◌, true, some, List, [], ◌∷◌, ◌++◌, map, length, All, arith, sym, inl,
  inr,
}
use rxh.Prelude.Texts.{Text}
use rxh.Sched.Turns.{turns, KeepsRound, turns_fair}
use rxh.Sched.Expand.{total_weight}
use rxh.Sched.Fairness.{count, weight_of}
use rxh.Config.{Pattern, forward, Forward}
use rxh.Config.Deser.{ok}
use rxh.Config.Deser.Visit.{Entry, visit_map}
use rxh.Http.{Web, Request}
use rxh.Http.Forwarded
use rxh.Service.{Upstream, FileSystem}
use rxh.Service.Proxy
use rxh.Service.Dispatch.{Rxh}
use rxh.Service.Session.{session}
use rxh.Service.Flight.Departs.{hits, hit_count, HasTurned, configured-HasTurned}
use rxh.Service.Turns.{call-HasTurned, session-HasTurned}

module _ {web : Web} {version : Text} {Addr Incoming : Type 0} {show : Addr → Text}
    {up : Upstream web Addr Incoming} {fs : FileSystem} (s : Rxh web version show up fs) where
  -- The requests, each passed on to the address beside it, one after the other.
  unfoldable pub passed : List (Request web Incoming × Addr) → up.Net → up.Net
  passed [] net = net
  passed ((request, to) ∷ rest) net =
      let proxied = Forwarded.new web show request s.client_addr s.server_addr s.config.name in
      passed rest (Proxy.forward web version show up proxied to net).1

  module _ (before : List (Pattern Addr)) (p : Pattern Addr) (f : Forward Addr) where
    session-turns :
        (new : List (Request web Incoming)) (k : ℕ) (now : Rxh web version show up fs)
        (net : up.Net)
        → HasTurned s before p f k now
        → All (λ request. hits s before p f request ≡ true) new
        → (sent : List (Request web Incoming × Addr)) × (map (λ x. x.0) sent ≡ new)
          × (turns (length new) k f.backends ≡ map some (map (λ x. x.1) sent))
          × ((session now new net).1 ≡ passed sent net)
    unfolding session passed
    session-turns [] k now net h hs = ([], refl, refl, refl)
    session-turns (request ∷ new) k now net h (t, hs) =
        elim (call-HasTurned s before p f k now request net h) [
          | inl (_, to, turned, sends, h') ↦
              let (sent, es, ts, e) = session-turns new (suc k) _ _ h' hs in
              (
                (request, to) ∷ sent,
                rw es refl,
                rw (turned, ts) refl,
                e ∙ ap (λ x. passed sent x.1) sends,
              )
          | inr (missed, _) ↦ cc
        ]

    -- On every server that the configuration file describes, with a forward pattern, after any sequence
    -- of requests: let n be the sum of the pattern's weights, and let the requests so far that went to
    -- the pattern leave the counter of 2^64 room for n more, or n divide 2^64. Then the next n requests,
    -- if this pattern's uri is the first that starts theirs, are passed on one by one, so that each
    -- address is sent exactly as many of them as the weights of its backends add up to.
    pub configured_balance :
        (dec : Discrete Addr) (es : List (Entry Addr)) (after : List (Pattern Addr))
        (old new : List (Request web Incoming)) (net : up.Net)
        → visit_map es ≡ ok s.config
        → s.config.patterns ≡ before ++ p ∷ after
        → p.action ≡ forward f
        → All (λ request. hits s before p f request ≡ true) new
        → length new ≡ total_weight f.backends
        → KeepsRound (hit_count s before p f old) f.backends
        → (sent : List (Request web Incoming × Addr)) × (map (λ x. x.0) sent ≡ new)
          × ((session (session s old net).0 new (session s old net).1).1
              ≡ passed sent (session s old net).1)
          × ((a : Addr) → count dec a (map (λ x. x.1) sent) ≡ weight_of dec a f.backends)
    configured_balance dec es after old new net c e a hs whole pace =
        let start = configured-HasTurned s before p f es after c e a in
        let h = session-HasTurned s before p f old 0 s net (omega arith) start in
        let (sent, es', ts, e') = session-turns new _ _ (session s old net).1 h hs in
        (
          sent,
          es',
          e',
          turns_fair dec (hit_count s before p f old) f.backends h.scheduler (map (λ x. x.1) sent)
              h.given pace
              (sym (ap (λ n. turns n (hit_count s before p f old) f.backends) whole) ∙ ts),
        )
