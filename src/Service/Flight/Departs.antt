-- ===== src/Service/Flight/Departs.antt =====
-- src/service/mod.rs with src/sched/wrr.rs: where the future of a request goes, among the requests for
-- all patterns of a server.
use rxh.Prelude.{
  ℕ, suc, Bool, ◌≡◌, refl, sym, ap, subst, ◌∙◌, true, false, ◌⊎◌, inl, inr, some, List, [], ◌∷◌,
  ◌++◌, map, Option-cases, if◌then◌else◌, All, All-middle,
}
use rxh.Prelude.Texts.{Text, starts_with}
use rxh.Sched.{Scheduler, next_server}
use rxh.Sched.Ready.{make_wrr}
use rxh.Sched.Turns.{HasGiven, turn, make-HasGiven, next_server-HasGiven}
use rxh.Config.{Pattern, Action, forward, serve, Forward}
use rxh.Config.Deser.{ok}
use rxh.Config.Deser.Visit.{Entry, visit_map}
use rxh.Http.{Web, Request}
use rxh.Http.Forwarded
use rxh.Service.{Upstream, FileSystem}
use rxh.Service.Dispatch.{Rxh, advanced}
use rxh.Service.Flight.{connecting, passed, begin, acted}
use rxh.Service.Found.{first, find-Found}
use rxh.Service.Session.{with_patterns}
use rxh.Config.Deser.Checks.{visit_map-Origin}
use rxh.Config.Clone.{IsNew, Origin-IsNew}

module _ {web : Web} {version : Text} {Addr Incoming : Type 0} {show : Addr → Text}
    {up : Upstream web Addr Incoming} {fs : FileSystem} (s : Rxh web version show up fs)
    (before : List (Pattern Addr)) (p : Pattern Addr) (f : Forward Addr) where
  -- Whether the pattern's uri is the first one, in the order of the file, that starts the request's.
  abbrev pub hits : Request web Incoming → Bool
  hits request = first (starts_with (web.uri_text request.uri)) (map (λ q. q.uri) before) p.uri

  -- How many requests that is true for.
  abbrev pub hit_count : List (Request web Incoming) → ℕ
  hit_count [] = 0
  hit_count (request ∷ requests) =
      let rest = hit_count requests in if hits request then suc rest else rest

  abbrev pub at :
      List (Pattern Addr) → List (Pattern Addr) → Scheduler Addr → Rxh web version show up fs
  at front back scheduler = advanced web version show up fs s front p back f scheduler

  -- The server, whose pattern has had `k` turns.
  pub record HasTurned (k : ℕ) (now : Rxh web version show up fs) : Type 0 where
    pub front : List (Pattern Addr)
    pub back : List (Pattern Addr)
    pub scheduler : Scheduler Addr
    pub given : HasGiven k f.backends scheduler
    pub stands : now ≡ at front back scheduler
    pub same : map (λ q. q.uri) front ≡ map (λ q. q.uri) before

  acted-HasTurned :
      (k : ℕ) (now : Rxh web version show up fs) (request : Request web Incoming)
      (b : List (Pattern Addr)) (y : Pattern Addr) (a : List (Pattern Addr)) (action : Action Addr)
      → ((z : Pattern Addr) → z.uri ≡ y.uri → HasTurned k (with_patterns (b ++ z ∷ a) now))
      → HasTurned k now
      → HasTurned k (acted web version show up fs now request b y a action).1
  acted-HasTurned k now request b y a (serve directory) others h = h
  acted-HasTurned k now request b y a (forward g) others h =
      elim (Option-cases (next_server g.scheduler)) [
        | inl n ↦ rw n h
        | inr ((to, scheduler), n) ↦ rw n (others _ refl)
      ]

  -- Where a request goes, after `k` turns of the pattern.
  abbrev pub Departs : ℕ → Rxh web version show up fs → Request web Incoming → Type 0
  Departs k now request =
      ((hits request ≡ true)
        × (to : Addr) × (turn k f.backends ≡ some to)
        × ((begin web version show up fs now request).0
            ≡ passed to (
                connecting
                  (Forwarded.new web show request s.client_addr s.server_addr s.config.name)))
        × HasTurned (suc k) (begin web version show up fs now request).1)
      ⊎ ((hits request ≡ false) × HasTurned k (begin web version show up fs now request).1)

  begin-at :
      (k : ℕ) (request : Request web Incoming) (front back : List (Pattern Addr))
      (scheduler : Scheduler Addr)
      → HasGiven k f.backends scheduler
      → map (λ q. q.uri) front ≡ map (λ q. q.uri) before
      → Departs k (at front back scheduler) request
  unfolding begin
  begin-at k request front back scheduler given same =
      let text = web.uri_text request.uri in
      let me = record p { action = forward (record f { scheduler = scheduler }) } in
      let here : HasTurned k (at front back scheduler) = record {
        front = front;
        back = back;
        scheduler = scheduler;
        given = given;
        stands = refl;
        same = same;
      } in
      elim (find-Found (λ (q : Pattern Addr). q.uri) (starts_with text) front me back) [
        | inl (t, e) ↦
            let (to, next, n, turned, later) = next_server-HasGiven k f.backends scheduler given in
            inl (
              subst (λ us. first (starts_with text) us p.uri ≡ true) same t,
              to,
              turned,
              rw (e, n) refl,
              rw (e, n)
                  (record {
                    front = front;
                    back = back;
                    scheduler = next;
                    given = later;
                    stands = refl;
                    same = same;
                  }),
            )
        | inr (t, inl n) ↦
            inr (subst (λ us. first (starts_with text) us p.uri ≡ false) same t, rw n here)
        | inr (t, inr (b, y, a, e, around)) ↦ inr (
          subst (λ us. first (starts_with text) us p.uri ≡ false) same t,
          rw e (
              acted-HasTurned k (at front back scheduler) request b y a y.action
                (λ z h.
                  let (front', back', l, same') = around z h in
                  record {
                    front = front';
                    back = back';
                    scheduler = scheduler;
                    given = given;
                    stands = ap (λ ps. with_patterns ps s) l;
                    same = same' ∙ same;
                  })
                here),
        )
      ]

  pub begin-HasTurned :
      (k : ℕ) (now : Rxh web version show up fs) (request : Request web Incoming)
      → HasTurned k now
      → Departs k now request
  begin-HasTurned k now request h =
      subst (λ t. Departs k t request) (sym h.stands)
        (begin-at k request h.front h.back h.scheduler h.given h.same)

  -- The server as it is configured has had no turn.
  pub configured-HasTurned :
      (es : List (Entry Addr)) (after : List (Pattern Addr))
      → visit_map es ≡ ok s.config
      → s.config.patterns ≡ before ++ p ∷ after
      → p.action ≡ forward f
      → HasTurned 0 s
  configured-HasTurned es after c e a =
      let (_, _, _, origin) = visit_map-Origin es c in
      let (new, _) =
        All-middle (λ q. IsNew q.action) before p after
          (subst (All (λ q. IsNew q.action)) e (Origin-IsNew origin)) in
      record {
        front = before;
        back = after;
        scheduler = f.scheduler;
        given = make-HasGiven f.backends (make_wrr f.algorithm f.backends (subst IsNew a new));
        stands =
            ap (λ ps. with_patterns ps s)
              (e ∙ ap (λ b. before ++ record p { action = b } ∷ after) a);
        same = refl;
      }
