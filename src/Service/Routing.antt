-- ===== src/Service/Routing.antt =====
-- src/service/mod.rs: how requests are dispatched, one after the other, on a configured server.
use rxh.Prelude.{
  ◌≡◌, refl, ap, subst, Bool, true, false, Option, none, some, List, [], ◌∷◌, ◌++◌, ◌⊎◌, inl, inr,
  All, All-middle, Bool-cases,
}
use rxh.Prelude.Texts.{Text, starts_with}
use rxh.Sched.{Scheduler, next_server}
use rxh.Sched.Ready.{IsReady, make_wrr, make-IsReady, next_server-IsReady}
use rxh.Config
use rxh.Config.{Pattern, Action, forward, serve, Forward}
use rxh.Config.Deser.{ok}
use rxh.Config.Deser.Visit.{Entry, visit_map}
use rxh.Config.Deser.Checks.{visit_map-Origin}
use rxh.Config.Clone.{IsNew, Origin-IsNew}
use rxh.Http.{Web, Request}
use rxh.Http.Forwarded
use rxh.Http.Answers.{not_found}
use rxh.Service.{Upstream, FileSystem, Answer, of_option}
use rxh.Service.Proxy
use rxh.Service.Files.{transfer}
use rxh.Service.Dispatch.{find, relative, Rxh, call, dispatched, act}

-- `find` gives the first element that passes, or there is none.
abbrev pub First : {A : Type 0} → (A → Bool) → List A → Option (List A × A × List A) → Type 0
First f xs none = All (λ x. f x ≡ false) xs
First f xs (some (before, x, after)) =
    (xs ≡ before ++ x ∷ after) × All (λ x. f x ≡ false) before × (f x ≡ true)

First-later :
    {A : Type 0} (f : A → Bool) (x : A) (xs : List A) (o : Option (List A × A × List A))
    → f x ≡ false
    → First f xs o
    → First f
        (x ∷ xs)
        (elim o [ none ↦ none | some (before, y, after) ↦ some (x ∷ before, y, after) ])
First-later f x xs none e h = (e, h)
First-later f x xs (some (before, y, after)) e (h, k, t) = (ap (λ l. x ∷ l) h, (e, k), t)

find-First : {A : Type 0} (f : A → Bool) (xs : List A) → First f xs (find f xs)
unfolding find
find-First f [] = tt
find-First f (x ∷ xs) = elim (Bool-cases (f x)) [
  | inl e ↦ rw e (refl, tt, e)
  | inr e ↦ rw e (First-later f x xs (find f xs) e (find-First f xs))
]

module _ {Addr : Type 0} where
  -- The scheduler of the action serves.
  abbrev pub Serves : Action Addr → Type 0
  Serves (forward f) = IsReady f.scheduler
  Serves (serve directory) = Unit

  IsNew-Serves : (a : Action Addr) → IsNew a → Serves a
  IsNew-Serves (forward f) e = make-IsReady f.backends (make_wrr f.algorithm f.backends e)
  IsNew-Serves (serve directory) e = tt

  abbrev pub AllServe : List (Pattern Addr) → Type 0
  AllServe patterns = All (λ p. Serves p.action) patterns

  All-IsNew :
      (patterns : List (Pattern Addr)) → All (λ p. IsNew p.action) patterns → AllServe patterns
  All-IsNew [] h = tt
  All-IsNew (p ∷ patterns) (h, hs) = (IsNew-Serves p.action h, All-IsNew patterns hs)

  -- Every scheduler of a server as it is configured serves.
  pub configured-AllServe :
      (es : List (Entry Addr)) {c : Config.Server Addr} → visit_map es ≡ ok c → AllServe c.patterns
  configured-AllServe es {c} e =
      let (_, _, _, origin) = visit_map-Origin es e in All-IsNew c.patterns (Origin-IsNew origin)

module _ {web : Web} {version : Text} {Addr Incoming : Type 0} {show : Addr → Text}
    {up : Upstream web Addr Incoming} {fs : FileSystem} (s : Rxh web version show up fs)
    (request : Request web Incoming) (net : up.Net) where
  -- The pattern's uri does not start the request's, or does.
  abbrev pub matches : Pattern Addr → Bool
  matches p = starts_with (web.uri_text request.uri) p.uri

  abbrev Out : Type 0
  Out = Answer web Incoming up.Failure × Rxh web version show up fs × up.Net

  -- What a pattern that matches does: it serves a file and changes nothing, or it forwards to the next
  -- address of its scheduler, which is all that changes in the configuration.
  abbrev pub Handled : List (Pattern Addr) → Pattern Addr → List (Pattern Addr) → Out → Type 0
  Handled before p after out =
      ((directory : Text) × (p.action ≡ serve directory)
        × (out ≡ (transfer web version fs (relative (web.uri_path request.uri)) directory, s, net)))
      ⊎ ((f : Forward Addr) × (to : Addr) × (scheduler : Scheduler Addr) × (p.action ≡ forward f)
          × (next_server f.scheduler ≡ some (to, scheduler))
          × IsReady scheduler
          × ((out.0, out.2)
              ≡ Proxy.forward web version show up
                  (record {
                    request = request;
                    client_addr = s.client_addr;
                    server_addr = s.server_addr;
                    proxy_id = s.config.name;
                  })
                  to net)
          × (out.1 ≡ record s {
            config = record s.config {
              patterns =
                  before
                  ++ record p { action = forward (record f { scheduler = scheduler }) } ∷ after;
            };
          }))

  abbrev pub Routed : Out → Type 0
  Routed out =
      (All (λ p. matches p ≡ false) s.config.patterns
        × (out ≡ (of_option (not_found web version), s, net)))
      ⊎ ((before : List (Pattern Addr)) × (p : Pattern Addr) × (after : List (Pattern Addr))
          × (s.config.patterns ≡ before ++ p ∷ after)
          × All (λ q. matches q ≡ false) before
          × (matches p ≡ true)
          × Handled before p after out)

  act-Handled :
      (before : List (Pattern Addr)) (p : Pattern Addr) (after : List (Pattern Addr))
      (a : Action Addr)
      → p.action ≡ a
      → Serves a
      → Handled before p after (act web version show up fs s request net before p after a)
  unfolding Forwarded.new
  act-Handled before p after (serve directory) e h = inl (directory, e, refl)
  act-Handled before p after (forward f) e h =
      let (to, scheduler, n, r) = next_server-IsReady f.scheduler h in
      inr (f, to, scheduler, e, n, r, rw n refl, rw n refl)

  dispatched-Routed :
      (o : Option (List (Pattern Addr) × Pattern Addr × List (Pattern Addr)))
      → First matches s.config.patterns o
      → AllServe s.config.patterns
      → Routed (dispatched web version show up fs s request net o)
  dispatched-Routed none h k = inl (h, refl)
  dispatched-Routed (some (before, p, after)) (e, h, t) k =
      let (serves, _) = All-middle (λ p. Serves p.action) before p after (subst AllServe e k) in
      inr (before, p, after, e, h, t, act-Handled before p after p.action refl serves)

  -- On a server whose schedulers serve, a request is handled by the first pattern whose uri is a prefix
  -- of the request's uri, and is answered 404, with nothing changed, if there is none. A serve pattern
  -- transfers the file at the path without its first slash and changes nothing; a forward pattern
  -- passes the request on to the next address of its scheduler, and the step of this scheduler is all
  -- that changes in the configuration.
  pub call_first : AllServe s.config.patterns → Routed (call web version show up fs s request net)
  unfolding call
  call_first h = dispatched-Routed (find matches s.config.patterns) (find-First matches _) h
