-- ===== src/Service/Session.antt =====
-- src/service/mod.rs: the requests of a server, one after the other, from its configuration on.
use rxh.Prelude.{
  ◌≡◌, refl, sym, ap, subst, ◌∙◌, List, [], ◌∷◌, ◌++◌, map, map-replace, inl, inr, All-insert,
  All-middle,
}
use rxh.Prelude.Texts.{Text}
use rxh.Config.{Pattern, forward}
use rxh.Http.{Web, Request}
use rxh.Service.{Upstream, FileSystem}
use rxh.Service.Dispatch.{Rxh, call}
use rxh.Service.Routing.{AllServe, Serves, call_first}

module _ {web : Web} {version : Text} {Addr Incoming : Type 0} {show : Addr → Text}
    {up : Upstream web Addr Incoming} {fs : FileSystem} where
  -- The service behind a list of requests.
  unfoldable pub session :
      Rxh web version show up fs
      → List (Request web Incoming)
      → up.Net
      → Rxh web version show up fs × up.Net
  session s [] net = (s, net)
  session s (request ∷ requests) net =
      let (answer, s, net) = call web version show up fs s request net in session s requests net

  -- The uris of the patterns, which routing goes by.
  abbrev pub uris : Rxh web version show up fs → List Text
  uris s = map (λ p. p.uri) s.config.patterns

  abbrev pub with_patterns :
      List (Pattern Addr) → Rxh web version show up fs → Rxh web version show up fs
  with_patterns patterns s = record s { config = record s.config { patterns = patterns } }

  -- Nothing but the patterns differs from `s`.
  abbrev pub Elsewhere : Rxh web version show up fs → Rxh web version show up fs → Type 0
  Elsewhere s now = now ≡ with_patterns now.config.patterns s

  -- Every scheduler serves, and the uris and all but the patterns are those of `s`.
  abbrev pub Keeps : Rxh web version show up fs → Rxh web version show up fs → Type 0
  Keeps s now = AllServe now.config.patterns × (uris now ≡ uris s) × Elsewhere s now

  pub call-Keeps :
      (s now : Rxh web version show up fs) (request : Request web Incoming) (net : up.Net)
      → Keeps s now
      → Keeps s (call web version show up fs now request net).1
  call-Keeps s now request net (h, e, o) = elim (call_first now request net h) [
    | inl (_, f) ↦ subst (λ out. Keeps s out.1) (sym f) (h, e, o)
    | inr (before, p, after, l, _, _, inl (_, _, f)) ↦
        subst (λ out. Keeps s out.1) (sym f) (h, e, o)
    | inr (before, p, after, l, _, _, inr (f, _, scheduler, _, _, r, _, g)) ↦
        let (_, others) = All-middle (λ p. Serves p.action) before p after (subst AllServe l h) in
        let next : Pattern Addr = record p {
          action = forward (record f { scheduler = scheduler });
        } in
        subst (Keeps s) (sym g) (
          All-insert (λ p. Serves p.action) before _ after r others,
          map-replace (λ p. p.uri) before _ p after refl ∙ ap (map (λ p. p.uri)) (sym l) ∙ e,
          ap (with_patterns (before ++ next ∷ after)) o,
        )
  ]

  pub session-Keeps :
      (s : Rxh web version show up fs) (requests : List (Request web Incoming))
      (now : Rxh web version show up fs) (net : up.Net)
      → Keeps s now
      → Keeps s (session now requests net).0
  unfolding session
  session-Keeps s [] now net h = h
  session-Keeps s (request ∷ requests) now net h =
      session-Keeps s requests _ _ (call-Keeps s now request net h)
