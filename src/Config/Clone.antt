-- ===== src/Config/Clone.antt =====
-- config/mod.rs and config/deser.rs: schedulers of configured and of cloned servers.
use rxh.Prelude.{◌<◌, ◌≡◌, refl, subst, ◌⊎◌, inl, inr, none, some, List, [], ◌∷◌, All}
use rxh.Sched.{Backend, Algorithm, wrr, Scheduler, make}
use rxh.Sched.Expand.{total_weight, make_cases, IsFresh, make-IsFresh}
use rxh.Config.{
  Forward, Action, forward, serve, Pattern, Server, clone_forward, clone_action, clone_patterns,
  clone_server,
}
use rxh.Config.Deser.{
  Outcome, ok, panic, ◌>>=◌, ForwardOption, ActionOption, PatternOption, to_backends, to_forward,
  to_action, to_pattern, to_patterns, uri_or_default,
}
use rxh.Config.Deser.Visit.{Entry, visit_map}
use rxh.Config.Deser.Loop.{ok_of_bind, action_of, patterns_of}
use rxh.Config.Deser.Checks.{Origin, single, several, visit_map-Origin}

module _ {Addr : Type 0} where
  -- The scheduler is the one that the factory makes of the backends.
  abbrev pub IsNew : Action Addr → Type 0
  IsNew (forward f) = make f.algorithm f.backends ≡ some f.scheduler
  IsNew (serve directory) = Unit

  make_any :
      (algorithm : Algorithm) (backends : List (Backend Addr))
      → ((total_weight backends ≡ 0) × (make algorithm backends ≡ none))
        ⊎ ((s : Scheduler Addr) × (make algorithm backends ≡ some s) × (0 < total_weight backends))
  make_any wrr backends = elim (make_cases backends) [
    | inl x ↦ inl x
    | inr (s, e, _, heavy) ↦ inr (s, e, heavy)
  ]

  -- Reading a forward panics exactly when the weights of its backends add up to 0; otherwise it
  -- succeeds with the backends and the algorithm of the option and the scheduler that the factory
  -- makes of them.
  pub to_forward_cases :
      (o : ForwardOption Addr)
      → ((total_weight (to_backends o).0 ≡ 0) × (to_forward o ≡ panic))
        ⊎ ((f : Forward Addr) × (to_forward o ≡ ok f)
            × (f.backends ≡ (to_backends o).0)
            × (f.algorithm ≡ (to_backends o).1)
            × IsNew (forward f)
            × (0 < total_weight f.backends))
  unfolding to_forward
  to_forward_cases o = elim (make_any (to_backends o).1 (to_backends o).0) [
    | inl (light, e) ↦ inl (light, rw e refl)
    | inr (s, e, heavy) ↦ inr (
      record { backends = (to_backends o).0; algorithm = (to_backends o).1; scheduler = s },
      rw e refl,
      refl,
      refl,
      e,
      heavy,
    )
  ]

  to_forward-IsNew :
      (o : ForwardOption Addr) {f : Forward Addr} → to_forward o ≡ ok f → IsNew (forward f)
  to_forward-IsNew o {f} h = elim (to_forward_cases o) [
    | inl (_, e) ↦ cc
    | inr (f', e, _, _, made, _) ↦
        let same : f' ≡ f = cc in subst (λ g. IsNew (forward g)) same made
  ]

  to_action-IsNew : (o : ActionOption Addr) {a : Action Addr} → to_action o ≡ ok a → IsNew a
  unfolding to_action
  to_action-IsNew (ActionOption.forward o) {a} h =
      let (f, made, e) = ok_of_bind (to_forward o) (λ f. ok (forward f)) h in
      let same : forward f ≡ a = cc in subst IsNew same (to_forward-IsNew o made)
  to_action-IsNew (ActionOption.serve directory) {a} h =
      let same : serve directory ≡ a = cc in subst IsNew same tt

  to_patterns-IsNew :
      (values : List (Outcome (PatternOption Addr))) {ps : List (Pattern Addr)}
      → to_patterns values ≡ ok ps
      → All (λ p. IsNew p.action) ps
  unfolding to_patterns to_pattern
  to_patterns-IsNew [] {ps} h = let same : [] ≡ ps = cc in subst (All (λ p. IsNew p.action)) same tt
  to_patterns-IsNew (value ∷ values) {ps} h =
      let (o, _, h1) =
        ok_of_bind value (λ o. to_pattern o >>= λ p. to_patterns values >>= λ rest. ok (p ∷ rest))
          h in
      let (p, e, h2) =
        ok_of_bind (to_pattern o) (λ p. to_patterns values >>= λ rest. ok (p ∷ rest)) h1 in
      let (rest, more, h3) = ok_of_bind (to_patterns values) (λ rest. ok (p ∷ rest)) h2 in
      let (a, acts, e') =
        ok_of_bind (to_action o.action)
          (λ a. ok (record { uri = uri_or_default o.uri; action = a })) e in
      let same_a : a ≡ p.action = cc in
      let same : p ∷ rest ≡ ps = cc in
      subst (All (λ q. IsNew q.action)) same
        (subst IsNew same_a (to_action-IsNew o.action acts), to_patterns-IsNew values more)

  action_of-IsNew : (e : Entry Addr) {a : Action Addr} → action_of e ≡ ok a → IsNew a
  action_of-IsNew (Entry.forward value) {a} h =
      let (o, _, h1) = ok_of_bind value (λ o. to_forward o >>= λ f. ok (forward f)) h in
      let (f, made, e) = ok_of_bind (to_forward o) (λ f. ok (forward f)) h1 in
      let same : forward f ≡ a = cc in subst IsNew same (to_forward-IsNew o made)
  action_of-IsNew (Entry.serve value) {a} h =
      let (directory, _, e) = ok_of_bind value (λ directory. ok (serve directory)) h in
      let same : serve directory ≡ a = cc in subst IsNew same tt
  action_of-IsNew e h = cc

  patterns_of-IsNew :
      (e : Entry Addr) {ps : List (Pattern Addr)}
      → patterns_of e ≡ ok ps
      → All (λ p. IsNew p.action) ps
  patterns_of-IsNew (Entry.matches value) h =
      let (values, _, e) = ok_of_bind value to_patterns h in to_patterns-IsNew values e
  patterns_of-IsNew (Entry.listen value) h = cc
  patterns_of-IsNew e h = cc

  pub Origin-IsNew :
      {es : List (Entry Addr)} {ps : List (Pattern Addr)}
      → Origin es ps
      → All (λ p. IsNew p.action) ps
  Origin-IsNew (single e a m acts _ _ whole) = rw whole (action_of-IsNew e acts, tt)
  Origin-IsNew (several e m acts _) = patterns_of-IsNew e acts

  clone_action-IsNew : (a : Action Addr) → IsNew a → clone_action a ≡ some a
  unfolding clone_action clone_forward
  clone_action-IsNew (forward f) h = rw h refl
  clone_action-IsNew (serve directory) h = refl

  clone_patterns-IsNew :
      (ps : List (Pattern Addr)) → All (λ p. IsNew p.action) ps → clone_patterns ps ≡ some ps
  unfolding clone_patterns
  clone_patterns-IsNew [] h = refl
  clone_patterns-IsNew (p ∷ ps) (h, hs) =
      rw (clone_action-IsNew p.action h, clone_patterns-IsNew ps hs) refl

  -- The scheduler is at the start of the cycle of the backends.
  abbrev pub StartsFresh : Action Addr → Type 0
  StartsFresh (forward f) = IsFresh f.backends f.scheduler
  StartsFresh (serve directory) = Unit

  IsNew-StartsFresh : (a : Action Addr) → IsNew a → StartsFresh a
  IsNew-StartsFresh (forward f) h = fresh f.algorithm h
    where
      fresh :
          (algorithm : Algorithm)
          → make algorithm f.backends ≡ some f.scheduler
          → IsFresh f.backends f.scheduler
      fresh wrr e = make-IsFresh f.backends e
  IsNew-StartsFresh (serve directory) h = tt

  patterns-StartsFresh :
      (ps : List (Pattern Addr)) → All (λ p. IsNew p.action) ps → All (λ p. StartsFresh p.action) ps
  patterns-StartsFresh [] h = tt
  patterns-StartsFresh (p ∷ ps) (h, hs) = (IsNew-StartsFresh p.action h, patterns-StartsFresh ps hs)

  -- Every server that visit_map accepts can be cloned without a panic, and the clone equals the server
  -- as configured. In it, the scheduler of each forward pattern is at the start of its cycle, the
  -- addresses of the backends each as often as its weight.
  pub visit_map-clone :
      (es : List (Entry Addr)) {s : Server Addr}
      → visit_map es ≡ ok s
      → (clone_server s ≡ some s) × All (λ p. StartsFresh p.action) s.patterns
  unfolding clone_server
  visit_map-clone es {s} h =
      let (_, _, _, origin) = visit_map-Origin es h in
      let new = Origin-IsNew origin in
      (rw (clone_patterns-IsNew s.patterns new) refl, patterns-StartsFresh s.patterns new)

  -- Cloning a `forward` does not copy the state of its scheduler.
  pub clone_forward_resets :
      (f : Forward Addr) (s : Scheduler Addr)
      → clone_forward (record f { scheduler = s }) ≡ clone_forward f
  unfolding clone_forward
  clone_forward_resets f s = refl
