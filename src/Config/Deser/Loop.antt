-- ===== src/Config/Deser/Loop.antt =====
-- config/deser.rs: what the loop of `visit_map` does to its variables.
use rxh.Prelude.{
  ℕ, ◌+◌, ◌≡◌, refl, ◌⊎◌, inl, inr, Option, none, some, List, [], ◌∷◌, arith, ◌∙◌, sym, ap, All,
}
use mathlib.Core.List.{Memᴰ}
use rxh.Prelude.Texts.{Text}
use rxh.Config.{Action, Pattern, default_uri}
use rxh.Config.Deser.{Outcome, ok, err, panic, ◌>>=◌, to_patterns, to_forward, DeError}
use rxh.Config.Deser.Visit.{
  Entry, listen, matches, forward, serve, uri, name, connections, unknown, Draft, visit,
  visit_entries, visit_action, second_forward, second_serve,
}

-- Inversion of a successful bind.
pub ok_of_bind {ℓ κ} :
    {A : Type ℓ} {B : Type κ} {b : B} (first : Outcome A) (k : A → Outcome B)
    → (first >>= k) ≡ ok b
    → (a : A) × (first ≡ ok a) × (k a ≡ ok b)
ok_of_bind panic k went = cc
ok_of_bind (err e) k went = cc
ok_of_bind (ok a) k went = (a, refl, went)

module _ {Addr : Type 0} where
  -- How many entries are a `forward` or a `serve`.
  abbrev is_action : Entry Addr → ℕ
  is_action (forward _) = 1
  is_action (serve _) = 1
  is_action _ = 0

  abbrev pub count_actions : List (Entry Addr) → ℕ
  count_actions [] = 0
  count_actions (e ∷ entries) = is_action e + count_actions entries

  -- The last `uri` of the table, or `t`.
  abbrev next_uri : Text → Entry Addr → Text
  next_uri t (uri (ok u)) = u
  next_uri t _ = t

  abbrev pub last_uri : Text → List (Entry Addr) → Text
  last_uri t [] = t
  last_uri t (e ∷ entries) = last_uri (next_uri t e) entries

  abbrev pub given : Option (Pattern Addr) → ℕ
  given none = 0
  given (some _) = 1

  -- The action that an entry describes, and the patterns.
  abbrev pub action_of : Entry Addr → Outcome (Action Addr)
  action_of (forward value) = do option ← value; f ← to_forward option; ok (Action.forward f)
  action_of (serve value) = do directory ← value; ok (Action.serve directory)
  action_of _ = panic

  abbrev pub patterns_of : Entry Addr → Outcome (List (Pattern Addr))
  patterns_of (matches value) = do values ← value; to_patterns values
  patterns_of _ = panic

  -- An entry that is no `match`, or an empty one.
  abbrev pub IsBarren : Entry Addr → Type 0
  IsBarren (matches value) = patterns_of (matches value) ≡ ok []
  IsBarren _ = Unit

  abbrev pub IsExclusive : Draft Addr → Type 0
  IsExclusive d = (d.patterns ≡ []) ⊎ (d.simple_pattern ≡ none)

  abbrev pub Taken : Entry Addr → Draft Addr → Type 0
  Taken e d = (p : Pattern Addr) × (d.simple_pattern ≡ some p) × (action_of e ≡ ok p.action)

  -- What one round does to the variables of the loop.
  record Visited (d : Draft Addr) (e : Entry Addr) (d' : Draft Addr) : Type 0 where
    actions : given d.simple_pattern + is_action e ≡ given d'.simple_pattern
    prefix : d'.prefix ≡ next_uri d.prefix e
    exclusive : IsExclusive d → IsExclusive d'
    barren : d'.patterns ≡ [] → IsBarren e × (d.patterns ≡ [])
    patterns : (d'.patterns ≡ d.patterns) ⊎ (patterns_of e ≡ ok d'.patterns)
    simple : (d'.simple_pattern ≡ d.simple_pattern) ⊎ Taken e d'

  -- A `forward` or `serve` that is accepted: the first action, with no patterns before it.
  visit_action_ok :
      (d : Draft Addr) (ps : List (Pattern Addr)) (sp : Option (Pattern Addr))
      (second : Action Addr → DeError) (m : Outcome (Action Addr)) {d' : Draft Addr}
      → visit_action d ps sp second m ≡ ok d'
      → (a : Action Addr) × (m ≡ ok a)
        × (ps ≡ [])
        × (sp ≡ none)
        × (d' ≡ record d { simple_pattern = some (record { uri = default_uri; action = a }) })
  visit_action_ok d [] none second (ok a) h = (a, refl, refl, refl, cc)
  visit_action_ok d [] none second (err e) h = cc
  visit_action_ok d [] none second panic h = cc
  visit_action_ok d [] (some p) second m h = cc
  visit_action_ok d (p ∷ ps) sp second m h = cc

  Visited-action :
      (d : Draft Addr) (e : Entry Addr) {d' : Draft Addr}
      → is_action e ≡ 1
      → next_uri d.prefix e ≡ d.prefix
      → IsBarren e
      → (a : Action Addr) × (action_of e ≡ ok a)
        × (d.patterns ≡ [])
        × (d.simple_pattern ≡ none)
        × (d' ≡ record d { simple_pattern = some (record { uri = default_uri; action = a }) })
      → Visited d e d'
  Visited-action d e one same bare (a, acts, empty, unset, changed) = rw changed (record {
    actions = rw (unset, one) refl;
    prefix = sym same;
    exclusive = λ _. inl empty;
    barren = λ _. (bare, empty);
    patterns = inl refl;
    simple = inr (record { uri = default_uri; action = a }, refl, acts);
  })

  visit-Visited :
      (d : Draft Addr) (e : Entry Addr) {d' : Draft Addr} → visit d e ≡ ok d' → Visited d e d'
  unfolding visit
  visit-Visited d (listen value) h = ground arith
  visit-Visited d (matches value) h = ground arith
  visit-Visited d (forward value) h =
      Visited-action d (forward value) refl refl tt
        (visit_action_ok d d.patterns d.simple_pattern second_forward (action_of (forward value)) h)
  visit-Visited d (serve value) h =
      Visited-action d (serve value) refl refl tt
        (visit_action_ok d d.patterns d.simple_pattern second_serve (action_of (serve value)) h)
  visit-Visited d (uri value) h = ground arith
  visit-Visited d (name value) h = ground arith
  visit-Visited d (connections value) h = ground arith
  visit-Visited d (unknown e) h = ground arith

  -- The same for the whole loop.
  pub record Built (d : Draft Addr) (es : List (Entry Addr)) (d' : Draft Addr) : Type 0 where
    pub actions : given d.simple_pattern + count_actions es ≡ given d'.simple_pattern
    pub prefix : d'.prefix ≡ last_uri d.prefix es
    pub exclusive : IsExclusive d → IsExclusive d'
    pub barren : d'.patterns ≡ [] → All IsBarren es × (d.patterns ≡ [])
    pub patterns :
        (d'.patterns ≡ d.patterns)
        ⊎ ((e : Entry Addr) × Memᴰ e es × (patterns_of e ≡ ok d'.patterns))
    pub simple :
        (d'.simple_pattern ≡ d.simple_pattern) ⊎ ((e : Entry Addr) × Memᴰ e es × Taken e d')

  Built-cons :
      {d d' d'' : Draft Addr} {e : Entry Addr} {es : List (Entry Addr)}
      → Visited d e d'
      → Built d' es d''
      → Built d (e ∷ es) d''
  Built-cons {d} {d'} {d''} {e} {es} v b = record {
    actions = omega (arith, v.actions, b.actions);
    prefix = b.prefix ∙ ap (λ t. last_uri t es) v.prefix;
    exclusive = λ x. b.exclusive (v.exclusive x);
    barren = λ x.
        let (later, before) = b.barren x in
        let (here, first) = v.barren before in ((here, later), first);
    patterns = later_patterns v.patterns b.patterns;
    simple = later_simple v.simple b.simple;
  }
    where
      later_patterns :
          ((d'.patterns ≡ d.patterns) ⊎ (patterns_of e ≡ ok d'.patterns))
          → ((d''.patterns ≡ d'.patterns)
              ⊎ ((f : Entry Addr) × Memᴰ f es × (patterns_of f ≡ ok d''.patterns)))
          → (d''.patterns ≡ d.patterns)
            ⊎ ((f : Entry Addr) × Memᴰ f (e ∷ es) × (patterns_of f ≡ ok d''.patterns))
      later_patterns x (inr (f, m, p)) = inr (f, Memᴰ.tail m, p)
      later_patterns (inl x) (inl y) = inl (y ∙ x)
      later_patterns (inr x) (inl y) = inr (e, Memᴰ.head refl, x ∙ ap ok (sym y))

      later_simple :
          ((d'.simple_pattern ≡ d.simple_pattern) ⊎ Taken e d')
          → ((d''.simple_pattern ≡ d'.simple_pattern)
              ⊎ ((f : Entry Addr) × Memᴰ f es × Taken f d''))
          → (d''.simple_pattern ≡ d.simple_pattern)
            ⊎ ((f : Entry Addr) × Memᴰ f (e ∷ es) × Taken f d'')
      later_simple x (inr (f, m, t)) = inr (f, Memᴰ.tail m, t)
      later_simple (inl x) (inl y) = inl (y ∙ x)
      later_simple (inr (p, x, acts)) (inl y) = inr (e, Memᴰ.head refl, (p, y ∙ x, acts))

  pub visit_entries-Built :
      (d : Draft Addr) (es : List (Entry Addr)) {d' : Draft Addr}
      → visit_entries d es ≡ ok d'
      → Built d es d'
  unfolding visit_entries
  visit_entries-Built d [] {d'} h =
      let same : d ≡ d' = cc in
      rw (← same) (record {
        actions = omega arith;
        prefix = refl;
        exclusive = λ x. x;
        barren = λ x. (tt, x);
        patterns = inl refl;
        simple = inl refl;
      })
  visit_entries-Built d (e ∷ es) h =
      let (d', first, rest) = ok_of_bind (visit d e) (λ x. visit_entries x es) h in
      Built-cons (visit-Visited d e first) (visit_entries-Built d' es rest)
