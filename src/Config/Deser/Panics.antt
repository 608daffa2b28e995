-- ===== src/Config/Deser/Panics.antt =====
-- src/config/deser.rs: what makes reading a server panic.
use mathlib.Core.List.{Memᴰ}
use rxh.Prelude.{◌≡◌, refl, inl, inr, Option, none, some, List, [], ◌∷◌}
use rxh.Prelude.Texts.{Text}
use rxh.Config.{Action, Pattern}
use rxh.Config.Deser.{
  Outcome, ok, err, panic, OneOrMany, ForwardOption, PatternOption, to_forward, to_patterns,
  DeError,
}
use rxh.Config.Deser.Loop.{action_of}
use rxh.Config.Deser.Visit.{
  Entry, Draft, visit, visit_entries, visit_map, visit_listen, visit_match, visit_action, visit_uri,
  visit_name, blank, checked, push_simple, finish, second_forward, second_serve, listen, matches,
  forward, serve, uri, name, connections, unknown,
}
use rxh.Config.Deser.Blame.{
  panic_of_bind, Blames, listen_panics, matches_panics, forward_panics, serve_panics, uri_panics,
  name_panics, connections_panics, weightless_forward, in_match, to_forward-IsWeightless,
  to_patterns-Blames,
}

module _ {Addr : Type 0} where
  action-panics :
      (d : Draft Addr) (ps : List (Pattern Addr)) (sp : Option (Pattern Addr))
      (second : Action Addr → DeError) (value : Outcome (Action Addr))
      → visit_action d ps sp second value ≡ panic
      → value ≡ panic
  action-panics d (p ∷ ps) sp second value h = cc
  action-panics d [] (some p) second value h = cc
  action-panics d [] none second panic h = refl
  action-panics d [] none second (err e) h = cc
  action-panics d [] none second (ok a) h = cc

  listen-Blames :
      (d : Draft Addr) (addresses : List Addr) (value : Outcome (OneOrMany Addr))
      → visit_listen d addresses value ≡ panic
      → Blames (listen value)
  listen-Blames d (a ∷ addresses) value h = cc
  listen-Blames d [] panic h = listen_panics
  listen-Blames d [] (err e) h = cc
  listen-Blames d [] (ok l) h = cc

  matches-Blames :
      (d : Draft Addr) (ps : List (Pattern Addr)) (sp : Option (Pattern Addr))
      (value : Outcome (List (Outcome (PatternOption Addr))))
      → visit_match d ps sp value ≡ panic
      → Blames (matches value)
  matches-Blames d (p ∷ ps) sp value h = cc
  matches-Blames d [] (some p) value h = cc
  matches-Blames d [] none panic h = matches_panics
  matches-Blames d [] none (err e) h = cc
  matches-Blames d [] none (ok values) h = elim (panic_of_bind (to_patterns values) _ h) [
    | inl e ↦ in_match values (to_patterns-Blames values e)
    | inr (ps, _, e) ↦ cc
  ]

  forward-Blames :
      (value : Outcome (ForwardOption Addr))
      → action_of (forward value) ≡ panic
      → Blames (forward value)
  forward-Blames panic h = forward_panics
  forward-Blames (err e) h = cc
  forward-Blames (ok o) h = elim (panic_of_bind (to_forward o) _ h) [
    | inl e ↦ weightless_forward o (to_forward-IsWeightless o e)
    | inr (f, _, e) ↦ cc
  ]

  serve-Blames :
      (value : Outcome Text)
      → action_of {Addr = Addr} (serve value) ≡ panic
      → Blames {Addr = Addr} (serve value)
  serve-Blames panic h = serve_panics
  serve-Blames (err e) h = cc
  serve-Blames (ok t) h = cc

  uri-Blames :
      (d : Draft Addr) (ps : List (Pattern Addr)) (value : Outcome Text)
      → visit_uri d ps value ≡ panic
      → Blames {Addr = Addr} (uri value)
  uri-Blames d (p ∷ ps) value h = cc
  uri-Blames d [] panic h = uri_panics
  uri-Blames d [] (err e) h = cc
  uri-Blames d [] (ok t) h = cc

  name-Blames :
      (d : Draft Addr) (named : Option Text) (value : Outcome Text)
      → visit_name d named value ≡ panic
      → Blames {Addr = Addr} (name value)
  name-Blames d (some n) value h = cc
  name-Blames d none panic h = name_panics
  name-Blames d none (err e) h = cc
  name-Blames d none (ok t) h = cc

  visit-Blames : (d : Draft Addr) (e : Entry Addr) → visit d e ≡ panic → Blames e
  unfolding visit
  visit-Blames d (listen value) h = listen-Blames d d.listening value h
  visit-Blames d (matches value) h = matches-Blames d d.patterns d.simple_pattern value h
  visit-Blames d (forward value) h =
      forward-Blames value (action-panics d d.patterns d.simple_pattern second_forward _ h)
  visit-Blames d (serve value) h =
      serve-Blames value (action-panics d d.patterns d.simple_pattern second_serve _ h)
  visit-Blames d (uri value) h = uri-Blames d d.patterns value h
  visit-Blames d (name value) h = name-Blames d d.named value h
  visit-Blames d (connections panic) h = connections_panics
  visit-Blames d (connections (err e)) h = cc
  visit-Blames d (connections (ok n)) h = cc
  visit-Blames d (unknown e) h = cc

  -- An entry of the table is to blame.
  abbrev pub Blamed : List (Entry Addr) → Type 0
  Blamed es = (e : Entry Addr) × Memᴰ e es × Blames e

  visit_entries-Blamed :
      (d : Draft Addr) (es : List (Entry Addr)) → visit_entries d es ≡ panic → Blamed es
  unfolding visit_entries
  visit_entries-Blamed d [] h = cc
  visit_entries-Blamed d (e ∷ es) h = elim (panic_of_bind (visit d e) _ h) [
    | inl p ↦ (e, Memᴰ.head refl, visit-Blames d e p)
    | inr (d', _, p) ↦ let (f, m, b) = visit_entries-Blamed d' es p in (f, Memᴰ.tail m, b)
  ]

  checked-calm :
      (d : Draft Addr) (ps : List (Pattern Addr)) (l : List Addr) → checked d ps l ≡ panic → ⊥
  checked-calm d [] l h = cc
  checked-calm d (p ∷ ps) [] h = cc
  checked-calm d (p ∷ ps) (a ∷ l) h = cc

  -- Reading a server panics only for an entry that is to blame.
  pub visit_map-Blamed : (es : List (Entry Addr)) → visit_map es ≡ panic → Blamed es
  unfolding visit_map finish
  visit_map-Blamed es h = elim (panic_of_bind (visit_entries blank es) _ h) [
    | inl p ↦ visit_entries-Blamed blank es p
    | inr (d, _, p) ↦
        absurd (checked-calm d (push_simple d.patterns d.simple_pattern d.prefix) d.listening p)
  ]
