-- ===== src/Config/Deser/Blame.antt =====
-- src/config/deser.rs: the values that make reading a match or a forward panic.
use mathlib.Core.List.{Memᴰ}
use rxh.Prelude.{◌≡◌, refl, sym, ◌∙◌, ◌⊎◌, inl, inr, Option, List, [], ◌∷◌}
use rxh.Prelude.Texts.{Text}
use rxh.Sched.Expand.{total_weight}
use rxh.Config.Clone.{to_forward_cases}
use rxh.Config.Deser.{
  Outcome, ok, err, panic, ◌>>=◌, ForwardOption, ActionOption, PatternOption, to_backends,
  to_forward, to_action, to_pattern, to_patterns,
}
use rxh.Config.Deser.Visit.{Entry, listen, matches, forward, serve, uri, name, connections}

-- A chain panics at its first part, or behind it.
pub panic_of_bind {ℓ κ} :
    {A : Type ℓ} {B : Type κ} (first : Outcome A) (k : A → Outcome B)
    → (first >>= k) ≡ panic
    → (first ≡ panic) ⊎ ((a : A) × (first ≡ ok a) × (k a ≡ panic))
panic_of_bind panic k h = inl refl
panic_of_bind (err e) k h = cc
panic_of_bind (ok a) k h = inr (a, refl, h)

module _ {Addr : Type 0} where
  -- The weights of the forward add up to 0.
  abbrev pub IsWeightless : ForwardOption Addr → Type 0
  IsWeightless o = total_weight (to_backends o).0 ≡ 0

  -- The value of an element of a match, or what is read of it, panics.
  pub data BlamesElement (values : List (Outcome (PatternOption Addr))) : Type 0 where
    toml_panics : Memᴰ panic values → BlamesElement values
    weightless :
        (prefix : Option Text) (o : ForwardOption Addr)
        → Memᴰ (ok (record { uri = prefix; action = ActionOption.forward o })) values
        → IsWeightless o
        → BlamesElement values

  -- Why an entry makes reading a server panic: toml itself does at its value, or it has a forward
  -- without weight, alone or in a match.
  pub data Blames : Entry Addr → Type 0 where
    listen_panics : Blames (listen panic)
    matches_panics : Blames (matches panic)
    forward_panics : Blames (forward panic)
    serve_panics : Blames (serve panic)
    uri_panics : Blames (uri panic)
    name_panics : Blames (name panic)
    connections_panics : Blames (connections panic)
    weightless_forward : (o : ForwardOption Addr) → IsWeightless o → Blames (forward (ok o))
    in_match :
        (values : List (Outcome (PatternOption Addr)))
        → BlamesElement values
        → Blames (matches (ok values))

  pub to_forward-IsWeightless : (o : ForwardOption Addr) → to_forward o ≡ panic → IsWeightless o
  to_forward-IsWeightless o h = elim (to_forward_cases o) [
    | inl (light, _) ↦ light
    | inr (f, e, _, _, _, _) ↦ absurd (let bad : ok f ≡ panic = sym e ∙ h in cc)
  ]

  one_more :
      (v : Outcome (PatternOption Addr)) {values : List (Outcome (PatternOption Addr))}
      → BlamesElement values
      → BlamesElement (v ∷ values)
  one_more v (toml_panics m) = toml_panics (Memᴰ.tail m)
  one_more v (weightless prefix o m l) = weightless prefix o (Memᴰ.tail m) l

  to_action-Blames :
      (prefix : Option Text) (a : ActionOption Addr) (values : List (Outcome (PatternOption Addr)))
      → to_action a ≡ panic
      → BlamesElement (ok (record { uri = prefix; action = a }) ∷ values)
  unfolding to_action
  to_action-Blames prefix (ActionOption.forward o) values h =
      elim (panic_of_bind (to_forward o) _ h) [
        | inl e ↦ weightless prefix o (Memᴰ.head refl) (to_forward-IsWeightless o e)
        | inr (f, _, e) ↦ cc
      ]
  to_action-Blames prefix (ActionOption.serve directory) values h = cc

  to_pattern-Blames :
      (p : PatternOption Addr) (values : List (Outcome (PatternOption Addr)))
      → to_pattern p ≡ panic
      → BlamesElement (ok p ∷ values)
  unfolding to_pattern
  to_pattern-Blames p values h = elim (panic_of_bind (to_action p.action) _ h) [
    | inl e ↦ to_action-Blames p.uri p.action values e
    | inr (a, _, e) ↦ cc
  ]

  pub to_patterns-Blames :
      (values : List (Outcome (PatternOption Addr)))
      → to_patterns values ≡ panic
      → BlamesElement values
  unfolding to_patterns
  to_patterns-Blames [] h = cc
  to_patterns-Blames (panic ∷ values) h = toml_panics (Memᴰ.head refl)
  to_patterns-Blames (err e ∷ values) h = cc
  to_patterns-Blames (ok p ∷ values) h = elim (panic_of_bind (to_pattern p) _ h) [
    | inl e ↦ to_pattern-Blames p values e
    | inr (q, _, e) ↦ elim (panic_of_bind (to_patterns values) _ e) [
      | inl f ↦ one_more (ok p) (to_patterns-Blames values f)
      | inr (rest, _, f) ↦ cc
    ]
  ]
