-- ===== src/Http/Plain.antt =====
-- An instance of `Web`: visible texts as values, header maps as functions.
use mathlib.Core.Option
use mathlib.Core.Bool.{Bool-set}
use mathlib.Core.Option.{some-injective}
use rxh.Prelude.{
  ℕ, ◌≤◌, ◌<◌, ◌≡◌, ◌≢◌, refl, sym, ap, subst, ◌∙◌, Bool, true, false, ◌&&◌, ltb, leb, ◌==◌, ==_iff,
  if◌then◌else◌, Option, none, some, [], ◌∷◌, All, Bool-cases, ◌⊎◌, inl, inr, arith,
}
use rxh.Prelude.Texts.{Text, same_text}
use rxh.Http.{Web, Visible, is_visible}

abbrev Value : Type 0
Value = (t : Text) × Visible t

abbrev Map : Type 0
Map = Text → Option Value

abbrev legal : ℕ → Bool
legal b = leb 32 b && ltb b 127

abbrev checked : (t : Text) → (Visible t ⊎ (is_visible t ≡ false)) → Option Value
checked t (inl e) = some (t, e)
checked t (inr e) = none

abbrev from_str : Text → Option Value
from_str t = checked t (Bool-cases (is_visible t))

abbrev put : Text → Value → Map → Map
put n v m k = if same_text k n then some v else m k

same_text_refl : (t : Text) → same_text t t ≡ true
same_text_refl [] = refl
same_text_refl (c ∷ t) = rw ((==_iff c c).1 refl) (same_text_refl t)

same_text-eq : (s t : Text) → same_text s t ≡ true → s ≡ t
same_text-eq [] [] h = refl
same_text-eq [] (d ∷ t) h = cc
same_text-eq (c ∷ s) [] h = cc
same_text-eq (c ∷ s) (d ∷ t) h = elim (Bool-cases (c == d)) [
  | inl e ↦
      let f : c ≡ d = (==_iff c d).0 e in
      let g = same_text-eq s t (subst (λ b. (b && same_text s t) ≡ true) e h) in cc
  | inr e ↦ absurd (false-true (subst (λ b. (b && same_text s t) ≡ true) e h))
]
  where
    false-true : false ≡ true → ⊥
    false-true q = cc

pub get-put : (n : Text) (v : Value) (m : Map) → put n v m n ≡ some v
get-put n v m = rw (same_text_refl n) refl

pub get-put_other : (n n' : Text) (v : Value) (m : Map) → n ≢ n' → put n' v m n ≡ m n
get-put_other n n' v m h = elim (Bool-cases (same_text n n')) [
  | inl e ↦ absurd (h (same_text-eq n n' e))
  | inr e ↦ rw e refl
]

pub get-append : (n : Text) (v : Value) (m : Map) → m n ≡ none → put n v m n ≡ some v
get-append n v m e = get-put n v m

Visible-All : (t : Text) → Visible t → All (λ b. legal b ≡ true) t
Visible-All [] h = tt
Visible-All (b ∷ t) h = elim (Bool-cases (legal b)) [
  | inl e ↦ (e, Visible-All t (subst (λ c. (c && is_visible t) ≡ true) e h))
  | inr e ↦ absurd (let f : false ≡ true = subst (λ c. (c && is_visible t) ≡ true) e h in cc)
]

All-Visible : (t : Text) → All (λ b. legal b ≡ true) t → Visible t
All-Visible [] h = refl
All-Visible (b ∷ t) (e, h) = rw e (All-Visible t h)

checked-some :
    (t : Text) (x : Visible t ⊎ (is_visible t ≡ false))
    → Visible t
    → (v : Value) × (checked t x ≡ some v)
checked-some t (inl e) h = ((t, e), refl)
checked-some t (inr e) h = absurd (let f : true ≡ false = sym h ∙ e in cc)

checked-Visible :
    (t : Text) (x : Visible t ⊎ (is_visible t ≡ false)) (h : Visible t) → checked t x ≡ some (t, h)
checked-Visible t (inl e) h = ap (λ h. some (t, h)) (Bool-set _ _ e h)
checked-Visible t (inr e) h = absurd (let f : true ≡ false = sym h ∙ e in cc)

-- A visible text becomes a value.
pub from_str-Visible : (t : Text) (h : Visible t) → from_str t ≡ some (t, h)
from_str-Visible t h = checked-Visible t (Bool-cases (is_visible t)) h

some-checked :
    (t : Text) (x : Visible t ⊎ (is_visible t ≡ false)) (v : Value)
    → checked t x ≡ some v
    → Visible t × (some v.0 ≡ some t)
some-checked t (inl e) v h = (e, ap (Option.map (λ v. v.0)) (sym h))
some-checked t (inr e) v h = cc

pub from_str-legal : (t : Text) → All (λ b. legal b ≡ true) t → (v : Value) × (from_str t ≡ some v)
from_str-legal t h = checked-some t (Bool-cases (is_visible t)) (All-Visible t h)

pub legal-from_str : (t : Text) (v : Value) → from_str t ≡ some v → All (λ b. legal b ≡ true) t
legal-from_str t v e = Visible-All t (some-checked t (Bool-cases (is_visible t)) v e).0

pub to_str-from_str : (t : Text) (v : Value) → Visible t → from_str t ≡ some v → some v.0 ≡ some t
to_str-from_str t v h e = (some-checked t (Bool-cases (is_visible t)) v e).1

pub to_str-legal : (v : Value) (t : Text) → some v.0 ≡ some t → All (λ b. legal b ≡ true) t
to_str-legal v t e =
    subst (All (λ b. legal b ≡ true)) (some-injective v.0 t e) (Visible-All v.0 v.1)

pub legal-visible : (b : ℕ) → 32 ≤ b → b < 127 → legal b ≡ true
legal-visible b h k = ground arith

abbrev pub plain : Web
plain = record {
  Uri = Text;
  uri_text = λ u. u;
  uri_path = λ u. u;
  OnUpgrade = Unit;
  Value = Value;
  Map = Map;
  no_headers = λ n. none;
  get = λ n m. m n;
  insert = put;
  append = put;
  legal = legal;
  from_str = from_str;
  to_str = λ v. some v.0;
  get-no_headers = λ n. refl;
  get-insert = get-put;
  get-insert_other = get-put_other;
  get-append = get-append;
  get-append_other = get-put_other;
  legal-visible = legal-visible;
  from_str-legal = from_str-legal;
  legal-from_str = legal-from_str;
  to_str-from_str = to_str-from_str;
  to_str-legal = to_str-legal;
}
