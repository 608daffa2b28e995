-- ===== src/Prelude/Lists.antt =====
-- Lists measured and indexed by native numbers, under the library's names.
use Prim.Native.Nat.{ℕ, zero, suc, ◌+◌, ◌≤◌, ◌<◌}
use mathlib.Core.Path.{◌≡◌, refl, ap}
use mathlib.Core.List.{List, [], ◌∷◌, ◌++◌, map, append-nil, append_assoc, map-append}
use mathlib.Core.Option.{Option, none, some}
use native.Mathlib.Omega.{arith}

-- What `simp` normalises lists by.
pub ruleset list_laws = (append-nil, append_assoc, map-append)

module _ {ℓ} {A : Type ℓ} where
  abbrev pub length : List A → ℕ
  length [] = 0
  length (x ∷ xs) = suc (length xs)

  abbrev pub get_elem? : List A → ℕ → Option A
  get_elem? [] i = none
  get_elem? (x ∷ xs) zero = some x
  get_elem? (x ∷ xs) (suc i) = get_elem? xs i

  abbrev pub replicate : ℕ → A → List A
  replicate zero a = []
  replicate (suc n) a = a ∷ replicate n a

  -- The elements of an option.
  abbrev pub to_list : Option A → List A
  to_list none = []
  to_list (some a) = a ∷ []

module _ {ℓ} {A : Type ℓ} where
  pub length-append : (xs ys : List A) → length (xs ++ ys) ≡ length xs + length ys
  length-append [] ys = omega arith
  length-append (x ∷ xs) ys = omega (arith, length-append xs ys)

  pub length-replicate : (n : ℕ) (a : A) → length (replicate n a) ≡ n
  length-replicate zero a = refl
  length-replicate (suc n) a = ap suc (length-replicate n a)

  pub length-map {κ} : {B : Type κ} (xs : List A) (f : A → B) → length (map f xs) ≡ length xs
  length-map [] f = refl
  length-map (x ∷ xs) f = ap suc (length-map xs f)

  pub get_elem?_lt : (xs : List A) (i : ℕ) → i < length xs → (a : A) × (get_elem? xs i ≡ some a)
  get_elem?_lt [] i h = absurd (omega arith)
  get_elem?_lt (x ∷ xs) zero h = (x, refl)
  get_elem?_lt (x ∷ xs) (suc i) h = get_elem?_lt xs i (omega arith)

  pub get_elem?_ge : (xs : List A) (i : ℕ) → length xs ≤ i → get_elem? xs i ≡ none
  get_elem?_ge [] i h = refl
  get_elem?_ge (x ∷ xs) zero h = absurd (omega arith)
  get_elem?_ge (x ∷ xs) (suc i) h = get_elem?_ge xs i (omega arith)

-- A predicate on every element, by recursion.
abbrev pub All {ℓ κ} : {A : Type ℓ} → (A → Type κ) → List A → Type κ
All P [] = Unit
All P (x ∷ xs) = P x × All P xs

-- An element may be taken out of the middle, and put back.
pub All-middle {ℓ κ} :
    {A : Type ℓ} (P : A → Type κ) (xs : List A) (y : A) (ys : List A)
    → All P (xs ++ y ∷ ys)
    → P y × All P (xs ++ ys)
All-middle P [] y ys h = h
All-middle P (x ∷ xs) y ys (p, h) = let (q, rest) = All-middle P xs y ys h in (q, (p, rest))

pub All-append {ℓ κ} :
    {A : Type ℓ} (P : A → Type κ) (xs ys : List A) → All P xs → All P ys → All P (xs ++ ys)
All-append P [] ys h k = k
All-append P (x ∷ xs) ys (p, h) k = (p, All-append P xs ys h k)

pub All-of-append {ℓ κ} :
    {A : Type ℓ} (P : A → Type κ) (xs ys : List A) → All P (xs ++ ys) → All P xs × All P ys
All-of-append P [] ys h = (tt, h)
All-of-append P (x ∷ xs) ys (p, h) = let (a, b) = All-of-append P xs ys h in ((p, a), b)

pub All-insert :
    {A : Type 0} (P : A → Type 0) (xs : List A) (y : A) (ys : List A)
    → P y
    → All P (xs ++ ys)
    → All P (xs ++ y ∷ ys)
All-insert P [] y ys h k = (h, k)
All-insert P (x ∷ xs) y ys h (a, b) = (a, All-insert P xs y ys h b)

pub map-replace :
    {A B : Type 0} (f : A → B) (xs : List A) (y z : A) (ys : List A)
    → f y ≡ f z
    → map f (xs ++ y ∷ ys) ≡ map f (xs ++ z ∷ ys)
map-replace f [] y z ys e = ap (λ t. t ∷ map f ys) e
map-replace f (x ∷ xs) y z ys e = ap (λ l. f x ∷ l) (map-replace f xs y z ys e)
