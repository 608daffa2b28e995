-- ===== src/Ring/Bounds.antt =====
-- sync/ring.rs: which vectors make a ring, and that no call on a ring panics.
use native.Mathlib.Nat.{mod-lt, mod-one}
use rxh.Prelude.{
  ℕ, ◌+◌, ◌%◌, ◌<◌, ◌≡◌, refl, ◌⊎◌, none, some, List, [], ◌∷◌, arith, length, get_elem?,
  get_elem?_lt, Bool-cases, ◌==◌, ==_iff, false, if◌then◌else◌, inl, inr,
}
use rxh.Ring.{Ring, usize_mod, new, next_index, next_as_ref}

pub record IsValid {ℓ} {A : Type ℓ} (r : Ring A) : Type 0 where
  pub filled : 0 < length r.values
  pub fits : r.next < usize_mod

-- The slot that the next call reads.
abbrev pub position {ℓ} : {A : Type ℓ} → Ring A → ℕ
position r = r.next % length r.values

-- The ring that one call leaves: a ring of one value keeps its counter.
abbrev pub advance {ℓ} : {A : Type ℓ} → Ring A → Ring A
advance r = record r { next = if length r.values == 1 then r.next else (r.next + 1) % usize_mod }

filled-ne-zero : {n : ℕ} → 0 < n → (n == 0) ≡ false
filled-ne-zero h = ground arith

module _ {ℓ} {A : Type ℓ} where
  -- `new` panics on the empty vector only, and otherwise starts a valid ring at index 0.
  pub new_cases :
      (xs : List A)
      → ((xs ≡ []) × (new xs ≡ none))
        ⊎ ((r : Ring A) × (new xs ≡ some r) × IsValid r × (r.values ≡ xs) × (r.next ≡ 0))
  unfolding new
  new_cases [] = inl (refl, refl)
  new_cases (x ∷ xs) =
      inr (record { values = x ∷ xs; next = 0 }, ground arith, omega arith, refl, refl)

  pub next_index_lem : {r : Ring A} → IsValid r → next_index r ≡ some (position r, advance r)
  unfolding next_index
  next_index_lem {r} v = elim (Bool-cases (length r.values == 1)) [
    | inl one ↦ let e : length r.values ≡ 1 = (==_iff _ _).0 one in rw (one, e, mod-one r.next) refl
    | inr many ↦ rw (many, filled-ne-zero v.filled) refl
  ]

  pub advance-IsValid : {r : Ring A} → IsValid r → IsValid (advance r)
  advance-IsValid {r} v = ground (arith, mod-lt (r.next + 1) {m = usize_mod} (omega arith))

  -- On a valid ring a call never panics, whatever the counter: it returns the value in the slot
  -- given by the counter modulo the length, keeps the vector, and leaves a valid ring.
  pub next_as_ref_total :
      {r : Ring A}
      → IsValid r
      → (a : A) × (get_elem? r.values (position r) ≡ some a)
        × (next_as_ref r ≡ some (a, advance r))
        × ((advance r).values ≡ r.values)
        × IsValid (advance r)
  unfolding next_as_ref
  next_as_ref_total {r} v =
      let (a, e) = get_elem?_lt r.values (position r) (mod-lt r.next v.filled) in
      (a, e, rw (next_index_lem v, e) refl, ground arith, advance-IsValid v)
