-- ===== src/Ring/Rotation.antt =====
-- sync/ring.rs: a ring behaves as a queue whose first value goes to the end when it is taken.
use native.Mathlib.Nat.{add-mod_right}
use mathlib.Core.Option.{some-injective}
use rxh.Prelude.{
  ℕ, suc, ◌+◌, ◌-◌, ◌%◌, ◌≤◌, ◌≡◌, sym, ap, ◌∙◌, subst, Option, none, some, List, [], ◌∷◌, ◌++◌,
  inl, inr, arith, length, get_elem?, to_list,
}
use rxh.Ring.{Ring, usize_mod, new, next_as_ref}
use rxh.Ring.Bounds.{IsValid, advance, new_cases, next_as_ref_total}
use rxh.Ring.Cycle.{round, KeepsPace, KeepsPace-advance, position-advance, round_cong}
use rxh.Ring.Rounds.{round_snoc, round_self}

-- The first value, and the queue with it at the end.
unfoldable pub rotate {ℓ} : {A : Type ℓ} → List A → Option (A × List A)
rotate [] = none
rotate (x ∷ xs) = some (x, xs ++ x ∷ [])

module _ {ℓ} {A : Type ℓ} where
  -- The values that the next round would return.
  abbrev pub view : Ring A → List A
  view r = round r.values r.next (length r.values)

  round_next :
      (values : List A) (k n : ℕ) (a : A)
      → length values ≡ suc n
      → get_elem? values (k % length values) ≡ some a
      → (round values k (length values) ≡ a ∷ round values (k + 1) n)
        × (round values (k + 1) (length values) ≡ round values (k + 1) n ++ a ∷ [])
  round_next values k n a l e = (
    ap (λ m. round values k m) l ∙ ap (λ o. to_list o ++ round values (k + 1) n) e,
    ap (λ m. round values (k + 1) m) l
        ∙ round_snoc values (k + 1) n
        ∙ ap (λ o. round values (k + 1) n ++ to_list o) (ap (get_elem? values) turned ∙ e),
  )
    where
      turned : (k + 1 + n) % length values ≡ k % length values
      turned =
          ap (λ (m : ℕ). m % length values) (omega (arith, l)) ∙ add-mod_right k (length values)

  -- `r` stands for the queue `q`, and may be asked `left` more times before its counter wraps inside
  -- a round.
  pub record Stands (left : ℕ) (r : Ring A) (q : List A) : Type ℓ where
    pub valid : IsValid r
    pub pace : KeepsPace (suc left) r
    pub queue : view r ≡ q

  pub new-Stands :
      (values : List A) (r : Ring A) (left : ℕ)
      → new values ≡ some r
      → suc left ≤ usize_mod
      → Stands left r values
  new-Stands values r left e h = elim (new_cases values) [
    | inl (_, f) ↦ cc
    | inr (r', f, v, same, zeroed) ↦
        let same_ring : r' ≡ r = some-injective r' r (sym f ∙ e) in
        subst (λ t. Stands left t values) same_ring
          (record {
            valid = v;
            pace = inl (omega (arith, zeroed, h));
            queue =
                ap (λ (k : ℕ). round r'.values k (length r'.values)) zeroed
                ∙ ap (λ xs. round xs 0 (length xs)) same
                ∙ round_self values;
          })
  ]

  sooner : (r : Ring A) (left : ℕ) → KeepsPace (suc (suc left)) r → KeepsPace 2 r
  sooner r left (inl h) = inl (omega (arith, h))
  sooner r left (inr h) = inr h

  pub next_as_ref-Stands :
      (left : ℕ) (r : Ring A) (q : List A)
      → Stands (suc left) r q
      → (a : A) × (r' : Ring A) × (q' : List A) × (next_as_ref r ≡ some (a, r'))
        × (rotate q ≡ some (a, q'))
        × Stands left r' q'
  unfolding rotate
  next_as_ref-Stands left r q h =
      let (a, e, call, same, v') = next_as_ref_total h.valid in
      let n = length r.values - 1 in
      let l : length r.values ≡ suc n = omega (arith, h.valid.filled) in
      let (front, back) = round_next r.values r.next n a l e in
      let next_view : view (advance r) ≡ round r.values (r.next + 1) (length r.values) =
        round_cong r.values (length r.values) (advance r).next (r.next + 1)
          (position-advance h.valid (sooner r left h.pace)) in
      (
        a,
        advance r,
        round r.values (r.next + 1) n ++ a ∷ [],
        call,
        ap rotate (sym h.queue ∙ front),
        record {
          valid = v';
          pace = KeepsPace-advance (suc left) h.valid h.pace;
          queue = next_view ∙ back;
        },
      )
