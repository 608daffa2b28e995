-- ===== src/Ring/Wrap.antt =====
-- sync/ring.rs: where the counter of a long-lived ring wraps at 2^64.
use native.Mathlib.Nat.{mod_self, zero-mod, mod-one, mod-add-mod}
use rxh.Prelude.{
  ℕ, ◌+◌, ◌-◌, ◌%◌, ◌≡◌, ◌≢◌, refl, sym, ap, ◌∙◌, some, [], ◌∷◌, arith, length, get_elem?, ◌==◌,
  Bool-cases, false, ==_iff, inl, inr,
}
use rxh.Ring.{Ring, usize_mod}
use rxh.Ring.Bounds.{IsValid, position, advance, next_as_ref_total}
use rxh.Ring.Cycle.{draws}

module _ {ℓ} {A : Type ℓ} where
  -- On a valid ring whose counter is at 2^64 - 1 and whose length does not divide 2^64, the next two
  -- calls return the value in the counter's slot and then the value in slot 0, although the former
  -- slot is not the last one.
  pub wrap_breaks_round :
      {r : Ring A}
      → IsValid r
      → r.next ≡ usize_mod - 1
      → usize_mod % length r.values ≢ 0
      → (a b : A) × (r' : Ring A) × (draws 2 r ≡ some (a ∷ b ∷ [], r'))
        × (get_elem? r.values (position r) ≡ some a)
        × (get_elem? r.values 0 ≡ some b)
        × (position r + 1 ≢ length r.values)
  unfolding draws
  wrap_breaks_round {r} v last odd =
      let (a, e, call, _, v') = next_as_ref_total v in
      let (b, e', call', _, _) = next_as_ref_total v' in
      (a, b, advance (advance r), rw (call, call') refl, e, rw (← back) e', not_last)
    where
      many : (length r.values == 1) ≡ false
      many = elim (Bool-cases (length r.values == 1)) [
        | inl one ↦ absurd (odd (rw ((==_iff _ 1).0 one) (mod-one usize_mod)))
        | inr other ↦ other
      ]

      back : position (advance r) ≡ 0
      back = rw (many, last) (zero-mod (length r.values))

      not_last : position r + 1 ≢ length r.values
      not_last full = odd (
          ap (λ (m : ℕ). m % length r.values) {x = usize_mod} (omega arith)
          ∙ sym (mod-add-mod r.next (length r.values) 1)
          ∙ rw full (mod_self (length r.values)))
