-- ===== src/Ring/Cycle.antt =====
-- sync/ring.rs: successive calls walk the vector round and round, as long as the counter does not
-- wrap at a point inside a round.
use native.Mathlib.Nat.{mod-le, mod-one, mod-add-mod, mod-eq_of_lt, zero-mod}
use rxh.Prelude.Options.{◌>>=◌}
use rxh.Prelude.{
  ℕ, zero, suc, ◌+◌, ◌%◌, ◌≤◌, ◌≡◌, refl, sym, ap, ◌∙◌, ◌⊎◌, inl, inr, Option, some, List, [], ◌∷◌,
  ◌++◌, arith, length, get_elem?, to_list, ◌==◌, Bool-cases,
}
use rxh.Ring.{Ring, usize_mod, next_as_ref}
use rxh.Ring.Bounds.{IsValid, position, advance, next_as_ref_total}

module _ {ℓ} {A : Type ℓ} where
  -- `n` calls in a row, with what they return.
  unfoldable pub draws : ℕ → Ring A → Option (List A × Ring A)
  draws zero r = some ([], r)
  draws (suc n) r = do (a, r') ← next_as_ref r; (rest, r'') ← draws n r'; some (a ∷ rest, r'')

  -- The `n` values from slot `k` on, going round.
  abbrev pub round : List A → ℕ → ℕ → List A
  round values k zero = []
  round values k (suc n) = to_list (get_elem? values (k % length values)) ++ round values (k + 1) n

  -- The counter does not wrap in `n` calls, or wraps at the end of a round.
  abbrev pub KeepsPace : ℕ → Ring A → Type 0
  KeepsPace n r = (r.next + n ≤ usize_mod) ⊎ (usize_mod % length r.values ≡ 0)

  pub position-advance :
      {r : Ring A}
      → IsValid r
      → KeepsPace 2 r
      → position (advance r) ≡ (r.next + 1) % length r.values
  position-advance {r} v pace = elim (Bool-cases (length r.values == 1)) [
    | inl one ↦ ground (arith, mod-one r.next, mod-one (r.next + 1))
    | inr many ↦
        ground (arith, mod-eq_of_lt {n = r.next + 1} {m = usize_mod}, zero-mod (length r.values))
  ]

  pub KeepsPace-advance :
      (n : ℕ) {r : Ring A} → IsValid r → KeepsPace (suc n) r → KeepsPace n (advance r)
  KeepsPace-advance n {r} v pace = ground (arith, mod-eq_of_lt {n = r.next + 1} {m = usize_mod})

  pub round_cong :
      (values : List A) (n j k : ℕ)
      → j % length values ≡ k % length values
      → round values j n ≡ round values k n
  round_cong values zero j k e = refl
  round_cong values (suc n) j k e = rw (
    e,
    round_cong values n (j + 1) (k + 1) (
        sym (mod-add-mod j (length values) 1)
        ∙ ap (λ (m : ℕ). (m + 1) % length values) e
        ∙ mod-add-mod k (length values) 1),
  )

  round-advance :
      (n : ℕ) {r : Ring A}
      → IsValid r
      → KeepsPace (suc n) r
      → round r.values (advance r).next n ≡ round r.values (r.next + 1) n
  round-advance zero v pace = refl
  round-advance (suc n) {r} v pace =
      round_cong r.values (suc n) _ (r.next + 1) (position-advance v (ground arith))

  -- While the counter keeps pace, `n` calls return the `n` values from the counter's slot on.
  pub draws-round :
      (n : ℕ) {r : Ring A}
      → IsValid r
      → KeepsPace n r
      → (r' : Ring A) × (draws n r ≡ some (round r.values r.next n, r'))
        × (r'.values ≡ r.values)
        × IsValid r'
        × (r'.next ≤ r.next + n)
  unfolding draws
  draws-round zero {r} v pace = (r, refl, refl, v, omega arith)
  draws-round (suc n) {r} v pace =
      let (a, e, call, same, v') = next_as_ref_total v in
      let (r', rest, kept, valid, paced) = draws-round n v' (KeepsPace-advance n v pace) in
      (
        r',
        rw (call, e, rest) (ap (λ l. some (a ∷ l, r')) (round-advance n v pace)),
        kept ∙ same,
        valid,
        ground (arith, paced, mod-le (r.next + 1) usize_mod),
      )
