-- ===== src/Ring/Rounds.antt =====
-- sync/ring.rs: one full round, wherever it starts, is the whole vector.
use native.Mathlib.Nat.{mod-eq_of_lt, add-mod_right}
use mathlib.Core.List.{Perm, append_assoc, append-nil, perm_append_comm, perm-append_left_iff}
use mathlib.Core.List.Perm
use rxh.Prelude.{
  list_laws, ℕ, zero, suc, ◌+◌, ◌%◌, ◌<◌, ◌≡◌, refl, sym, ap, subst, ◌∙◌, some, List, [], ◌∷◌, ◌++◌,
  arith, length, get_elem?, to_list, length-append,
}
use rxh.Ring.{Ring}
use rxh.Ring.Bounds.{IsValid}
use rxh.Ring.Cycle.{draws, round, KeepsPace, draws-round}

module _ {ℓ} {A : Type ℓ} where
  get_elem?-append_self :
      (xs : List A) (y : A) (ys : List A) → get_elem? (xs ++ y ∷ ys) (length xs) ≡ some y
  get_elem?-append_self [] y ys = refl
  get_elem?-append_self (x ∷ xs) y ys = get_elem?-append_self xs y ys

  length-append-lt : (xs : List A) (y : A) (ys : List A) → length xs < length (xs ++ y ∷ ys)
  length-append-lt xs y ys = omega (arith, length-append xs (y ∷ ys))

  round_suffix :
      (values xs ys : List A) → values ≡ xs ++ ys → round values (length xs) (length ys) ≡ ys
  round_suffix values xs [] e = refl
  round_suffix values xs (y ∷ ys) e =
      rw (slot_here, longer, round_suffix values (xs ++ y ∷ []) ys e')
    where
      e' : values ≡ (xs ++ y ∷ []) ++ ys
      e' = simp list_laws e

      slot_here : get_elem? values (length xs % length values) ≡ some y
      slot_here = rw (e, mod-eq_of_lt (length-append-lt xs y ys)) (get_elem?-append_self xs y ys)

      longer : length xs + 1 ≡ length (xs ++ y ∷ [])
      longer = omega (arith, length-append xs (y ∷ []))

  -- From slot 0 a full round is the vector itself.
  pub round_self : (values : List A) → round values 0 (length values) ≡ values
  round_self values = round_suffix values [] values refl

  abbrev pub slot : List A → ℕ → List A
  slot values k = to_list (get_elem? values (k % length values))

  pub round_snoc :
      (values : List A) (k n : ℕ) → round values k (suc n) ≡ round values k n ++ slot values (k + n)
  round_snoc values k zero = append-nil (slot values k) ∙ ap (slot values) (omega arith)
  round_snoc values k (suc n) =
      ap (◌++◌ (slot values k)) (round_snoc values (k + 1) n)
      ∙ sym (append_assoc (slot values k) (round values (k + 1) n) (slot values (k + 1 + n)))
      ∙ ap (λ (m : ℕ). round values k (suc n) ++ slot values m) (omega arith)

  -- Starting one slot later turns the round, and keeps its values.
  round_turn :
      (values : List A) (k : ℕ)
      → Perm (round values (k + 1) (length values)) (round values k (length values))
  round_turn values k = (perm-append_left_iff (slot values k)).0 (
      subst (λ l. Perm l (slot values k ++ round values k (length values))) (sym turned)
        (perm_append_comm (round values k (length values)) (slot values k)))
    where
      turned :
          slot values k ++ round values (k + 1) (length values)
          ≡ round values k (length values) ++ slot values k
      turned =
          round_snoc values k (length values)
          ∙ ap (λ (m : ℕ). round values k (length values) ++ to_list (get_elem? values m))
              (add-mod_right k (length values))

  pub round-perm : (values : List A) (k : ℕ) → Perm (round values k (length values)) values
  round-perm values zero = rw (round_self values) (Perm.refl values)
  round-perm values (suc k) =
      Perm.trans
        (subst (λ m. Perm (round values m (length values)) (round values k (length values)))
          (omega arith) (round_turn values k))
        (round-perm values k)

  -- On a valid ring whose counter keeps pace, as many calls as the ring has values return a
  -- permutation of the vector, wherever the ring stands.
  pub draws-perm :
      {r : Ring A}
      → IsValid r
      → KeepsPace (length r.values) r
      → (out : List A) × (r' : Ring A) × (draws (length r.values) r ≡ some (out, r'))
        × Perm out r.values
  draws-perm {r} v pace =
      let (r', e, _, _, _) = draws-round (length r.values) v pace in
      (round r.values r.next (length r.values), r', e, round-perm r.values r.next)
