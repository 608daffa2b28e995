-- ===== src/Ring/Tests.antt =====
-- sync/ring.rs on concrete rings.
use mathlib.Core.List.{Perm}
use rxh.Prelude.{ℕ, ◌+◌, ◌-◌, ◌≡◌, ◌≢◌, refl, none, some, List, [], ◌∷◌, arith, inl, get_elem?}
use rxh.Ring.{Ring, usize_mod, new, next_index, next_as_ref}
use rxh.Ring.Bounds.{IsValid, position, advance, next_as_ref_total}
use rxh.Ring.Cycle.{draws, round}
use rxh.Ring.Rounds.{draws-perm}
use rxh.Ring.Wrap.{wrap_breaks_round}
use rxh.Ring.Threads.{idle, Reach, start, fetch, read, threads_share_round, threads_never_panic}

-- The cycle of the doc comment, with 1, 2 and 3 for A, B and C.
abbrev abc : Ring ℕ
abc = record { values = 1 ∷ 2 ∷ 2 ∷ 2 ∷ 3 ∷ 3 ∷ []; next = 0 }

abbrev worn : Ring ℕ
worn = record { values = 7 ∷ 8 ∷ 9 ∷ []; next = usize_mod - 1 }

new_tests : (new abc.values ≡ some abc) × (new {A = ℕ} [] ≡ none)
unfolding new
new_tests = (refl, refl)

draws_eight : draws 8 abc ≡ some (1 ∷ 2 ∷ 2 ∷ 2 ∷ 3 ∷ 3 ∷ 1 ∷ 2 ∷ [], record abc { next = 8 })
unfolding draws next_as_ref next_index
draws_eight = refl

-- The counter wraps inside a round of three: slot 0 is read twice in a row.
draws-worn : draws 3 worn ≡ some (7 ∷ 7 ∷ 8 ∷ [], record worn { next = 2 })
unfolding draws next_as_ref next_index
draws-worn = refl

worn_ring :
    (a : ℕ) × (get_elem? worn.values (position worn) ≡ some a)
    × (next_as_ref worn ≡ some (a, advance worn))
    × ((advance worn).values ≡ worn.values)
    × IsValid (advance worn)
worn_ring = next_as_ref_total {r = worn} (omega arith)

abc-perm : (out : List ℕ) × (r' : Ring ℕ) × (draws 6 abc ≡ some (out, r')) × Perm out abc.values
abc-perm = draws-perm {r = abc} (omega arith) (inl (omega arith))

wrap_breaks_round_example :
    (a b : ℕ) × (r' : Ring ℕ) × (draws 2 worn ≡ some (a ∷ b ∷ [], r'))
    × (get_elem? worn.values (position worn) ≡ some a)
    × (get_elem? worn.values 0 ≡ some b)
    × (position worn + 1 ≢ 3)
wrap_breaks_round_example = wrap_breaks_round {r = worn} (omega arith) refl (omega arith)

-- Two threads fetch, and the second reads first.
crossed : Reach abc 2 (record { ring = record abc { next = 2 }; pending = []; served = 1 ∷ 2 ∷ [] })
unfolding next_index
crossed =
    read [] [] 0 1 (read [] (0 ∷ []) 1 2 (fetch 1 _ (fetch 0 _ start refl) refl) refl refl) refl
      refl

threads_share_round_example : Perm (1 ∷ 2 ∷ []) (round abc.values 0 2)
threads_share_round_example =
    threads_share_round {r = abc} (omega arith) crossed (inl (omega arith)) refl

half_way : Reach abc 1 (record (idle abc) { ring = record abc { next = 1 }; pending = 0 ∷ [] })
unfolding next_index
half_way = fetch 0 _ start refl

half_way_read : (a : ℕ) × (get_elem? abc.values 0 ≡ some a)
half_way_read = threads_never_panic {r = abc} (omega arith) half_way [] [] 0 refl
