-- ===== src/Ring/Threads.antt =====
-- sync/ring.rs: calls of several threads on one ring. The atomic part of a call is `next_index`; the
-- read of the slot may come any number of other threads' steps later.
use native.Mathlib.Nat.{mod-le, mod-lt, mod-add-mod}
use mathlib.Core.List.{Perm, append_assoc, append-nil, perm_append_comm, perm_middle}
use mathlib.Core.List.Perm
use rxh.Prelude.{
  list_laws, ℕ, suc, ◌+◌, ◌%◌, ◌≤◌, ◌<◌, ◌≡◌, refl, sym, ap, subst, ◌∙◌, some, List, [], ◌∷◌, ◌++◌,
  arith, length, get_elem?, to_list, inl, inr, All, All-middle, get_elem?_lt,
}
use rxh.Ring.{Ring, usize_mod, next_index}
use rxh.Ring.Bounds.{IsValid, position, advance, next_index_lem, advance-IsValid}
use rxh.Ring.Cycle.{round, KeepsPace, position-advance}
use rxh.Ring.Rounds.{round_snoc}

-- `pending` holds the index of each call that has run `next_index` and has not read its slot yet;
-- `served` what the finished calls returned, the last first.
pub record Calls {ℓ} (A : Type ℓ) : Type ℓ where
  pub ring : Ring A
  pub pending : List ℕ
  pub served : List A

abbrev pub idle {ℓ} : {A : Type ℓ} → Ring A → Calls A
idle r = record { ring = r; pending = []; served = [] }

-- The states that calls of any number of threads can reach, with the number of calls begun.
pub data Reach {ℓ} {A : Type ℓ} (r : Ring A) : ℕ → Calls A → Type ℓ where
  start : Reach r 0 (idle r)
  fetch :
      {n : ℕ} {s : Calls A} (i : ℕ) (r' : Ring A)
      → Reach r n s
      → next_index s.ring ≡ some (i, r')
      → Reach r (suc n) (record s { ring = r'; pending = i ∷ s.pending })
  read :
      {n : ℕ} {s : Calls A} (before after : List ℕ) (i : ℕ) (a : A)
      → Reach r n s
      → s.pending ≡ before ++ i ∷ after
      → get_elem? s.ring.values i ≡ some a
      → Reach r n (record s { pending = before ++ after; served = a ∷ s.served })

-- The values that the pending calls are going to read.
abbrev slots {ℓ} : {A : Type ℓ} → List A → List ℕ → List A
slots values [] = []
slots values (i ∷ rest) = to_list (get_elem? values i) ++ slots values rest

record Tally {ℓ} {A : Type ℓ} (r : Ring A) (n : ℕ) (s : Calls A) : Type ℓ where
  same : s.ring.values ≡ r.values
  valid : IsValid s.ring
  paced : s.ring.next ≤ r.next + n
  here : KeepsPace (suc n) r → position s.ring ≡ (r.next + n) % length r.values
  inside : All (λ i. i < length r.values) s.pending
  handed : KeepsPace n r → Perm (s.served ++ slots r.values s.pending) (round r.values r.next n)

module _ {ℓ} {A : Type ℓ} where
  slots-append :
      (values : List A) (xs ys : List ℕ)
      → slots values (xs ++ ys) ≡ slots values xs ++ slots values ys
  slots-append values [] ys = refl
  slots-append values (x ∷ xs) ys =
      rw (slots-append values xs ys)
        (sym (append_assoc (to_list (get_elem? values x)) (slots values xs) (slots values ys)))

  -- A block moves from the middle to the end, or to the front.
  perm_to_end : (xs ys zs : List A) → Perm (xs ++ (ys ++ zs)) ((xs ++ zs) ++ ys)
  perm_to_end xs ys zs = rw (append_assoc xs zs ys) (Perm.append_left xs (perm_append_comm ys zs))

  Tally-advance :
      {r : Ring A} {n : ℕ} {s : Calls A}
      → Tally r n s
      → Tally r (suc n) (record s { ring = advance s.ring; pending = position s.ring ∷ s.pending })
  Tally-advance {r} {n} {s} t = record {
    same = t.same;
    valid = advance-IsValid t.valid;
    paced = ground (arith, mod-le (s.ring.next + 1) usize_mod, t.paced);
    inside = (rw (← t.same) (mod-lt s.ring.next t.valid.filled), t.inside);
    here = λ k. next_slot (sooner (suc n) k) (kept_pace k);
    handed = λ k.
        subst (Perm (s.served ++ slots r.values (position s.ring ∷ s.pending)))
          (sym (round_snoc r.values r.next n))
          (Perm.trans
            (perm_to_end s.served (to_list (get_elem? r.values (position s.ring)))
              (slots r.values s.pending))
            (subst
              (λ m.
                Perm
                  ((s.served ++ slots r.values s.pending)
                    ++ to_list (get_elem? r.values (position s.ring)))
                  (round r.values r.next n ++ to_list (get_elem? r.values m)))
              (t.here k) (Perm.append_right _ (t.handed (sooner n k)))));
  }
    where
      sooner : (m : ℕ) → KeepsPace (suc m) r → KeepsPace m r
      sooner m k = ground arith

      kept_pace : KeepsPace (suc (suc n)) r → KeepsPace 2 s.ring
      kept_pace (inl fits) = inl (omega (arith, t.paced))
      kept_pace (inr even) = inr (rw t.same even)

      next_slot :
          KeepsPace (suc n) r
          → KeepsPace 2 s.ring
          → position (advance s.ring) ≡ (r.next + suc n) % length r.values
      next_slot k two =
          position-advance t.valid two
          ∙ sym (mod-add-mod s.ring.next (length s.ring.values) 1)
          ∙ ap (λ (m : ℕ). (m + 1) % length s.ring.values) (t.here k)
          ∙ ap (λ vs. ((r.next + n) % length r.values + 1) % length vs) t.same
          ∙ mod-add-mod (r.next + n) (length r.values) 1
          ∙ ap (λ (m : ℕ). m % length r.values) (omega arith)

  Tally-fetch :
      {r : Ring A} {n : ℕ} {s : Calls A} {i : ℕ} {r' : Ring A}
      → Tally r n s
      → next_index s.ring ≡ some (i, r')
      → Tally r (suc n) (record s { ring = r'; pending = i ∷ s.pending })
  Tally-fetch {r} {n} {s} {i} {r'} t e =
      let same_i : position s.ring ≡ i = cc (next_index_lem t.valid) in
      let same_ring : advance s.ring ≡ r' = cc (next_index_lem t.valid) in
      rw (← same_i, ← same_ring) (Tally-advance t)

  Tally-read :
      {r : Ring A} {n : ℕ} {s : Calls A} (before after : List ℕ) (i : ℕ) {a : A}
      → Tally r n s
      → s.pending ≡ before ++ i ∷ after
      → get_elem? s.ring.values i ≡ some a
      → Tally r n (record s { pending = before ++ after; served = a ∷ s.served })
  Tally-read {r} {n} {s} before after i {a} t e g = record {
    same = t.same;
    valid = t.valid;
    paced = t.paced;
    here = t.here;
    inside =
        (All-middle (λ j. j < length r.values) before i after
          (subst (All (λ j. j < length r.values)) e t.inside)).1;
    handed = λ k. Perm.trans (Perm.symm moved) (t.handed k);
  }
    where
      front : List A
      front = s.served ++ slots r.values before

      split : s.served ++ slots r.values s.pending ≡ front ++ a ∷ slots r.values after
      split =
          ap (λ l. s.served ++ slots r.values l) e
          ∙ ap (◌++◌ s.served) (slots-append r.values before (i ∷ after))
          ∙ ap (λ l. s.served ++ (slots r.values before ++ (to_list l ++ slots r.values after)))
              (ap (λ vs. get_elem? vs i) (sym t.same) ∙ g)
          ∙ sym (append_assoc s.served (slots r.values before) (a ∷ slots r.values after))

      joined :
          a ∷ (front ++ slots r.values after) ≡ a ∷ (s.served ++ slots r.values (before ++ after))
      joined = simp (slots-append, list_laws)

      moved :
          Perm
            (s.served ++ slots r.values s.pending)
            (a ∷ (s.served ++ slots r.values (before ++ after)))
      moved = rw (split, ← joined) (perm_middle front (slots r.values after))

  Reach-Tally : {r : Ring A} {n : ℕ} {s : Calls A} → IsValid r → Reach r n s → Tally r n s
  Reach-Tally {r} v start = record {
    same = refl;
    valid = v;
    paced = omega arith;
    here = λ k. ap (λ (m : ℕ). m % length r.values) (omega arith);
    inside = tt;
    handed = λ k. Perm.nil;
  }
  Reach-Tally v (fetch i r' before e) = Tally-fetch (Reach-Tally v before) e
  Reach-Tally v (read before after i a past e g) =
      Tally-read before after i (Reach-Tally v past) e g

  -- However the calls of several threads on one valid ring interleave, while the counter keeps pace:
  -- when no call is pending, the n calls begun together returned the n values from the ring's slot
  -- on, in some order.
  pub threads_share_round :
      {r : Ring A} {n : ℕ} {s : Calls A}
      → IsValid r
      → Reach r n s
      → KeepsPace n r
      → s.pending ≡ []
      → Perm s.served (round r.values r.next n)
  threads_share_round {r} {n} {s} v h pace done =
      subst (λ l. Perm l (round r.values r.next n))
        (ap (λ l. s.served ++ slots r.values l) done ∙ append-nil s.served)
        ((Reach-Tally v h).handed pace)

  -- In every interleaving of calls on a valid ring, and whatever the counter, a call that has
  -- fetched its index can read its slot.
  pub threads_never_panic :
      {r : Ring A} {n : ℕ} {s : Calls A}
      → IsValid r
      → Reach r n s
      → (before after : List ℕ) (i : ℕ) → s.pending ≡ before ++ i ∷ after
      → (a : A) × (get_elem? s.ring.values i ≡ some a)
  threads_never_panic {r} {n} {s} v h before after i e = get_elem?_lt s.ring.values i (
      rw t.same
        (All-middle (λ j. j < length r.values) before i after
          (subst (All (λ j. j < length r.values)) e t.inside)).0)
    where
      t : Tally r n s
      t = Reach-Tally v h
