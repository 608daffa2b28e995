-- ===== src/Sched/Turns.antt =====
-- sched/wrr.rs: the address that a request is sent to, from the number of requests before it.
use native.Mathlib.Nat.{mod-one}
use rxh.Prelude.{
  Option, ◌≤◌, ◌<◌, ℕ, zero, [], ◌∷◌, map, suc, ◌+◌, ◌%◌, ◌≡◌, refl, sym, ap, subst, ◌∙◌, some,
  List, arith, length, get_elem?, ◌⊎◌, inl, inr, ◌==◌, ==_iff, Bool-cases,
}
use rxh.Ring
use rxh.Ring.{Ring, usize_mod}
use rxh.Ring.Bounds.{IsValid, position, advance, next_as_ref_total}
use rxh.Sched.{Backend, wrr, Scheduler, weighted_round_robin, next_wrr, next_server, make}
use rxh.Sched.Fairness.{next_servers, count, weight_of, fair_round}
use rxh.Ring.Cycle.{KeepsPace}
use rxh.Sched.Expand.{expand, total_weight, length-expand, make-IsFresh}

map-some_injective : {A : Type 0} (xs ys : List A) → map some xs ≡ map some ys → xs ≡ ys
map-some_injective [] [] e = refl
map-some_injective [] (y ∷ ys) e = cc
map-some_injective (x ∷ xs) [] e = cc
map-some_injective (x ∷ xs) (y ∷ ys) e =
    let heads : x ≡ y = cc in
    let tails : map some xs ≡ map some ys = cc in rw (heads, map-some_injective xs ys tails) refl

-- The counter after `k` calls; a ring of one value does not count.
abbrev Counted : {A : Type 0} → ℕ → Ring A → Type 0
Counted k r = (length r.values ≡ 1) ⊎ (r.next ≡ k % usize_mod)

advance-Counted : {A : Type 0} (k : ℕ) (r : Ring A) → Counted k r → Counted (suc k) (advance r)
advance-Counted k r h = elim (Bool-cases (length r.values == 1)) [
  | inl one ↦ inl ((==_iff _ _).0 one)
  | inr many ↦ elim h [ inl e ↦ inl e | inr e ↦ inr (rw many (omega (arith, e))) ]
]

Counted-position :
    {A : Type 0} (k : ℕ) (r : Ring A) → Counted k r → position r ≡ (k % usize_mod) % length r.values
Counted-position k r (inl one) = rw (one, mod-one r.next, mod-one (k % usize_mod)) refl
Counted-position k r (inr e) = rw e refl

module _ {Addr : Type 0} where
  -- The scheduler has given `k` addresses.
  pub data HasGiven (k : ℕ) (backends : List (Backend Addr)) : Scheduler Addr → Type 0 where
    by_ring :
        (r : Ring Addr)
        → IsValid r
        → r.values ≡ expand backends
        → Counted k r
        → HasGiven k backends (weighted_round_robin (record { cycle = r }))

  -- The address of the turn after `k` others.
  abbrev pub turn : ℕ → List (Backend Addr) → Option Addr
  turn k backends = get_elem? (expand backends) ((k % usize_mod) % total_weight backends)

  pub make-HasGiven :
      (backends : List (Backend Addr)) {s : Scheduler Addr}
      → make wrr backends ≡ some s
      → HasGiven 0 backends s
  make-HasGiven backends made =
      let f = make-IsFresh backends made in
      subst (HasGiven 0 backends) (sym f.wraps) (by_ring f.ring f.valid f.cycle (inr f.at_start))

  pub HasGiven-heavy :
      {k : ℕ} {backends : List (Backend Addr)} {s : Scheduler Addr}
      → HasGiven k backends s
      → 0 < total_weight backends
  HasGiven-heavy {backends = backends} (by_ring r v e h) =
      omega (arith, v.filled, ap length e, length-expand backends)

  pub next_server-HasGiven :
      (k : ℕ) (backends : List (Backend Addr)) (s : Scheduler Addr)
      → HasGiven k backends s
      → (to : Addr) × (s' : Scheduler Addr) × (next_server s ≡ some (to, s'))
        × (turn k backends ≡ some to)
        × HasGiven (suc k) backends s'
  unfolding next_server next_wrr Ring.next_as_owned
  next_server-HasGiven k backends _ (by_ring r v e h) =
      let (to, at, given, same, v') = next_as_ref_total v in
      (
        to,
        _,
        rw given refl,
        ap (get_elem? (expand backends)) (slot e)
            ∙ ap (λ xs. get_elem? xs (position r)) (sym e)
            ∙ at,
        by_ring _ v' (same ∙ e) (advance-Counted k r h),
      )
    where
      slot : r.values ≡ expand backends → (k % usize_mod) % total_weight backends ≡ position r
      slot e =
          ap (λ n. (k % usize_mod) % n) (sym (length-expand backends) ∙ ap length (sym e))
          ∙ sym (Counted-position k r h)

  -- The counter does not wrap in the next round, or it makes no difference.
  abbrev pub KeepsRound : ℕ → List (Backend Addr) → Type 0
  KeepsRound k backends =
      (k % usize_mod + total_weight backends ≤ usize_mod) ⊎ (usize_mod % total_weight backends ≡ 0)

  -- The addresses of `n` turns after `k` others.
  abbrev pub turns : ℕ → ℕ → List (Backend Addr) → List (Option Addr)
  turns zero k backends = []
  turns (suc n) k backends = turn k backends ∷ turns n (suc k) backends

  next_servers-turns :
      (n k : ℕ) (backends : List (Backend Addr)) (s : Scheduler Addr)
      → HasGiven k backends s
      → (out : List Addr) × (s' : Scheduler Addr) × (next_servers n s ≡ some (out, s'))
        × (turns n k backends ≡ map some out)
  unfolding next_servers
  next_servers-turns zero k backends s h = ([], s, refl, refl)
  next_servers-turns (suc n) k backends s h =
      let (to, next, e, turned, h') = next_server-HasGiven k backends s h in
      let (out, s', es, rest) = next_servers-turns n (suc k) backends next h' in
      (to ∷ out, s', rw (e, es) refl, rw (turned, rest) refl)

  pub fair_after :
      (dec : Discrete Addr) (k : ℕ) (backends : List (Backend Addr)) (s : Scheduler Addr)
      → HasGiven k backends s
      → KeepsRound k backends
      → (out : List Addr) × (s' : Scheduler Addr) × (next_servers (total_weight backends) s
          ≡ some (out, s'))
        × ((a : Addr) → count dec a out ≡ weight_of dec a backends)
  fair_after dec k backends _ (by_ring r v e h) pace = fair_round dec backends v e (keeps h pace)
    where
      keeps : Counted k r → KeepsRound k backends → KeepsPace (total_weight backends) r
      keeps (inl one) pace = inr (rw one (mod-one usize_mod))
      keeps (inr same) (inl small) = inl (omega (arith, same, small))
      keeps (inr same) (inr whole) =
          inr (ap (λ n. usize_mod % n) (ap length e ∙ length-expand backends) ∙ whole)

  -- In the turns of a round each address comes as often as the weights of its backends add up to.
  pub turns_fair :
      (dec : Discrete Addr) (k : ℕ) (backends : List (Backend Addr)) (s : Scheduler Addr)
      (sent : List Addr)
      → HasGiven k backends s
      → KeepsRound k backends
      → turns (total_weight backends) k backends ≡ map some sent
      → (a : Addr) → count dec a sent ≡ weight_of dec a backends
  turns_fair dec k backends s sent h pace e a =
      let (out, _, served, share) = fair_after dec k backends s h pace in
      let (out', _, served', e') = next_servers-turns (total_weight backends) k backends s h in
      let same : out' ≡ out = cc in
      subst (λ l. count dec a l ≡ weight_of dec a backends)
        (map-some_injective out sent (ap (map some) (sym same) ∙ sym e' ∙ e)) (share a)
