-- ===== src/Sched/Picks.antt =====
-- sched/wrr.rs: how often an address comes in the first calls.
use mathlib.Core.List.{append_assoc}
use native.Mathlib.Nat.{mod-lt}
use rxh.Prelude.{
  ◌<◌, get_elem?_lt, ℕ, zero, suc, ◌+◌, ◌-◌, ◌*◌, ◌%◌, ◌≤◌, ◌≡◌, refl, sym, ap, ◌∙◌, Option, some,
  List, [], ◌∷◌, ◌++◌, map, arith, length, get_elem?, to_list,
}
use rxh.Ring.{usize_mod}
use rxh.Ring.Cycle.{round}
use rxh.Ring.Rounds.{round-perm, round_snoc}
use rxh.Sched.{Backend}
use rxh.Sched.Expand.{expand, total_weight, length-expand}
use rxh.Sched.Fairness.{count, weight_of, count-append, count-perm, count-expand}
use rxh.Sched.Turns.{turn}

-- The turns before `k`, the last one first.
abbrev pub down : {Addr : Type 0} → ℕ → List (Backend Addr) → List (Option Addr)
down zero backends = []
down (suc k) backends = turn k backends ∷ down k backends

pub down_total :
    {Addr : Type 0} (backends : List (Backend Addr)) (n : ℕ)
    → 0 < total_weight backends
    → (sent : List Addr) × (down n backends ≡ map some sent)
down_total backends zero h = ([], refl)
down_total backends (suc n) h =
    let (sent, rest) = down_total backends n h in
    let inside : n % usize_mod % total_weight backends < length (expand backends) =
      omega (arith, mod-lt (n % usize_mod) h, length-expand backends) in
    let (to, here) =
      get_elem?_lt (expand backends) (n % usize_mod % total_weight backends) inside in
    (to ∷ sent, rw (here, rest) refl)

round-append :
    {A : Type 0} (values : List A) (k m n : ℕ)
    → round values k (m + n) ≡ round values k m ++ round values (k + m) n
round-append values k zero n =
    let e : 0 + n ≡ n = omega arith in let f : k + 0 ≡ k = omega arith in rw (e, f) refl
round-append values k (suc m) n =
    let here = to_list (get_elem? values (k % length values)) in
    let e : suc m + n ≡ suc (m + n) = omega arith in
    let f : k + 1 + m ≡ k + suc m = omega arith in
    ap (round values k) e
    ∙ ap (◌++◌ here) (round-append values (k + 1) m n)
    ∙ sym (append_assoc here (round values (k + 1) m) (round values (k + 1 + m) n))
    ∙ ap (λ (j : ℕ). round values k (suc m) ++ round values j n) f

module _ {Addr : Type 0} (dec : Discrete Addr) (backends : List (Backend Addr)) (a : Addr) where
  abbrev pub picks : ℕ → ℕ → ℕ
  picks k n = count dec a (round (expand backends) k n)

  picks-add : (k m n : ℕ) → picks k (m + n) ≡ picks k m + picks (k + m) n
  picks-add k m n =
      ap (count dec a) (round-append (expand backends) k m n)
      ∙ count-append dec a (round (expand backends) k m) (round (expand backends) (k + m) n)

  picks_round : (k : ℕ) → picks k (total_weight backends) ≡ weight_of dec a backends
  picks_round k =
      rw (← length-expand backends) (count-perm dec a (round-perm (expand backends) k))
      ∙ count-expand dec a backends

  picks_rounds : (j k : ℕ) → picks k (j * total_weight backends) ≡ j * weight_of dec a backends
  picks_rounds zero k =
      let e : 0 * total_weight backends ≡ 0 = omega arith in ap (picks k) e ∙ omega arith
  picks_rounds (suc j) k =
      let e : suc j * total_weight backends ≡ total_weight backends + j * total_weight backends =
        ground arith in
      ap (picks k) e
      ∙ picks-add k (total_weight backends) (j * total_weight backends)
      ∙ ground (arith, picks_round k, picks_rounds j (k + total_weight backends))

  picks_grow : (k m n : ℕ) → m ≤ n → picks k m ≤ picks k n
  picks_grow k m n h =
      omega (
        arith,
        ap (picks k) (let e : m + (n - m) ≡ n = omega (arith, h) in e),
        picks-add k m (n - m),
      )

  -- With whole cycles below and above `n`, the shares of `n` calls are between theirs.
  pub picks_between :
      (n cycles : ℕ)
      → cycles * total_weight backends ≤ n
      → n ≤ suc cycles * total_weight backends
      → (cycles * weight_of dec a backends ≤ picks 0 n)
        × (picks 0 n ≤ suc cycles * weight_of dec a backends)
  picks_between n cycles low high = (
    omega (arith, picks_rounds cycles 0, picks_grow 0 (cycles * total_weight backends) n low),
    omega (
      arith,
      picks_rounds (suc cycles) 0,
      picks_grow 0 n (suc cycles * total_weight backends) high,
    ),
  )

  pub count-down :
      (n : ℕ) (sent : List Addr)
      → n ≤ usize_mod
      → down n backends ≡ map some sent
      → count dec a sent ≡ picks 0 n
  count-down zero [] h e = refl
  count-down zero (x ∷ sent) h e = cc
  count-down (suc n) [] h e = cc
  count-down (suc n) (x ∷ sent) h e =
      let here : turn n backends ≡ some x = cc in
      let rest : down n backends ≡ map some sent = cc in
      let wraps : 0 + n ≡ n % usize_mod = omega (arith, h) in
      let slot : get_elem? (expand backends) ((0 + n) % length (expand backends)) ≡ some x =
        ap (get_elem? (expand backends)) (
          ap (λ (m : ℕ). m % length (expand backends)) wraps
          ∙ ap (λ (m : ℕ). n % usize_mod % m) (length-expand backends))
        ∙ here in
      omega (
        arith,
        ap (count dec a) (round_snoc (expand backends) 0 n),
        count-append dec a (round (expand backends) 0 n)
            (to_list (get_elem? (expand backends) ((0 + n) % length (expand backends)))),
        ap (λ o. count dec a (to_list o)) slot,
        count-down n sent (omega (arith, h)) rest,
      )
