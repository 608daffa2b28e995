-- ===== src/Sched/Fairness.antt =====
-- sched/wrr.rs: which servers successive requests are sent to.
use mathlib.Core.Option
use mathlib.Core.Logic.{ite, ∥∥₁_elim}
use mathlib.Core.List.{Perm, Permᴰ}
use native.Mathlib.Nat.{ℕ_set}
use rxh.Prelude.Options.{◌>>=◌}
use rxh.Prelude.{
  ℕ, zero, suc, ◌+◌, ◌≤◌, ◌≡◌, refl, ◌∙◌, Option, some, List, [], ◌∷◌, ◌++◌, arith, replicate, inl,
  inr, Option-cases,
}
use rxh.Ring.{Ring, usize_mod, next_as_ref, next_as_owned}
use rxh.Ring.Cycle.{KeepsPace, draws, round, draws-round}
use rxh.Ring.Bounds.{IsValid}
use rxh.Ring.Rounds.{round_self, round-perm}
use rxh.Sched.{Backend, wrr, weighted_round_robin, Scheduler, next_server, make}
use rxh.Sched.Expand.{expand, total_weight, length-expand, make-IsFresh}

module _ {Addr : Type 0} where
  -- `n` requests in a row, with the servers that they are sent to.
  unfoldable pub next_servers : ℕ → Scheduler Addr → Option (List Addr × Scheduler Addr)
  next_servers zero s = some ([], s)
  next_servers (suc n) s = do
    (a, s') ← next_server s
    (rest, s'') ← next_servers n s'
    some (a ∷ rest, s'')

  abbrev schedule : Ring Addr → Scheduler Addr
  schedule r = weighted_round_robin (record { cycle = r })

  next_servers-draws :
      (n : ℕ) (r : Ring Addr)
      → next_servers n (schedule r) ≡ Option.map (λ p. (p.0, schedule p.1)) (draws n r)
  unfolding next_servers draws next_server next_as_owned
  next_servers-draws zero r = refl
  next_servers-draws (suc n) r = elim (Option-cases (next_as_ref r)) [
    | inl e ↦ rw (e, next_server) refl
    | inr ((a, r'), e) ↦
        rw (e, next_servers-draws n r')
          (elim (Option-cases (draws n r')) [ inl f ↦ rw f | inr (p, f) ↦ rw f ])
  ]

module _ {Addr : Type 0} (dec : Discrete Addr) where
  -- How often `a` stands in a list.
  abbrev pub count : Addr → List Addr → ℕ
  count a [] = 0
  count a (x ∷ xs) = ite (dec x a) 1 0 + count a xs

  -- The weight of all backends at address `a`.
  abbrev pub weight_of : Addr → List (Backend Addr) → ℕ
  weight_of a [] = 0
  weight_of a (b ∷ backends) = ite (dec b.address a) b.weight 0 + weight_of a backends

  pub count-append : (a : Addr) (xs ys : List Addr) → count a (xs ++ ys) ≡ count a xs + count a ys
  count-append a [] ys = omega arith
  count-append a (b ∷ front) back = omega (arith, count-append a front back)

  count-replicate : (a x : Addr) (n : ℕ) → count a (replicate n x) ≡ ite (dec x a) n 0
  count-replicate a x zero = ground arith
  count-replicate a x (suc n) = ground (arith, count-replicate a x n)

  pub count-expand :
      (a : Addr) (backends : List (Backend Addr)) → count a (expand backends) ≡ weight_of a backends
  count-expand a [] = refl
  count-expand a (b ∷ backends) = omega (
    arith,
    count-append a (replicate b.weight b.address) (expand backends),
    count-replicate a b.address b.weight,
    count-expand a backends,
  )

  count-permᴰ : (a : Addr) {xs ys : List Addr} → Permᴰ xs ys → count a xs ≡ count a ys
  count-permᴰ a Permᴰ.nil = refl
  count-permᴰ a (Permᴰ.cons e p) = rw (e, count-permᴰ a p)
  count-permᴰ a (Permᴰ.swap e f) = rw (e, f) (omega arith)
  count-permᴰ a (Permᴰ.trans p q) = count-permᴰ a p ∙ count-permᴰ a q

  pub count-perm : (a : Addr) {xs ys : List Addr} → Perm xs ys → count a xs ≡ count a ys
  count-perm a p = ∥∥₁_elim p (ℕ_set _ _) (count-permᴰ a)

module _ {Addr : Type 0} where
  -- If the factory accepts the backends and their total weight is at most 2^64, the first
  -- total-weight requests go through the backends in order, each address as often as the weight
  -- says.
  pub first_cycle :
      (backends : List (Backend Addr)) (s : Scheduler Addr)
      → make wrr backends ≡ some s
      → total_weight backends ≤ usize_mod
      → (s' : Scheduler Addr) × (next_servers (total_weight backends) s
          ≡ some (expand backends, s'))
  first_cycle backends s made small =
      let (r', drawn, _, _, _) = draws-round n valid (inl (omega (arith, at_start))) in
      (schedule r', rw (wraps, next_servers-draws n ring, drawn, whole) refl)
    where
      open (make-IsFresh backends made) use {ring, wraps, cycle, at_start, valid}

      n : ℕ
      n = total_weight backends

      whole : round ring.values ring.next n ≡ expand backends
      whole = rw (at_start, cycle, ← length-expand backends) (round_self (expand backends))

  pub fair_round :
      (dec : Discrete Addr) (backends : List (Backend Addr)) {r : Ring Addr}
      → IsValid r
      → r.values ≡ expand backends
      → KeepsPace (total_weight backends) r
      → (out : List Addr) × (s' : Scheduler Addr) × (next_servers
            (total_weight backends)
            (schedule r)
          ≡ some (out, s'))
        × ((a : Addr) → count dec a out ≡ weight_of dec a backends)
  fair_round dec backends {r} v values pace =
      let (r', drawn, _, _, _) = draws-round (total_weight backends) v pace in
      (
        round r.values r.next (total_weight backends),
        schedule r',
        rw (next_servers-draws (total_weight backends) r, drawn) refl,
        λ a.
            rw (values, ← length-expand backends)
              (count-perm dec a (round-perm (expand backends) r.next))
            ∙ count-expand dec a backends,
      )

  -- For every list of backends that the factory accepts and every number k of earlier requests, if k
  -- and the total weight together do not exceed 2^64: the first k requests and the next total-weight
  -- requests are all served, and among the latter each address comes exactly as often as the weights
  -- of its backends add up to.
  pub fair_share :
      (dec : Discrete Addr) (backends : List (Backend Addr)) (s : Scheduler Addr) (k : ℕ)
      → make wrr backends ≡ some s
      → k + total_weight backends ≤ usize_mod
      → (before out : List Addr) × (s' s'' : Scheduler Addr) × (next_servers k s
          ≡ some (before, s'))
        × (next_servers (total_weight backends) s' ≡ some (out, s''))
        × ((a : Addr) → count dec a out ≡ weight_of dec a backends)
  fair_share dec backends s k made small =
      let (r', drawn, same, v', paced) = draws-round k valid (inl (omega (arith, at_start))) in
      let pace : r'.next + total_weight backends ≤ usize_mod = omega (arith, at_start) in
      let (out, s'', served, share) = fair_round dec backends v' (same ∙ cycle) (inl pace) in
      (
        round ring.values ring.next k,
        out,
        schedule r',
        s'',
        rw (wraps, next_servers-draws k ring, drawn) refl,
        served,
        share,
      )
    where
      open (make-IsFresh backends made) use {ring, wraps, cycle, at_start, valid}
