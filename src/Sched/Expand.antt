-- ===== src/Sched/Expand.antt =====
-- sched/wrr.rs: the cycle that `WeightedRoundRobin::new` computes, and when it panics.
use rxh.Prelude.{
  list_laws, ℕ, zero, suc, ◌+◌, ◌≡◌, ◌<◌, refl, sym, ap, subst, ◌∙◌, none, some, List, [], ◌∷◌,
  ◌++◌, arith, length, length-append, length-replicate, replicate, inl, inr, ◌⊎◌,
}
use rxh.Ring.{Ring}
use rxh.Ring.Bounds.{IsValid, new_cases}
use rxh.Sched.{Backend, wrr, weighted_round_robin, Scheduler, push_weight, push_backends, new, make}

module _ {Addr : Type 0} where
  -- What the cycle is meant to be: each address as often as its weight says, backend after backend.
  abbrev pub expand : List (Backend Addr) → List Addr
  expand [] = []
  expand (b ∷ backends) = replicate b.weight b.address ++ expand backends

  abbrev pub total_weight : List (Backend Addr) → ℕ
  total_weight [] = 0
  total_weight (b ∷ backends) = b.weight + total_weight backends

  push_weight-replicate :
      (cycle : List Addr) (a : Addr) (w : ℕ) → push_weight cycle a w ≡ cycle ++ replicate w a
  unfolding push_weight
  push_weight-replicate cycle a zero = simp list_laws
  push_weight-replicate cycle a (suc w) =
      simp (push_weight-replicate (cycle ++ a ∷ []) a w, list_laws)

  push_backends-append :
      (cycle : List Addr) (backends : List (Backend Addr))
      → push_backends cycle backends ≡ cycle ++ expand backends
  unfolding push_backends
  push_backends-append cycle [] = simp list_laws
  push_backends-append cycle (b ∷ backends) = simp (
    push_weight-replicate,
    push_backends-append (cycle ++ replicate b.weight b.address) backends,
    list_laws,
  )

  -- The two nested loops compute the weighted expansion.
  pub push_backends-expand :
      (backends : List (Backend Addr)) → push_backends [] backends ≡ expand backends
  push_backends-expand backends = push_backends-append [] backends

  pub length-expand :
      (backends : List (Backend Addr)) → length (expand backends) ≡ total_weight backends
  length-expand [] = refl
  length-expand (b ∷ backends) = omega (
    arith,
    length-append (replicate b.weight b.address) (expand backends),
    length-replicate b.weight b.address,
    length-expand backends,
  )

  -- What a scheduler made from `backends` holds before its first call.
  pub record IsFresh (backends : List (Backend Addr)) (s : Scheduler Addr) : Type 0 where
    pub ring : Ring Addr
    pub wraps : s ≡ weighted_round_robin (record { cycle = ring })
    pub cycle : ring.values ≡ expand backends
    pub at_start : ring.next ≡ 0
    pub valid : IsValid ring

  -- The scheduler factory panics exactly on backends whose weights add up to 0; otherwise it makes a
  -- scheduler at the start of the cycle that repeats each address as often as its weight, backend
  -- after backend.
  pub make_cases :
      (backends : List (Backend Addr))
      → ((total_weight backends ≡ 0) × (make wrr backends ≡ none))
        ⊎ ((s : Scheduler Addr) × (make wrr backends ≡ some s)
            × IsFresh backends s
            × (0 < total_weight backends))
  unfolding make new
  make_cases backends = elim (new_cases (push_backends [] backends)) [
    | inl (empty, panics) ↦ inl (weightless empty, rw (panics, new))
    | inr (ring, made, valid, values, next) ↦
        let cycle = values ∙ push_backends-expand backends in
        inr (
          weighted_round_robin (record { cycle = ring }),
          rw (made, new),
          record { ring = ring; wraps = refl; cycle = cycle; at_start = next; valid = valid },
          heavy cycle valid.filled,
        )
  ]
    where
      weightless : push_backends [] backends ≡ [] → total_weight backends ≡ 0
      weightless empty =
          sym (length-expand backends) ∙ ap length (sym (push_backends-expand backends) ∙ empty)

      heavy :
          {values : List Addr}
          → values ≡ expand backends
          → 0 < length values
          → 0 < total_weight backends
      heavy e filled = omega (arith, ap length e, length-expand backends)

  pub make-IsFresh :
      (backends : List (Backend Addr)) {s : Scheduler Addr}
      → make wrr backends ≡ some s
      → IsFresh backends s
  make-IsFresh backends made = elim (make_cases backends) [
    | inl (_, panics) ↦ cc
    | inr (s', made', fresh, _) ↦ subst (IsFresh backends) (cc) fresh
  ]
