-- ===== src/Sched/Rotation.antt =====
-- sched/wrr.rs: the scheduler implements a queue of addresses that is turned by one at each request.
use rxh.Prelude.Options.{◌>>=◌}
use rxh.Prelude.{
  ℕ, zero, suc, ◌<◌, ◌≡◌, refl, sym, ap, subst, ◌∙◌, Option, some, List, [], ◌∷◌, arith, length,
  inl,
}
use rxh.Ring.{Ring, usize_mod, next_as_owned}
use rxh.Ring.Cycle.{round}
use rxh.Ring.Rounds.{round_self}
use rxh.Ring.Rotation.{rotate, Stands, next_as_ref-Stands}
use rxh.Sched.{Backend, wrr, weighted_round_robin, Scheduler, next_wrr, next_server, make}
use rxh.Sched.Expand.{expand, make-IsFresh}
use rxh.Sched.Fairness.{next_servers}

-- The queue, turned `n` times, with the addresses that went to its end.
unfoldable pub rotations : {A : Type 0} → ℕ → List A → Option (List A × List A)
rotations zero q = some ([], q)
rotations (suc n) q = do (a, q') ← rotate q; (rest, q'') ← rotations n q'; some (a ∷ rest, q'')

module _ {Addr : Type 0} where
  -- `s` stands for the queue `q` for `left` more requests.
  pub data Implements (left : ℕ) (q : List Addr) : Scheduler Addr → Type 0 where
    by_ring :
        (r : Ring Addr)
        → Stands left r q
        → Implements left q (weighted_round_robin (record { cycle = r }))

  -- A new scheduler stands for the weighted expansion of its backends.
  pub make-Implements :
      (backends : List (Backend Addr)) (s : Scheduler Addr) (left : ℕ)
      → make wrr backends ≡ some s
      → left < usize_mod
      → Implements left (expand backends) s
  make-Implements backends s left made h =
      let f = make-IsFresh backends made in
      subst (Implements left (expand backends)) (sym f.wraps) (
        by_ring f.ring (record {
          valid = f.valid;
          pace = inl (omega (arith, f.at_start, h));
          queue =
              ap (λ (k : ℕ). round f.ring.values k (length f.ring.values)) f.at_start
              ∙ ap (λ xs. round xs 0 (length xs)) f.cycle
              ∙ round_self (expand backends);
        }))

  -- A request takes the first address of the queue and puts it behind.
  pub next_server-Implements :
      (left : ℕ) (q : List Addr) (s : Scheduler Addr)
      → Implements (suc left) q s
      → (to : Addr) × (s' : Scheduler Addr) × (q' : List Addr) × (next_server s ≡ some (to, s'))
        × (rotate q ≡ some (to, q'))
        × Implements left q' s'
  unfolding next_server next_wrr next_as_owned
  next_server-Implements left q _ (by_ring r h) =
      let (to, r', q', e, f, h') = next_as_ref-Stands left r q h in
      (to, _, q', rw e refl, f, by_ring r' h')

  rounds-Implements :
      (n : ℕ) (q : List Addr) (s : Scheduler Addr)
      → Implements n q s
      → (out : List Addr) × (s' : Scheduler Addr) × (q' : List Addr) × (next_servers n s
          ≡ some (out, s'))
        × (rotations n q ≡ some (out, q'))
        × Implements 0 q' s'
  unfolding next_servers rotations
  rounds-Implements zero q s h = ([], s, q, refl, refl, h)
  rounds-Implements (suc n) q s h =
      let (to, s', q', e, f, h') = next_server-Implements n q s h in
      let (out, s'', q'', e', f', h'') = rounds-Implements n q' s' h' in
      (to ∷ out, s'', q'', rw (e, e') refl, rw (f, f') refl, h'')

  -- A scheduler that the factory makes answers any number of requests below 2^64 as the queue of the
  -- weighted expansion of its backends does: each request takes the first address and puts it behind.
  pub make_rotates :
      (backends : List (Backend Addr)) (s : Scheduler Addr) (n : ℕ)
      → make wrr backends ≡ some s
      → n < usize_mod
      → (out : List Addr) × (s' : Scheduler Addr) × (q : List Addr) × (next_servers n s
          ≡ some (out, s'))
        × (rotations n (expand backends) ≡ some (out, q))
        × Implements 0 q s'
  make_rotates backends s n made h =
      rounds-Implements n (expand backends) s (make-Implements backends s n made h)
