-- ===== src/Sched/Ready.antt =====
-- sched/wrr.rs: a scheduler that was made keeps serving.
use rxh.Prelude.{◌≡◌, refl, sym, subst, some, List}
use rxh.Ring
use rxh.Ring.Bounds.{IsValid, next_as_ref_total}
use rxh.Sched.{
  Backend, Algorithm, Scheduler, weighted_round_robin, wrr, next_wrr, next_server, make,
}
use rxh.Sched.Expand.{make-IsFresh}

module _ {Addr : Type 0} where
  pub data IsReady : Scheduler Addr → Type 0 where
    ready :
        (ring : Ring.Ring Addr)
        → IsValid ring
        → IsReady (weighted_round_robin (record { cycle = ring }))

  -- There is one algorithm.
  pub make_wrr :
      (k : Algorithm) (backends : List (Backend Addr)) {s : Scheduler Addr}
      → make k backends ≡ some s
      → make wrr backends ≡ some s
  make_wrr wrr backends e = e

  pub make-IsReady :
      (backends : List (Backend Addr)) {s : Scheduler Addr} → make wrr backends ≡ some s → IsReady s
  make-IsReady backends e =
      let f = make-IsFresh backends e in subst IsReady (sym f.wraps) (ready f.ring f.valid)

  pub next_server-IsReady :
      (s : Scheduler Addr)
      → IsReady s
      → (to : Addr) × (s' : Scheduler Addr) × (next_server s ≡ some (to, s')) × IsReady s'
  unfolding next_server next_wrr Ring.next_as_owned
  next_server-IsReady _ (ready ring v) =
      let (to, _, e, _, v') = next_as_ref_total v in (to, _, rw e refl, ready _ v')
