-- ===== src/Task/Master/Run/Limits.antt =====
-- src/task/master.rs: the connections of every server while the program runs.
use rxh.Prelude.{
  ℕ, ◌+◌, ◌≡◌, refl, sym, ap, subst, ◌∙◌, List, [], ◌∷◌, map, map-replace, All, All-middle, Option,
  none, some,
}
use rxh.Tokio.{Semaphore, Broadcast, Mpsc}
use rxh.Notify.{Notification}
use rxh.Task.Server
use rxh.Task.Server.{next}
use rxh.Task.Server.Counts.{total, permit_of}
use rxh.Task.Server.Account.{held}
use rxh.Task.Server.Limits.{connections_limited}
use rxh.Task.Server.StateChanges.{Reach-Shown}
use rxh.Task.Master.Run
use rxh.Task.Master.Run.{
  Running, Program, RunStep, server_moves, master_sends, master_ends, Runs, stay, go,
}
use rxh.Task.Master.Run.Counted.{IsSane, Reached, RunStep-IsSane, Runs-IsSane, started-IsSane}

module _ (sm : Semaphore) (bc : Broadcast Notification) (mp : Mpsc) (sb : Broadcast Unit) where
  abbrev limits_of : List (Running sm bc mp sb) → List ℕ
  limits_of servers = map (λ r. r.system.max_connections) servers

  answered-limits :
      (p : Program sm bc mp sb) (o : Option ℕ) (bus : sb.Bus)
      → (Run.answered sm bc mp sb p (o, bus)).servers ≡ p.servers
  answered-limits p none bus = refl
  answered-limits p (some n) bus = refl

  RunStep-limits :
      (p q : Program sm bc mp sb)
      → RunStep sm bc mp sb p q
      → IsSane p
      → limits_of q.servers ≡ limits_of p.servers
  unfolding Run.moved Run.send_shutdown Run.joined
  RunStep-limits p q (server_moves before r after t step l w e) h =
      let ((max, reach), _) = All-middle Reached before r after (subst (All Reached) l h.reached) in
      let kept = (Reach-Shown (next reach step)).limit ∙ sym (Reach-Shown reach).limit in
      ap (λ q. limits_of q.servers) e
      ∙ map-replace (λ r. r.system.max_connections) before (record r { system = t }) r after kept
      ∙ ap limits_of (sym l)
  RunStep-limits p q (master_sends w e) h =
      ap (λ q. limits_of q.servers) e
      ∙ ap limits_of
          (answered-limits p (sb.send tt p.shutdown_notify).0 (sb.send tt p.shutdown_notify).1)
  RunStep-limits p q (master_ends w l e) h = ap (λ q. limits_of q.servers) e

  Runs-limits :
      (p q : Program sm bc mp sb)
      → Runs sm bc mp sb p q
      → IsSane p
      → limits_of q.servers ≡ limits_of p.servers
  Runs-limits p _ stay h = refl
  Runs-limits p q (go {q = u} step rest) h =
      Runs-limits u q rest (RunStep-IsSane step h) ∙ RunStep-limits p u step h

  started-limits :
      (limits : List ℕ) (bus : sb.Bus)
      → limits_of (Run.shutdown_on sm bc mp sb (map (λ max. Server.init sm bc mp max) limits) bus).0
        ≡ limits
  unfolding Run.shutdown_on Server.init
  started-limits [] bus = refl
  started-limits (max ∷ limits) bus = ap (λ l. max ∷ l) (started-limits limits (sb.subscribe bus).1)

  -- The permits of a server make up its limit.
  abbrev pub IsBalanced : Running sm bc mp sb → Type 0
  IsBalanced r =
      sm.available r.system.connections + total permit_of r.system.tasks + held r.system.phase
      ≡ r.system.max_connections

  All-IsBalanced :
      (servers : List (Running sm bc mp sb)) → All Reached servers → All IsBalanced servers
  All-IsBalanced [] h = tt
  All-IsBalanced (r ∷ servers) ((max, reach), h) =
      (connections_limited reach ∙ sym (Reach-Shown reach).limit, All-IsBalanced servers h)

  -- In every state of the program, the servers have the limits that they were initialized with, in
  -- their order; and in each of them the free permits, the tasks that still hold one, and the one
  -- that listen holds while it accepts, make up its limit.
  pub servers_limited :
      (limits : List ℕ) (p : Program sm bc mp sb)
      → Runs sm bc mp sb (Run.started sm bc mp sb limits) p
      → (map (λ r. r.system.max_connections) p.servers ≡ limits) × All IsBalanced p.servers
  unfolding Run.started
  servers_limited limits p runs =
      let h = started-IsSane {sb = sb} limits in
      (
        Runs-limits _ p runs h ∙ started-limits limits sb.bus,
        All-IsBalanced p.servers (Runs-IsSane runs h).reached,
      )
