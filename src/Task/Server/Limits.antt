-- ===== src/Task/Server/Limits.antt =====
-- task/server.rs: what always holds while a server runs: the limit on connections, and the life of the
-- configuration.
use rxh.Prelude.{ℕ, ◌+◌, ◌≡◌, refl, sym, subst, List, [], ◌∷◌, Bool, true, false, All, arith}
use rxh.Tokio.{Semaphore, Broadcast, Mpsc}
use rxh.Notify.{Notification}
use rxh.Task.Server.{
  Phase, initial, selecting, dropped, collecting, freeing, freed, finished, Stage, serving, acking,
  leaving, released, parting, Task, System, Step, Reach, start, next, begins, checks, acquires,
  accepts, accept_fails, local_addr_fails, signal, notifies, collects, ends_collecting, frees,
  completes, serve_ends, panics, acknowledges, drops_permit, drops_receiver, drops_sender,
}
use rxh.Task.Server.Counts.{permit_of, receiver_of, total}
use rxh.Task.Server.Account.{
  Account, held, Holds, Inv, init-Inv, begin-Inv, check_permits-Inv, acquired-Inv, spawn-Inv,
  accept_failed-Inv, local_addr_failed-Inv, signalled-Inv,
}
use rxh.Task.Server.Invariant.{
  notify-Inv, collected-Inv, all_collected-Inv, free_config-Inv, complete-Inv, serve_end-Inv,
  panicked-Inv, acknowledged-Inv, drop_permit-Inv, drop_receiver-Inv, drop_sender-Inv,
}

-- Nothing more is waited for: the configuration is about to be dropped, or is dropped.
unfoldable pub over : Phase → Bool
over freeing = true
over freed = true
over finished = true
over _ = false

not_user : (g : Stage) → receiver_of g ≡ 0 → g ≡ parting
not_user serving e = absurd (omega (arith, e))
not_user acking e = absurd (omega (arith, e))
not_user leaving e = absurd (omega (arith, e))
not_user released e = absurd (omega (arith, e))
not_user parting e = refl

over-users : (p : Phase) (n ts users : ℕ) → over p ≡ true → Account p n ts users → users ≡ 0
unfolding over
over-users initial n ts users o a = cc
over-users (selecting q) n ts users o a = cc
over-users dropped n ts users o a = cc
over-users collecting n ts users o a = cc
over-users freeing n ts users o a = a
over-users freed n ts users o a = a
over-users finished n ts users o a = a

module _ {sm : Semaphore} {bc : Broadcast Notification} {mp : Mpsc} where
  -- The invariant at a phase that is known.
  at : {max : ℕ} {s : System sm bc mp} (p : Phase) → s.phase ≡ p → Inv max s → Holds max p s
  at {max = max} {s = s} p e h = subst (λ p. Holds max p s) e h

  module _ {max : ℕ} {s t : System sm bc mp} where
    pub Step-Inv : Step sm bc mp s t → Inv max s → Inv max t
    Step-Inv (begins p e) h = subst (Inv max) (sym e) (begin-Inv (at _ p h))
    Step-Inv (checks p e) h = subst (Inv max) (sym e) (check_permits-Inv (at _ p h))
    Step-Inv (acquires again permits p a e) h =
        subst (Inv max) (sym e) (acquired-Inv again permits a (at _ p h))
    Step-Inv (accepts p e) h = subst (Inv max) (sym e) (spawn-Inv (at _ p h))
    Step-Inv (accept_fails p e) h = subst (Inv max) (sym e) (accept_failed-Inv (at _ p h))
    Step-Inv (local_addr_fails p e) h = subst (Inv max) (sym e) (local_addr_failed-Inv (at _ p h))
    Step-Inv (signal q p e) h = subst (Inv max) (sym e) (signalled-Inv q (at _ p h))
    Step-Inv (notifies p e) h = subst (Inv max) (sym e) (notify-Inv (at _ p h))
    Step-Inv (collects channels p c e) h = subst (Inv max) (sym e) (collected-Inv channels c h)
    Step-Inv (ends_collecting p c e) h = subst (Inv max) (sym e) (all_collected-Inv c (at _ p h))
    Step-Inv (frees p e) h = subst (Inv max) (sym e) (free_config-Inv (at _ p h))
    Step-Inv (completes p e) h = subst (Inv max) (sym e) (complete-Inv (at _ p h))
    Step-Inv (serve_ends before after k l g e) h =
        subst (Inv max) (sym e) (serve_end-Inv before after k l h g)
    Step-Inv (panics before after k l g e) h =
        subst (Inv max) (sym e) (panicked-Inv before after k l h g)
    Step-Inv (acknowledges before after k channels l g a e) h =
        subst (Inv max) (sym e) (acknowledged-Inv before after k l h channels g a)
    Step-Inv (drops_permit before after k l g e) h =
        subst (Inv max) (sym e) (drop_permit-Inv before after k l h g)
    Step-Inv (drops_receiver before after k l g e) h =
        subst (Inv max) (sym e) (drop_receiver-Inv before after k l h g)
    Step-Inv (drops_sender before after k l g e) h =
        subst (Inv max) (sym e) (drop_sender-Inv before after k l h g)

  pub Reach-Inv : {max : ℕ} {s : System sm bc mp} → Reach sm bc mp max s → Inv max s
  Reach-Inv {max = max} start = init-Inv max
  Reach-Inv (next r step) = Step-Inv step (Reach-Inv r)

  -- In every state that a server with max_connections reaches, the free permits, the tasks that still
  -- hold one, and the one that listen holds while it accepts, make up max_connections.
  pub connections_limited :
      {max : ℕ} {s : System sm bc mp}
      → Reach sm bc mp max s
      → sm.available s.connections + total permit_of s.tasks + held s.phase ≡ max
  connections_limited r = (Reach-Inv r).permits

  only_parting :
      (tasks : List (Task sm bc mp))
      → total receiver_of tasks ≡ 0
      → All (λ k. k.stage ≡ parting) tasks
  only_parting [] e = tt
  only_parting (k ∷ tasks) e =
      (not_user k.stage (omega (arith, e)), only_parting tasks (omega (arith, e)))

  -- In every reachable state where the configuration is about to be dropped or is dropped, the
  -- connection of every task that is left has ended, and the task is only about to drop the sender of
  -- its subscription.
  pub config_outlives_tasks :
      {max : ℕ} {s : System sm bc mp}
      → Reach sm bc mp max s
      → over s.phase ≡ true
      → All (λ k. k.stage ≡ parting) s.tasks
  config_outlives_tasks {s = s} r o =
      only_parting s.tasks (over-users s.phase _ _ _ o (Reach-Inv r).senders)
