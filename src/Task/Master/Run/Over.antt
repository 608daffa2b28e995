-- ===== src/Task/Master/Run/Over.antt =====
-- src/task/master.rs: a program that has ended has only servers that have finished.
use rxh.Prelude.{
  ℕ, ◌≡◌, sym, ap, subst, ◌∙◌, List, ◌∷◌, ◌++◌, All, All-insert, All-middle, Option, none, some,
}
use rxh.Tokio.{Semaphore, Broadcast, Mpsc}
use rxh.Notify.{Notification}
use rxh.Task.Server
use rxh.Task.Server.{
  finished, System, Step, begins, checks, acquires, accepts, accept_fails, local_addr_fails, signal,
  notifies, collects, ends_collecting, frees, completes, serve_ends, panics, acknowledges,
  drops_permit, drops_receiver, drops_sender,
}
use rxh.Task.Master.Run
use rxh.Task.Master.Run.{
  Stage, waiting, joining, ended, panicked, Running, Program, RunStep, server_moves, master_sends,
  master_ends, Runs, stay, go,
}
use rxh.Task.Master.Run.Counted.{Runs-IsSane, started-IsSane}
use rxh.Task.Master.Run.Ends.{Finished, IsOver, Finished-IsOver}

module _ {sm : Semaphore} {bc : Broadcast Notification} {mp : Mpsc} where
  -- A finished server takes no step of its own, and its tasks do not move it.
  finished_stays :
      {s t : System sm bc mp} → Step sm bc mp s t → s.phase ≡ finished → t.phase ≡ finished
  unfolding Server.serve_end Server.panicked Server.acknowledged Server.drop_permit
      Server.drop_receiver Server.drop_sender
  finished_stays (begins p e) f = cc
  finished_stays (checks p e) f = cc
  finished_stays (acquires again permits p a e) f = cc
  finished_stays (accepts p e) f = cc
  finished_stays (accept_fails p e) f = cc
  finished_stays (local_addr_fails p e) f = cc
  finished_stays (signal q p e) f = cc
  finished_stays (notifies p e) f = cc
  finished_stays (collects channels p c e) f = cc
  finished_stays (ends_collecting p c e) f = cc
  finished_stays (frees p e) f = cc
  finished_stays (completes p e) f = cc
  finished_stays (serve_ends before after k l g e) f = ap (λ s. s.phase) e ∙ f
  finished_stays (panics before after k l g e) f = ap (λ s. s.phase) e ∙ f
  finished_stays (acknowledges before after k channels l g a e) f = ap (λ s. s.phase) e ∙ f
  finished_stays (drops_permit before after k l g e) f = ap (λ s. s.phase) e ∙ f
  finished_stays (drops_receiver before after k l g e) f = ap (λ s. s.phase) e ∙ f
  finished_stays (drops_sender before after k l g e) f = ap (λ s. s.phase) e ∙ f

module _ {sm : Semaphore} {bc : Broadcast Notification} {mp : Mpsc} {sb : Broadcast Unit} where
  -- Where the master has ended, every server has finished.
  AllDone : Stage → List (Running sm bc mp sb) → Type 0
  AllDone ended servers = All Finished servers
  AllDone _ servers = Unit

  answered-AllDone :
      (p : Program sm bc mp sb) (o : Option ℕ) (bus : sb.Bus)
      → (let q = Run.answered sm bc mp sb p (o, bus) in AllDone q.stage q.servers)
  unfolding AllDone
  answered-AllDone p none bus = tt
  answered-AllDone p (some n) bus = tt

  stage-AllDone :
      (g : Stage) (before : List (Running sm bc mp sb)) (r : Running sm bc mp sb)
      (after : List (Running sm bc mp sb)) (t : System sm bc mp)
      → Step sm bc mp r.system t
      → AllDone g (before ++ (r ∷ after))
      → AllDone g (before ++ (record r { system = t } ∷ after))
  unfolding AllDone
  stage-AllDone waiting before r after t step h = tt
  stage-AllDone joining before r after t step h = tt
  stage-AllDone panicked before r after t step h = tt
  stage-AllDone ended before r after t step h =
      let (f, others) = All-middle Finished before r after h in
      All-insert Finished before (record r { system = t }) after (finished_stays step f) others

  RunStep-AllDone :
      {p q : Program sm bc mp sb}
      → RunStep sm bc mp sb p q
      → AllDone p.stage p.servers
      → AllDone q.stage q.servers
  unfolding Run.moved Run.send_shutdown Run.joined
  RunStep-AllDone {p} (server_moves before r after t step l w e) h =
      subst (λ q. AllDone q.stage q.servers) (sym e)
        (stage-AllDone p.stage before r after t step (subst (AllDone p.stage) l h))
  RunStep-AllDone {p} (master_sends w e) h =
      subst (λ q. AllDone q.stage q.servers) (sym e)
        (answered-AllDone p (sb.send tt p.shutdown_notify).0 (sb.send tt p.shutdown_notify).1)
  RunStep-AllDone (master_ends w l e) h =
      subst (λ q. AllDone q.stage q.servers) (sym e) (unfold AllDone in l)

  Runs-AllDone :
      {p q : Program sm bc mp sb}
      → Runs sm bc mp sb p q
      → AllDone p.stage p.servers
      → AllDone q.stage q.servers
  Runs-AllDone stay h = h
  Runs-AllDone (go step rest) h = Runs-AllDone rest (RunStep-AllDone step h)

  -- In every state in which the program has ended, every server has finished and shows done.
  pub ended_servers :
      (limits : List ℕ) (p : Program sm bc mp sb)
      → Runs sm bc mp sb (Run.started sm bc mp sb limits) p
      → p.stage ≡ ended
      → All IsOver p.servers
  unfolding Run.started AllDone
  ended_servers limits p runs e =
      Finished-IsOver p.servers (Runs-IsSane runs (started-IsSane limits)).reached
        (subst (λ g. AllDone g p.servers) e (Runs-AllDone runs tt))
