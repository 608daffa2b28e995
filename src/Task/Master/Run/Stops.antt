-- ===== src/Task/Master/Run/Stops.antt =====
-- src/task/master.rs: once every server has come to the end of its `select!`, the program stops,
-- whatever the schedule.
use rxh.Prelude.{
  list_laws, ℕ, suc, ◌+◌, ◌≤◌, ◌<◌, ◌≡◌, refl, sym, ap, subst, ◌∙◌, ◌⊎◌, inl, inr, List, [], ◌∷◌,
  ◌++◌, Bool, true, false, All, Option, none, some, arith,
}
use rxh.Tokio.{Semaphore, Broadcast, Mpsc}
use rxh.Notify.{Notification}
use rxh.Task.Server.{System, Step}
use rxh.Task.Server.Work.{work}
use rxh.Task.Server.Shutdown.{Step-Less}
use rxh.Task.Server.Finish.{shutdown_completes}
use rxh.Task.Master.Run
use rxh.Task.Master.Run.{
  Stage, waiting, joining, ended, panicked, listens, Running, Program, RunStep, server_moves,
  master_sends, master_ends, Runs, stay, go,
}
use rxh.Task.Master.Run.Counted.{
  one_if, listeners, listeners-middle, listens-draining, stops_listening, IsSane, Reached,
  Runs-IsSane, started-IsSane,
}
use rxh.Task.Master.Run.Ends.{Finished}

-- What the master itself has left.
abbrev stage_work : Stage → ℕ
stage_work waiting = 2
stage_work joining = 1
stage_work _ = 0

not_listening : (b : Bool) (rest : ℕ) → one_if b + rest ≡ 0 → (b ≡ false) × (rest ≡ 0)
not_listening true rest h = absurd (omega (arith, h))
not_listening false rest h = (refl, omega (arith, h))

module _ {sm : Semaphore} {bc : Broadcast Notification} {mp : Mpsc} {sb : Broadcast Unit} where
  abbrev works : List (Running sm bc mp sb) → ℕ
  works [] = 0
  works (r ∷ servers) = work r.system + works servers

  works-append : (xs ys : List (Running sm bc mp sb)) → works (xs ++ ys) ≡ works xs + works ys
  works-append [] ys = omega arith
  works-append (r ∷ xs) ys = omega (arith, works-append xs ys)

  -- A bound on the steps that are left to the program.
  abbrev pub program_work : Program sm bc mp sb → ℕ
  program_work p = stage_work p.stage + works p.servers

  abbrev pub count : {p q : Program sm bc mp sb} → Runs sm bc mp sb p q → ℕ
  count stay = 0
  count (go step rest) = suc (count rest)

  answered-work :
      (p : Program sm bc mp sb) (o : Option ℕ) (bus : sb.Bus)
      → p.stage ≡ waiting
      → program_work (Run.answered sm bc mp sb p (o, bus)) < program_work p
  answered-work p none bus e = omega (arith, ap stage_work e)
  answered-work p (some n) bus e = omega (arith, ap stage_work e)

  answered-listeners :
      (p : Program sm bc mp sb) (o : Option ℕ) (bus : sb.Bus)
      → listeners (Run.answered sm bc mp sb p (o, bus)).servers ≡ listeners p.servers
  answered-listeners p none bus = refl
  answered-listeners p (some n) bus = refl

  abbrev Lessens : Program sm bc mp sb → Program sm bc mp sb → Type 0
  Lessens p q = (listeners q.servers ≡ 0) × (program_work q < program_work p)

  moved-Lessens :
      (p : Program sm bc mp sb) (before : List (Running sm bc mp sb)) (r : Running sm bc mp sb)
      (after : List (Running sm bc mp sb)) (t : System sm bc mp)
      → Step sm bc mp r.system t
      → p.servers ≡ before ++ r ∷ after
      → listeners p.servers ≡ 0
      → Lessens p (Run.moved sm bc mp sb before r after t p)
  unfolding Run.moved
  moved-Lessens p before r after t step l h =
      let r' : Running sm bc mp sb = record r { system = t } in
      let (quiet, rest) =
        not_listening (listens r.system.phase) (listeners (before ++ after))
          (sym (listeners-middle before r after) ∙ ap listeners (sym l) ∙ h) in
      let (_, less) = Step-Less r.system t step (listens-draining r.system.phase quiet) in
      (
        listeners-middle before r' after
            ∙ omega (arith, ap one_if (stops_listening step quiet), rest),
        omega (
          arith,
          less,
          ap works l,
          works-append before (r ∷ after),
          works-append before (r' ∷ after),
        ),
      )

  RunStep-Lessens :
      {p q : Program sm bc mp sb} → RunStep sm bc mp sb p q → listeners p.servers ≡ 0 → Lessens p q
  unfolding Run.moved Run.send_shutdown Run.joined
  RunStep-Lessens {p} (server_moves before r after t step l w e) h =
      subst (Lessens p) (sym e) (moved-Lessens p before r after t step l h)
  RunStep-Lessens {p} (master_sends w e) h =
      let (o, bus) = sb.send tt p.shutdown_notify in
      subst (Lessens p) (sym e) (answered-listeners p o bus ∙ h, answered-work p o bus w)
  RunStep-Lessens {p} (master_ends w l e) h =
      subst (Lessens p) (sym e) (h, omega (arith, ap stage_work w))

  Runs-bounded :
      {p q : Program sm bc mp sb} (runs : Runs sm bc mp sb p q)
      → listeners p.servers ≡ 0
      → (count runs + program_work q ≤ program_work p) × (listeners q.servers ≡ 0)
  Runs-bounded stay h = (omega arith, h)
  Runs-bounded (go step rest) h =
      let (h', less) = RunStep-Lessens step h in
      let (bound, quiet) = Runs-bounded rest h' in (omega (arith, less, bound), quiet)

  -- Some step is possible.
  abbrev pub Goes : Program sm bc mp sb → Type 0
  Goes p = (q : Program sm bc mp sb) × RunStep sm bc mp sb p q

  -- All have finished, or a server that has not can go on.
  servers-Goes :
      (p : Program sm bc mp sb) (before servers : List (Running sm bc mp sb))
      → p.stage ≡ joining
      → p.servers ≡ before ++ servers
      → listeners servers ≡ 0
      → All Reached servers
      → All Finished servers ⊎ Goes p
  servers-Goes p before [] j l h k = inl tt
  servers-Goes p before (r ∷ servers) j l h ((max, reach), k) =
      let (quiet, rest) = not_listening (listens r.system.phase) (listeners servers) h in
      elim (shutdown_completes reach (listens-draining r.system.phase quiet)).1 [
        | inr (t, step) ↦ inr (_, server_moves before r servers t step l (λ _. j) refl)
        | inl f ↦ elim (servers-Goes p (before ++ r ∷ []) servers j (simp list_laws l) rest k) [
          | inl all ↦ inl (f, all)
          | inr step ↦ inr step
        ]
      ]

  stage-Goes :
      (p : Program sm bc mp sb) (g : Stage)
      → p.stage ≡ g
      → listeners p.servers ≡ 0
      → IsSane p
      → (g ≡ ended) ⊎ (g ≡ panicked) ⊎ Goes p
  stage-Goes p ended e h k = inl refl
  stage-Goes p panicked e h k = inr (inl refl)
  stage-Goes p waiting e h k = inr (inr (_, master_sends e refl))
  stage-Goes p joining e h k = elim (servers-Goes p [] p.servers e refl h k.reached) [
    | inl all ↦ inr (inr (_, master_ends e all refl))
    | inr step ↦ inr (inr step)
  ]

  -- From every state that the program reaches in which every server has come to the end of its
  -- select!, whatever the schedule of the servers, their tasks and the master: a run has at most as
  -- many steps as there is work, what work remains is bounded by the difference, and unless the
  -- program has ended or the master has panicked, some step is possible.
  pub program_stops :
      (limits : List ℕ) (p q : Program sm bc mp sb)
      → Runs sm bc mp sb (Run.started sm bc mp sb limits) p
      → listeners p.servers ≡ 0
      → (runs : Runs sm bc mp sb p q)
      → (count runs + program_work q ≤ program_work p)
        × ((q.stage ≡ ended)
            ⊎ (q.stage ≡ panicked)
            ⊎ ((t : Program sm bc mp sb) × RunStep sm bc mp sb q t))
  program_stops limits p q before h runs =
      let (bound, quiet) = Runs-bounded runs h in
      let sane = Runs-IsSane runs (Runs-IsSane before (started-IsSane limits)) in
      (bound, stage-Goes q q.stage refl quiet sane)
