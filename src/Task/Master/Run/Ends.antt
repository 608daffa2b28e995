-- ===== src/Task/Master/Run/Ends.antt =====
-- src/task/master.rs: the program comes to its end, and what holds there.
use mathlib.Core.List.{append-nil}
use rxh.Prelude.{
  list_laws, ℕ, ◌≡◌, refl, sym, ap, subst, ◌∙◌, List, [], ◌∷◌, ◌++◌, true, All, All-append,
}
use rxh.Tokio.{Semaphore, Broadcast, Mpsc}
use rxh.Notify.{Notification}
use rxh.Task.Server
use rxh.Task.Server.{
  Phase, loop_head, selecting, initial, dropped, collecting, freeing, freed, finished,
  shutting_down, done, System, Reach, begins, signal,
}
use rxh.Task.Server.Counts.{total, receiver_of}
use rxh.Task.Server.States.{Shows}
use rxh.Task.Server.StateChanges.{state_shown}
use rxh.Task.Server.Work.{draining}
use rxh.Task.Server.Shutdown.{Steps}
use rxh.Task.Server.Shutdown
use rxh.Task.Server.Finish.{shutdown_completes, Reach-Steps}
use rxh.Task.Master.Run
use rxh.Task.Master.Run.{
  joining, ended, Running, Program, server_moves, master_ends, Runs, stay, go,
}
use rxh.Task.Master.Run.Counted.{Reached, Runs-IsSane, started-IsSane}

module _ {sm : Semaphore} {bc : Broadcast Notification} {mp : Mpsc} where
  -- A server comes to be finished.
  finishes :
      (max : ℕ) (s : System sm bc mp)
      → Reach sm bc mp max s
      → draining s.phase ≡ true
      → (n : ℕ) × (t : System sm bc mp) × Steps n s t × (t.phase ≡ finished)
  finishes max s r d = let ((n, t, steps, e, _, _), _) = shutdown_completes r d in (n, t, steps, e)

  -- What stops the server's `select!`, by the signal.
  stops :
      (s : System sm bc mp) (p : Phase)
      → s.phase ≡ p
      → (n : ℕ) × (t : System sm bc mp) × Steps n s t × (draining t.phase ≡ true)
  unfolding draining Server.begin Server.signalled
  stops s initial e = (
    2,
    _,
    Shutdown.go (begins e refl) (Shutdown.go (signal loop_head refl refl) Shutdown.stay),
    refl,
  )
  stops s (selecting q) e = (1, _, Shutdown.go (signal q e refl) Shutdown.stay, refl)
  stops s dropped e = (0, s, Shutdown.stay, ap draining e)
  stops s collecting e = (0, s, Shutdown.stay, ap draining e)
  stops s freeing e = (0, s, Shutdown.stay, ap draining e)
  stops s freed e = (0, s, Shutdown.stay, ap draining e)
  stops s finished e = (0, s, Shutdown.stay, ap draining e)

module _ {sm : Semaphore} {bc : Broadcast Notification} {mp : Mpsc} {sb : Broadcast Unit} where
  Runs-trans :
      {p q r : Program sm bc mp sb}
      → Runs sm bc mp sb p q
      → Runs sm bc mp sb q r
      → Runs sm bc mp sb p r
  Runs-trans stay h = h
  Runs-trans (go step rest) h = go step (Runs-trans rest h)

  -- While the master joins, the steps of one server are steps of the program.
  lift :
      {n : ℕ} (p : Program sm bc mp sb) (before : List (Running sm bc mp sb))
      (r : Running sm bc mp sb) (after : List (Running sm bc mp sb)) (s t : System sm bc mp)
      → Steps n s t
      → p.stage ≡ joining
      → p.servers ≡ before ++ (record r { system = s } ∷ after)
      → (q : Program sm bc mp sb) × Runs sm bc mp sb p q
        × (q.stage ≡ joining)
        × (q.servers ≡ before ++ (record r { system = t } ∷ after))
  unfolding Run.moved
  lift p before r after s _ Shutdown.stay j e = (p, stay, j, e)
  lift p before r after s t (Shutdown.go {t = u} step rest) j e =
      let q = Run.moved sm bc mp sb before (record r { system = s }) after u p in
      let (q', runs, j', e') = lift q before r after u t rest j refl in
      (
        q',
        go (server_moves before (record r { system = s }) after u step e (λ _. j) refl) runs,
        j',
        e',
      )

  abbrev pub Finished : Running sm bc mp sb → Type 0
  Finished r = r.system.phase ≡ finished

  -- The servers of `after` come to be finished, one after the other.
  finish_every :
      (p : Program sm bc mp sb) (before after : List (Running sm bc mp sb))
      → p.stage ≡ joining
      → p.servers ≡ before ++ after
      → All Finished before
      → All Reached after
      → (q : Program sm bc mp sb) × Runs sm bc mp sb p q
        × (q.stage ≡ joining)
        × All Finished q.servers
  finish_every p before [] j e h k =
      (p, stay, j, subst (All Finished) (sym (e ∙ append-nil before)) h)
  finish_every p before (r ∷ after) j e h ((max, reach), k) =
      let (_, s, steps, d) = stops r.system r.system.phase refl in
      let (p', runs, j', e') = lift p before r after r.system s steps j e in
      let (_, t, steps', f) = finishes max s (Reach-Steps reach steps) d in
      let (q, runs', j'', e'') = lift p' before r after s t steps' j' e' in
      let done_one = record r { system = t } in
      let (q', runs'', j3, all) =
        finish_every q (before ++ (done_one ∷ [])) after j'' (simp list_laws e'')
          (All-append Finished before (done_one ∷ []) h (f, tt)) k in
      (q', Runs-trans runs (Runs-trans runs' runs''), j3, all)

  -- The server has finished and shows done.
  abbrev pub IsOver : Running sm bc mp sb → Type 0
  IsOver r = (r.system.phase ≡ finished) × (r.system.state ≡ shutting_down done)

  pub Finished-IsOver :
      (servers : List (Running sm bc mp sb))
      → All Reached servers
      → All Finished servers
      → All IsOver servers
  unfolding Shows
  Finished-IsOver [] h k = tt
  Finished-IsOver (r ∷ servers) ((max, reach), h) (e, k) = (
    (
      e,
      subst (λ p. Shows max p r.system.state (total receiver_of r.system.tasks)) e
          (state_shown reach),
    ),
    Finished-IsOver servers h k,
  )

  -- In every state that the program reaches after the shutdown signal is sent, whatever the servers and
  -- their tasks did before, it can go on to its end, where every server has finished and shows done.
  pub program_completes :
      (limits : List ℕ) (p : Program sm bc mp sb)
      → Runs sm bc mp sb (Run.started sm bc mp sb limits) p
      → p.stage ≡ joining
      → (q : Program sm bc mp sb) × Runs sm bc mp sb p q × (q.stage ≡ ended) × All IsOver q.servers
  unfolding Run.joined
  program_completes limits p runs j =
      let h = Runs-IsSane runs (started-IsSane limits) in
      let (q, more, j', all) = finish_every p [] p.servers j refl tt h.reached in
      let h' = Runs-IsSane more h in
      (
        Run.joined sm bc mp sb q,
        Runs-trans more (go (master_ends j' all refl) stay),
        refl,
        Finished-IsOver q.servers h'.reached all,
      )
