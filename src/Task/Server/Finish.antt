-- ===== src/Task/Server/Finish.antt =====
-- task/server.rs: a server that drains is never stuck, and comes to its end.
use rxh.Prelude.{
  ℕ, zero, suc, ◌<◌, ◌≡◌, refl, ap, subst, List, [], ◌∷◌, true, ◌⊎◌, inl, inr, zero_or_pos, All,
  arith,
}
use rxh.Tokio.{Semaphore, Broadcast, Mpsc}
use rxh.Notify.{Notification}
use rxh.Notify.Counts.{collect-is-got, collect-is-closed, acknowledge-is-some}
use rxh.Task.Server.{
  shutting_down, done, Phase, initial, selecting, dropped, collecting, freeing, freed, finished,
  Stage, serving, acking, leaving, released, parting, Task, System, Step, Reach, next, notifies,
  collects, ends_collecting, frees, completes, serve_ends, acknowledges, drops_permit,
  drops_receiver, drops_sender,
}
use rxh.Task.Server.Counts.{receiver_of, sender_of, total}
use rxh.Task.Server.Account.{Holds}
use rxh.Task.Server.Limits.{over, Reach-Inv, config_outlives_tasks}
use rxh.Task.Server.States.{Shows}
use rxh.Task.Server.StateChanges.{state_shown}
use rxh.Task.Server.Work.{draining, work}
use rxh.Task.Server.Shutdown.{Steps, stay, go, Step-Less}

module _ {sm : Semaphore} {bc : Broadcast Notification} {mp : Mpsc} where
  -- Some step is possible.
  abbrev Goes : System sm bc mp → Type 0
  Goes s = (t : System sm bc mp) × Step sm bc mp s t

  module _ (s : System sm bc mp) where
    -- The first task can go on, if an acknowledgement finds room.
    stage-Goes :
        (k : Task sm bc mp) (after : List (Task sm bc mp)) (g : Stage)
        → s.tasks ≡ k ∷ after
        → mp.queued s.channels.acknowledgements ≡ 0
        → k.stage ≡ g
        → Goes s
    stage-Goes k after serving at q e = (_, serve_ends [] after k at e refl)
    stage-Goes k after acking at q e =
        let (c, a) = acknowledge-is-some s.channels q in (_, acknowledges [] after k c at e a refl)
    stage-Goes k after leaving at q e = (_, drops_permit [] after k at e refl)
    stage-Goes k after released at q e = (_, drops_receiver [] after k at e refl)
    stage-Goes k after parting at q e = (_, drops_sender [] after k at e refl)

    tasks-Goes :
        (tasks : List (Task sm bc mp))
        → s.tasks ≡ tasks
        → mp.queued s.channels.acknowledgements ≡ 0
        → 0 < total sender_of tasks
        → Goes s
    tasks-Goes [] at q n = absurd (omega (arith, n))
    tasks-Goes (k ∷ after) at q n = stage-Goes k after k.stage at q refl

    collecting-Goes : {max : ℕ} → s.phase ≡ collecting → Holds max collecting s → Goes s
    collecting-Goes p h = elim (zero_or_pos (mp.queued s.channels.acknowledgements)) [
      | inr q ↦ let (c, e) = collect-is-got s.channels q in (_, collects c p e refl)
      | inl q ↦ elim (zero_or_pos (mp.senders s.channels.acknowledgements)) [
        | inl n ↦ (_, ends_collecting p (collect-is-closed s.channels q n) refl)
        | inr n ↦ tasks-Goes s.tasks refl q (omega (arith, n, h.senders))
      ]
    ]

    phase-Goes :
        {max : ℕ} (p : Phase)
        → s.phase ≡ p
        → Holds max p s
        → draining p ≡ true
        → (p ≡ finished) ⊎ Goes s
    unfolding draining
    phase-Goes initial e h d = cc
    phase-Goes (selecting q) e h d = cc
    phase-Goes dropped e h d = inr (_, notifies e refl)
    phase-Goes collecting e h d = inr (collecting-Goes e h)
    phase-Goes freeing e h d = inr (_, frees e refl)
    phase-Goes freed e h d = inr (_, completes e refl)
    phase-Goes finished e h d = inl refl

  -- Enough fuel brings the server to its end.
  finish :
      (fuel max : ℕ) (s : System sm bc mp)
      → work s < fuel
      → Reach sm bc mp max s
      → draining s.phase ≡ true
      → (n : ℕ) × (t : System sm bc mp) × Steps n s t × (t.phase ≡ finished)
  finish zero max s l r d = absurd (omega (arith, l))
  finish (suc fuel) max s l r d = elim (phase-Goes s s.phase refl (Reach-Inv r) d) [
    | inl e ↦ (0, s, stay, e)
    | inr (t, step) ↦
        let (d', less) = Step-Less s t step d in
        let (n, u, steps, e) = finish fuel max t (omega (arith, l, less)) (next r step) d' in
        (suc n, u, go step steps, e)
  ]

  pub Reach-Steps :
      {max n : ℕ} {s t : System sm bc mp}
      → Reach sm bc mp max s
      → Steps n s t
      → Reach sm bc mp max t
  Reach-Steps r stay = r
  Reach-Steps r (go step rest) = Reach-Steps (next r step) rest

  -- From every reachable state in which the listener is dropped, the server and its tasks can go on to
  -- a state where the server has finished, shows done, and no task that is left can use the
  -- configuration; and unless the server has finished already, some step is possible.
  pub shutdown_completes :
      {max : ℕ} {s : System sm bc mp}
      → Reach sm bc mp max s
      → draining s.phase ≡ true
      → ((n : ℕ) × (t : System sm bc mp) × Steps n s t
          × (t.phase ≡ finished)
          × (t.state ≡ shutting_down done)
          × All (λ k. k.stage ≡ parting) t.tasks)
        × ((s.phase ≡ finished) ⊎ ((t : System sm bc mp) × Step sm bc mp s t))
  unfolding Shows over
  shutdown_completes {max = max} {s = s} r d =
      let (n, t, steps, e) = finish (suc (work s)) max s (omega arith) r d in
      let r' = Reach-Steps r steps in
      (
        (
          n,
          t,
          steps,
          e,
          subst (λ p. Shows max p t.state (total receiver_of t.tasks)) e (state_shown r'),
          config_outlives_tasks r' (ap over e),
        ),
        phase-Goes s s.phase refl (Reach-Inv r) d,
      )
