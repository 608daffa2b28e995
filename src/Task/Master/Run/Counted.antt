-- ===== src/Task/Master/Run/Counted.antt =====
-- src/task/master.rs: who is subscribed to the shutdown signal while the program runs.
use rxh.Prelude.{
  ℕ, ◌+◌, ◌<◌, ◌≡◌, refl, sym, ap, subst, ◌∙◌, Option, none, some, List, [], ◌∷◌, ◌++◌, map, Bool,
  true, false, All, All-insert, All-middle, ◌⊎◌, inl, inr, zero_or_pos, arith,
}
use rxh.Tokio.{Semaphore, Broadcast, Mpsc}
use rxh.Notify.{Notification}
use rxh.Task.Server
use rxh.Task.Server.{
  Phase, selecting, initial, dropped, collecting, freeing, freed, finished, System, Step, Reach,
  start, next,
}
use rxh.Task.Server.Work.{draining}
use rxh.Task.Server.Shutdown.{Step-Less}
use rxh.Task.Master.Run
use rxh.Task.Master.Run.{
  let_go, joining, panicked, listens, Running, Program, RunStep, server_moves, master_sends,
  master_ends, Runs, stay, go,
}

pub listens-draining : (p : Phase) → listens p ≡ false → draining p ≡ true
unfolding draining
listens-draining initial h = cc
listens-draining (selecting q) h = cc
listens-draining dropped h = refl
listens-draining collecting h = refl
listens-draining freeing h = refl
listens-draining freed h = refl
listens-draining finished h = refl

draining-listens : (p : Phase) → draining p ≡ true → listens p ≡ false
unfolding draining
draining-listens initial h = cc
draining-listens (selecting q) h = cc
draining-listens dropped h = refl
draining-listens collecting h = refl
draining-listens freeing h = refl
draining-listens freed h = refl
draining-listens finished h = refl

abbrev pub one_if : Bool → ℕ
one_if true = 1
one_if false = 0

let_go-counts :
    (sb : Broadcast Unit) (b c : Bool) (receiver : sb.Receiver) (bus : sb.Bus) (rest : ℕ)
    → (b ≡ false → c ≡ false)
    → sb.receivers bus ≡ one_if b + rest
    → sb.receivers (let_go sb b c receiver bus) ≡ one_if c + rest
let_go-counts sb true true receiver bus rest h e = e
let_go-counts sb true false receiver bus rest h e = omega (arith, e, sb.receivers-drop receiver bus)
let_go-counts sb false true receiver bus rest h e = absurd (let f : true ≡ false = h refl in cc)
let_go-counts sb false false receiver bus rest h e = e

module _ {sm : Semaphore} {bc : Broadcast Notification} {mp : Mpsc} where
  pub stops_listening :
      {s t : System sm bc mp}
      → Step sm bc mp s t
      → listens s.phase ≡ false
      → listens t.phase ≡ false
  stops_listening {s} {t} step h =
      draining-listens t.phase (Step-Less s t step (listens-draining s.phase h)).0

module _ {sm : Semaphore} {bc : Broadcast Notification} {mp : Mpsc} {sb : Broadcast Unit} where
  -- How many servers have not come to the end of their `select!`.
  abbrev pub listeners : List (Running sm bc mp sb) → ℕ
  listeners [] = 0
  listeners (r ∷ servers) = one_if (listens r.system.phase) + listeners servers

  -- The server has been reached from its initialization.
  abbrev pub Reached : Running sm bc mp sb → Type 0
  Reached r = (max : ℕ) × Reach sm bc mp max r.system

  pub record IsSane (p : Program sm bc mp sb) : Type 0 where
    pub reached : All Reached p.servers
    pub subscribed : sb.receivers p.shutdown_notify ≡ listeners p.servers

  pub listeners-middle :
      (before : List (Running sm bc mp sb)) (r : Running sm bc mp sb)
      (after : List (Running sm bc mp sb))
      → listeners (before ++ (r ∷ after))
        ≡ one_if (listens r.system.phase) + listeners (before ++ after)
  listeners-middle [] r after = refl
  listeners-middle (x ∷ before) r after = omega (arith, listeners-middle before r after)

module _ (sm : Semaphore) (bc : Broadcast Notification) (mp : Mpsc) (sb : Broadcast Unit) where
  shutdown_on-IsSane :
      (limits : List ℕ) (bus : sb.Bus)
      → (let (servers, bus') =
            Run.shutdown_on sm bc mp sb (map (λ max. Server.init sm bc mp max) limits) bus in
          All Reached servers × (sb.receivers bus' ≡ sb.receivers bus + listeners servers))
  unfolding Run.shutdown_on Server.init
  shutdown_on-IsSane [] bus = (tt, omega arith)
  shutdown_on-IsSane (max ∷ limits) bus =
      let (r, b) = sb.subscribe bus in
      let (all, n) = shutdown_on-IsSane limits b in
      (((max, start), all), omega (arith, n, sb.receivers-subscribe bus))

module _ {sm : Semaphore} {bc : Broadcast Notification} {mp : Mpsc} {sb : Broadcast Unit} where
  moved-IsSane :
      (p : Program sm bc mp sb) (before : List (Running sm bc mp sb)) (r : Running sm bc mp sb)
      (after : List (Running sm bc mp sb)) (t : System sm bc mp)
      → Step sm bc mp r.system t
      → p.servers ≡ before ++ (r ∷ after)
      → IsSane p
      → IsSane (Run.moved sm bc mp sb before r after t p)
  unfolding Run.moved
  moved-IsSane p before r after t step e h =
      let ((max, reach), others) =
        All-middle Reached before r after (subst (All Reached) e h.reached) in
      record {
        reached = All-insert Reached before _ after (max, next reach step) others;
        subscribed =
            let_go-counts sb (listens r.system.phase) (listens t.phase) r.receiver p.shutdown_notify
              (listeners (before ++ after)) (stops_listening step)
              (h.subscribed ∙ ap listeners e ∙ listeners-middle before r after)
            ∙ sym (listeners-middle before (record r { system = t }) after);
      }

  send-IsSane :
      (p : Program sm bc mp sb) (o : Option ℕ) (bus : sb.Bus)
      → sb.receivers bus ≡ sb.receivers p.shutdown_notify
      → IsSane p
      → IsSane (Run.answered sm bc mp sb p (o, bus))
  send-IsSane p none bus e h = record { reached = h.reached; subscribed = e ∙ h.subscribed }
  send-IsSane p (some n) bus e h = record { reached = h.reached; subscribed = e ∙ h.subscribed }

  pub RunStep-IsSane : {p q : Program sm bc mp sb} → RunStep sm bc mp sb p q → IsSane p → IsSane q
  unfolding Run.send_shutdown Run.joined
  RunStep-IsSane {p} (server_moves before r after t step l w e) h =
      subst IsSane (sym e) (moved-IsSane p before r after t step l h)
  RunStep-IsSane {p} (master_sends w e) h = subst IsSane (sym e) (
      send-IsSane p (sb.send tt p.shutdown_notify).0 (sb.send tt p.shutdown_notify).1
        (sb.receivers-send tt p.shutdown_notify) h)
  RunStep-IsSane {p} (master_ends w l e) h =
      subst IsSane (sym e) (record { reached = h.reached; subscribed = h.subscribed })

  pub Runs-IsSane : {p q : Program sm bc mp sb} → Runs sm bc mp sb p q → IsSane p → IsSane q
  Runs-IsSane stay h = h
  Runs-IsSane (go step rest) h = Runs-IsSane rest (RunStep-IsSane step h)

  pub started-IsSane : (limits : List ℕ) → IsSane (Run.started sm bc mp sb limits)
  unfolding Run.started
  started-IsSane limits =
      let (all, n) = shutdown_on-IsSane sm bc mp sb limits sb.bus in
      record { reached = all; subscribed = omega (arith, n, sb.receivers-bus) }

  -- In every state of the program in which the master waits: if every server has come to the end of its
  -- select! (or there are none), the master panics when it sends the shutdown signal; otherwise the
  -- signal is sent and the master goes on to join the servers.
  pub send_cases :
      (limits : List ℕ) (p : Program sm bc mp sb)
      → Runs sm bc mp sb (Run.started sm bc mp sb limits) p
      → ((listeners p.servers ≡ 0) × ((Run.send_shutdown sm bc mp sb p).stage ≡ panicked))
        ⊎ ((0 < listeners p.servers) × ((Run.send_shutdown sm bc mp sb p).stage ≡ joining))
  unfolding Run.send_shutdown
  send_cases limits p runs =
      let h = Runs-IsSane runs (started-IsSane limits) in
      let b = p.shutdown_notify in
      elim (zero_or_pos (sb.receivers b)) [
        | inl z ↦ inl (sym h.subscribed ∙ z, rw (sb.send-none tt b z) refl)
        | inr s ↦ inr (omega (arith, h.subscribed, s), rw (sb.send-some tt b s) refl)
      ]
