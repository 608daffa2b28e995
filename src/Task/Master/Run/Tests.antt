-- ===== src/Task/Master/Run/Tests.antt =====
-- master.rs and server.rs on concrete runs: two servers that are shut down before they begin, and one
-- that is shut down while it listens.
use rxh.Prelude.{◌+◌, ◌≤◌, ℕ, ◌<◌, ◌≡◌, refl, ◌⊎◌, [], ◌∷◌, map, List, All}
use rxh.Tokio.Counters.{counting_semaphore, counting_broadcast, counting_mpsc}
use rxh.Notify
use rxh.Notify.{Notification}
use rxh.Task.Server
use rxh.Task.Server.{System, loop_head, begins, signal, notifies, frees, completes}
use rxh.Task.Master.Run
use rxh.Task.Master.Run.{
  joining, RunStep, ended, panicked, Running, Program, Runs, server_moves, master_sends,
  master_ends, stay, go,
}
use rxh.Task.Master.Run.Counted.{listeners, send_cases}
use rxh.Task.Master.Run.Ends.{IsOver, program_completes}
use rxh.Task.Master.Run.Over.{ended_servers}
use rxh.Task.Master.Run.Stops.{count, program_work, program_stops}
use rxh.Task.Master.Run.Limits.{IsBalanced, servers_limited}

abbrev Sys : Type 0
Sys = System counting_semaphore (counting_broadcast Notification) counting_mpsc

abbrev Single : Type 0
Single =
    Running counting_semaphore (counting_broadcast Notification) counting_mpsc
      (counting_broadcast Unit)

abbrev Prog : Type 0
Prog =
    Program counting_semaphore (counting_broadcast Notification) counting_mpsc
      (counting_broadcast Unit)

abbrev begun : List ℕ → Prog
begun limits =
    Run.started counting_semaphore (counting_broadcast Notification) counting_mpsc
      (counting_broadcast Unit) limits

abbrev Goes : Prog → Prog → Type 0
Goes p q =
    Runs counting_semaphore (counting_broadcast Notification) counting_mpsc
      (counting_broadcast Unit) p q

abbrev OneStep : Prog → Prog → Type 0
OneStep p q =
    RunStep counting_semaphore (counting_broadcast Notification) counting_mpsc
      (counting_broadcast Unit) p q

abbrev sent : Prog → Prog
sent p =
    Run.send_shutdown counting_semaphore (counting_broadcast Notification) counting_mpsc
      (counting_broadcast Unit) p

send_cases_example :
    ((listeners (begun (1 ∷ 2 ∷ [])).servers ≡ 0) × ((sent (begun (1 ∷ 2 ∷ []))).stage ≡ panicked))
    ⊎ ((0 < listeners (begun (1 ∷ 2 ∷ [])).servers) × ((sent (begun (1 ∷ 2 ∷ []))).stage ≡ joining))
unfolding Run.started Run.shutdown_on Server.init
send_cases_example =
    send_cases {sb = counting_broadcast Unit} (1 ∷ 2 ∷ []) (begun (1 ∷ 2 ∷ [])) stay

two_sent-Runs : Goes (begun (1 ∷ 2 ∷ [])) (sent (begun (1 ∷ 2 ∷ [])))
unfolding Run.started Run.shutdown_on Server.init
two_sent-Runs = go (master_sends refl refl) stay

program_completes_example :
    (q : Prog) × Goes (sent (begun (1 ∷ 2 ∷ []))) q × (q.stage ≡ ended) × All IsOver q.servers
unfolding Run.started Run.shutdown_on Server.init Run.send_shutdown
program_completes_example =
    program_completes (1 ∷ 2 ∷ []) (sent (begun (1 ∷ 2 ∷ []))) two_sent-Runs refl

servers_limited_example :
    (map (λ r. r.system.max_connections) (sent (begun (1 ∷ 2 ∷ []))).servers ≡ 1 ∷ 2 ∷ [])
    × All
        (IsBalanced counting_semaphore
          (counting_broadcast Notification)
          counting_mpsc
          (counting_broadcast Unit))
        (sent (begun (1 ∷ 2 ∷ []))).servers
servers_limited_example =
    servers_limited counting_semaphore (counting_broadcast Notification) counting_mpsc
      (counting_broadcast Unit) (1 ∷ 2 ∷ []) (sent (begun (1 ∷ 2 ∷ []))) two_sent-Runs

-- One server, which begins, and its steps to the end: nobody is connected.
abbrev at_sys : Sys → Single
at_sys s = record { system = s; receiver = tt }

abbrev turns : Sys → Sys → Prog → Prog
turns s t p =
    Run.moved counting_semaphore (counting_broadcast Notification) counting_mpsc
      (counting_broadcast Unit) [] (at_sys s) [] t p

abbrev fresh : Sys
fresh = Server.init counting_semaphore (counting_broadcast Notification) counting_mpsc 3

abbrev up : Sys
up = Server.begin counting_semaphore (counting_broadcast Notification) counting_mpsc fresh

abbrev down : Sys
down =
    Server.signalled counting_semaphore (counting_broadcast Notification) counting_mpsc loop_head up

abbrev told : Sys
told = Server.notify counting_semaphore (counting_broadcast Notification) counting_mpsc down

abbrev without_config : Sys
without_config =
    Server.free_config counting_semaphore (counting_broadcast Notification) counting_mpsc told

abbrev over_with : Sys
over_with =
    Server.complete counting_semaphore (counting_broadcast Notification) counting_mpsc
      without_config

abbrev listening_up : Prog
listening_up = turns fresh up (begun (3 ∷ []))

abbrev closing : Prog
closing =
    turns without_config over_with
      (turns told without_config (turns down told (turns up down (sent listening_up))))

abbrev last : Prog
last =
    Run.joined counting_semaphore (counting_broadcast Notification) counting_mpsc
      (counting_broadcast Unit) closing

last-Runs : Goes (begun (3 ∷ [])) last
unfolding Run.started Run.shutdown_on Run.send_shutdown Run.moved Run.joined Run.is_signal
    Server.init Server.begin Server.signalled Server.notify Server.free_config Server.complete
    Notify.new Notify.send
last-Runs =
    go (server_moves [] (at_sys fresh) [] up (begins refl refl) refl (λ h. absurd (cc)) refl) (
      go (master_sends refl refl) (
        go (server_moves [] (at_sys up) [] down (signal loop_head refl refl) refl (λ h. refl) refl)
          (go (server_moves [] (at_sys down) [] told (notifies refl refl) refl (λ h. refl) refl) (
            go
              (server_moves [] (at_sys told) [] without_config (frees refl refl) refl (λ h. refl)
                refl)
              (go
                (server_moves [] (at_sys without_config) [] over_with (completes refl refl) refl
                  (λ h. refl) refl)
                (go (master_ends refl (refl, tt) refl) stay))))))

abbrev hushed : Prog
hushed = turns up down (sent listening_up)

hushed-Runs : Goes (begun (3 ∷ [])) hushed
unfolding Run.started Run.shutdown_on Run.send_shutdown Run.moved Run.joined Run.is_signal
    Server.init Server.begin Server.signalled Server.notify Server.free_config Server.complete
    Notify.new Notify.send
hushed-Runs =
    go (server_moves [] (at_sys fresh) [] up (begins refl refl) refl (λ h. absurd (cc)) refl) (
      go (master_sends refl refl) (
        go (server_moves [] (at_sys up) [] down (signal loop_head refl refl) refl (λ h. refl) refl)
          stay))

one_more : Goes hushed (turns down told hushed)
unfolding Run.started Run.shutdown_on Run.send_shutdown Run.moved Run.joined Run.is_signal
    Server.init Server.begin Server.signalled Server.notify Server.free_config Server.complete
    Notify.new Notify.send
one_more =
    go (server_moves [] (at_sys down) [] told (notifies refl refl) refl (λ h. refl) refl) stay

program_stops_example :
    (count one_more + program_work (turns down told hushed) ≤ program_work hushed)
    × (((turns down told hushed).stage ≡ ended)
        ⊎ ((turns down told hushed).stage ≡ panicked)
        ⊎ ((t : Prog) × OneStep (turns down told hushed) t))
unfolding Run.started Run.shutdown_on Run.send_shutdown Run.moved Run.joined Run.is_signal
    Server.init Server.begin Server.signalled Server.notify Server.free_config Server.complete
    Notify.new Notify.send
program_stops_example =
    program_stops (3 ∷ []) hushed (turns down told hushed) hushed-Runs refl one_more

ended_servers_example : All IsOver last.servers
unfolding Run.started Run.shutdown_on Run.send_shutdown Run.moved Run.joined Server.init
    Server.begin Server.signalled Server.notify Server.free_config Server.complete Notify.new
    Notify.send
ended_servers_example = ended_servers (3 ∷ []) last last-Runs refl
