-- ===== src/Task/Master/Tests.antt =====
-- src/task/master.rs on two servers, one with two addresses.
use rxh.Prelude.{
  ℕ, ◌<◌, ◌≡◌, refl, true, false, Option, none, some, List, [], ◌∷◌, ◌++◌, map, ◌⊎◌, to_list, All,
}
use rxh.Prelude.Texts.{bytes}
use rxh.Config
use rxh.Tokio.Counters.{counting_broadcast}
use rxh.Task.Master.Ports.{free_ports}
use rxh.Task.Master.{ok, panic, init, init_servers, init_replicas, init_server, then_do, sockets}
use rxh.Task.Master.Replicas.{IsPermitted, Yields, purpose, all_purposes, init-Made}
use rxh.Task.Master.Errors.{
  Joined, returned, failed, join_error, join_all, shut_down, selected, run_end, calm, errors, head,
  finish, run_end_cases,
}

abbrev files_on : List ℕ → Config.Server ℕ
files_on addresses = record {
  listen = addresses;
  patterns = record { uri = bytes "/"; action = Config.serve (bytes "/home") } ∷ [];
  max_connections = 1024;
  name = none;
  log_name = bytes "unnamed";
}

abbrev two_servers : Config.Config ℕ
two_servers = record { servers = files_on (8080 ∷ 8081 ∷ []) ∷ files_on (9090 ∷ []) ∷ [] }

two_servers-Made :
    Yields
      (λ m.
        (map (purpose free_ports) m.servers ≡ all_purposes free_ports two_servers.servers)
        × (sockets free_ports m ≡ map (λ b. b.address) m.servers)
        × All (IsPermitted free_ports) m.servers)
      (init free_ports two_servers tt)
two_servers-Made = init-Made free_ports two_servers tt

abbrev ended : List (Joined ℕ)
ended = returned ∷ failed 5 ∷ returned ∷ failed 6 ∷ []

abbrev joined : Option (Joined ℕ)
joined = some (failed 4)

run_end_cases_example :
    ((((counting_broadcast Unit).receivers (2, none) ≡ 0) ⊎ (calm ended ≡ false))
      × (run_end (counting_broadcast Unit) (2, none) joined ended ≡ panic))
    ⊎ ((0 < (counting_broadcast Unit).receivers (2, none))
        × (calm ended ≡ true)
        × (run_end (counting_broadcast Unit) (2, none) joined ended
            ≡ finish (head (errors (to_list joined) ++ errors ended))))
run_end_cases_example = run_end_cases (counting_broadcast Unit) (2, none) joined ended

-- A server that has panicked before the signal is joined in `select!`, and the program ends well.
unnoticed_panic :
    run_end {Error = ℕ} (counting_broadcast Unit) (2, none) (some join_error) (returned ∷ [])
    ≡ ok tt
unfolding run_end selected shut_down join_all
unnoticed_panic = refl

-- It does succeed, and binds the ports in the order of the configuration.
init_ports :
    Yields (λ m. sockets free_ports m ≡ 8080 ∷ 8081 ∷ 9090 ∷ []) (init free_ports two_servers tt)
unfolding init init_servers sockets then_do init_replicas init_server Config.clone_server
init_ports = refl
