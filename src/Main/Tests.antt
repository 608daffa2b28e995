-- ===== src/Main/Tests.antt =====
-- src/main.rs on a file with one server, and on none.
use mathlib.Core.List.{Memᴰ}
use rxh.Prelude.{arith}
use rxh.Prelude.{none, map, ℕ, ◌≡◌, ◌≢◌, refl, List, [], ◌∷◌, ◌++◌, ◌⊎◌, inl, inr}
use rxh.Prelude.Texts.{Text, bytes}
use rxh.Tokio.Counters.{counting_semaphore, counting_broadcast, counting_mpsc}
use rxh.Notify.{Notification}
use rxh.Config.Deser
use rxh.Config.Deser.{DeError, many, ForwardOption, BackendOption, to_forward}
use rxh.Sched.{make}
use rxh.Config.Deser.Panics.{Blamed}
use rxh.Config.Deser.Visit.{Entry, connections, listen, serve, forward, visit_map}
use rxh.Config
use rxh.Config.{clone_server}
use rxh.Task.Server
use rxh.Task.Master.Run
use rxh.Task.Master.{
  sockets, init, init_servers, init_replicas, init_server, bind_server, then_do, Master, ok, err,
  panic, Outcome,
}
use rxh.Task.Master.Failures.{SocketFails}
use rxh.Task.Master.Ports.{free_ports}
use rxh.Task.Master.Replicas.{Yields}
use rxh.Task.Master.Run.{Program}
use rxh.Main.{
  Error, io, toml, Files, read_servers, from_str, lift_toml, lift_io, run_program, start, main,
  display,
}
use rxh.Main.Launch.{made_for, IsConfigured, main-IsConfigured}
use rxh.Main.Outcomes.{IsWorking}
use rxh.Main.Starts.{main_starts}
use rxh.Main.Panics.{Overloaded, main_panics}
use rxh.Main.Errors.{main_errors}

-- One server on two ports.
abbrev table : List (Entry ℕ)
table = serve (Deser.ok (bytes "/home")) ∷ listen (Deser.ok (Deser.many (8080 ∷ 8081 ∷ []))) ∷ []

abbrev on_disk : Files ℕ ℕ Unit
on_disk = record { read_to_string = λ name o. (inr name, o); tables = λ text. inr (table ∷ []) }

abbrev no_disk : Files ℕ ℕ Unit
no_disk = record { read_to_string = λ name o. (inl 2, o); tables = λ text. inr [] }

abbrev Made : Type 0
Made =
    Master free_ports
    × Program counting_semaphore (counting_broadcast Notification) counting_mpsc
        (counting_broadcast Unit)

abbrev outcome : Files ℕ ℕ Unit → Outcome (Error ℕ ℕ) Made × free_ports.Os
outcome files =
    main ℕ free_ports files counting_semaphore (counting_broadcast Notification) counting_mpsc
      (counting_broadcast Unit) tt

main-IsConfigured_example :
    Yields
      (λ r.
        (text : Text) × ((on_disk.read_to_string (bytes "rxh.toml") tt).0 ≡ inr text)
        × IsConfigured ℕ free_ports on_disk counting_semaphore
            (counting_broadcast Notification)
            counting_mpsc
            (counting_broadcast Unit)
            text
            r)
      (outcome on_disk)
main-IsConfigured_example =
    main-IsConfigured ℕ free_ports on_disk counting_semaphore (counting_broadcast Notification)
      counting_mpsc (counting_broadcast Unit) tt

-- A forward without weight.
abbrev light_disk : Files ℕ ℕ Unit
light_disk = record {
  read_to_string = λ name o. (inr name, o);
  tables = λ text. inr (
      ((forward (Deser.ok (ForwardOption.simple (many (BackendOption.weighted 9000 0 ∷ []))))) ∷ [])
      ∷ []);
}

light_test : (outcome light_disk).0 ≡ panic
unfolding main then_do read_servers from_str lift_toml visit_map to_forward make
light_test = refl

main_panics_example :
    ((text : Text) × ((light_disk.read_to_string (bytes "rxh.toml") tt).0 ≡ inr text)
      × ((tables : List (List (Entry ℕ))) × (light_disk.tables text ≡ inr tables)
          × (es : List (Entry ℕ)) × Memᴰ es tables
          × Blamed es)
      × ((outcome light_disk).0 ≡ panic))
    ⊎ ((text : Text) × ((light_disk.read_to_string (bytes "rxh.toml") tt).0 ≡ inr text)
        × Overloaded free_ports
            (λ l. (l, refl))
            ℕ
            light_disk
            counting_semaphore
            (counting_broadcast Notification)
            counting_mpsc
            (counting_broadcast Unit)
            text
        × (((outcome light_disk).0 ≡ panic)
            ⊎ ((f : ℕ) × SocketFails free_ports f × ((outcome light_disk).0 ≡ err (io f)))))
    ⊎ ((outcome light_disk).0 ≢ panic)
main_panics_example =
    main_panics free_ports (λ l. (l, refl)) ℕ light_disk counting_semaphore
      (counting_broadcast Notification) counting_mpsc (counting_broadcast Unit) tt

-- A limit above the greatest of a semaphore.
abbrev great_table : List (Entry ℕ)
great_table = connections (Deser.ok 4611686018427387904) ∷ table

abbrev great_disk : Files ℕ ℕ Unit
great_disk = record {
  read_to_string = λ name o. (inr name, o);
  tables = λ text. inr (great_table ∷ []);
}

great_limit_test : (outcome great_disk).0 ≡ panic
unfolding main then_do read_servers from_str lift_toml lift_io visit_map init init_servers
    init_replicas init_server bind_server clone_server start Deser.one_or_many
great_limit_test = refl

abbrev missing : Error ℕ ℕ
missing = io 2

no_file : (outcome no_disk).0 ≡ err missing
unfolding main then_do
no_file = refl

abbrev anything : {A : Type 0} → A → Text
anything a = bytes "it"

main_errors_example :
    ((f : ℕ) × ((no_disk.read_to_string (bytes "rxh.toml") tt).0 ≡ inl f)
      × (missing ≡ io f)
      × (display anything anything anything missing ≡ bytes "IO error: " ++ bytes "it"))
    ⊎ ((text : Text) × (d : DeError) × ((no_disk.read_to_string (bytes "rxh.toml") tt).0 ≡ inr text)
        × (from_str (no_disk.tables text) ≡ Deser.err d)
        × (missing ≡ toml d)
        × (display anything anything anything missing ≡ bytes "TOML parse error: " ++ bytes "it"))
    ⊎ ((text : Text) × (config : Config.Config ℕ) × (f : ℕ) × ((no_disk.read_to_string
            (bytes "rxh.toml")
            tt).0
          ≡ inr text)
        × (from_str (no_disk.tables text) ≡ Deser.ok config)
        × SocketFails free_ports f
        × (missing ≡ io f)
        × (display anything anything anything missing ≡ bytes "IO error: " ++ bytes "it"))
main_errors_example =
    main_errors free_ports no_disk counting_semaphore (counting_broadcast Notification)
      counting_mpsc (counting_broadcast Unit) anything anything anything tt missing no_file

abbrev server : Config.Server ℕ
server = record {
  listen = 8080 ∷ 8081 ∷ [];
  patterns = record { uri = bytes "/"; action = Config.serve (bytes "/home") } ∷ [];
  max_connections = 1024;
  name = none;
  log_name = bytes "unnamed";
}

table-server : read_servers (table ∷ []) ≡ Deser.ok (server ∷ [])
unfolding read_servers visit_map Deser.one_or_many
table-server = refl

free_ports-IsWorking : IsWorking free_ports
free_ports-IsWorking = record {
  new_v4 = λ o. (0, refl);
  new_v6 = λ o. (0, refl);
  set_reuseaddr = λ s o. (s, refl);
  bind = λ s a o. (a, refl);
  listen = λ s n o. (s, refl);
}

main_starts_example :
    (m : Master free_ports) × (p : Program counting_semaphore
      (counting_broadcast Notification)
      counting_mpsc
      (counting_broadcast Unit))
    × ((outcome on_disk).0 ≡ ok (m, p))
    × (map (made_for free_ports) m.servers ≡ (server, 8080) ∷ (server, 8081) ∷ [])
    × (p
        ≡ Run.started counting_semaphore
            (counting_broadcast Notification)
            counting_mpsc
            (counting_broadcast Unit)
            (1024 ∷ 1024 ∷ []))
main_starts_example =
    main_starts ℕ free_ports on_disk counting_semaphore (counting_broadcast Notification)
      counting_mpsc (counting_broadcast Unit) (λ l. (l, refl)) free_ports-IsWorking
      (bytes "rxh.toml") (table ∷ []) (server ∷ []) tt refl refl table-server
      (omega arith, (omega arith, tt))

-- The file with one server comes to run it, on its two ports and with the default limit for each.
served_ports :
    Yields
      (λ r.
        (sockets free_ports r.0 ≡ 8080 ∷ 8081 ∷ [])
        × (map (λ s. s.system.max_connections) r.1.servers ≡ 1024 ∷ 1024 ∷ []))
      (outcome on_disk)
unfolding main then_do read_servers from_str lift_toml lift_io visit_map init init_servers
    init_replicas init_server bind_server sockets clone_server run_program start Run.started
    Run.shutdown_on Server.init Deser.one_or_many
served_ports = (refl, refl)
