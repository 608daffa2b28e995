-- ===== src/Config/Written/Tests.antt =====
-- src/config: writing and reading a server with two weighted backends.
use rxh.Prelude.{ℕ, ◌≡◌, refl, some, List, [], ◌∷◌}
use rxh.Prelude.Texts.{Text, bytes}
use rxh.Sched.{make, wrr, weighted_round_robin}
use rxh.Config.{Server, Action}
use rxh.Config.Deser.{ok, err, one, many, BackendOption, ForwardOption, to_forward, DeError, other}
use rxh.Config.Deser.Visit.{Entry, listen, forward, name, connections, visit_map}
use rxh.Config.Written.{write_server, read_table}
use rxh.Config.Written.Rejected.{written_unreadable}

abbrev unknown_field : Text → DeError
unknown_field key = other key

abbrev table : List (Entry ℕ)
table =
    connections (ok 50)
    ∷ listen (ok (one 8000))
    ∷ forward (
        ok (
          ForwardOption.simple
            (many (BackendOption.weighted 9000 2 ∷ BackendOption.simple 9001 ∷ []))))
    ∷ name (ok (bytes "main"))
    ∷ []

abbrev server : Server ℕ
server = record {
  listen = 8000 ∷ [];
  patterns =
      record {
        uri = bytes "/";
        action = Action.forward (record {
          backends =
              record { address = 9000; weight = 2 } ∷ record { address = 9001; weight = 1 } ∷ [];
          algorithm = wrr;
          scheduler =
              weighted_round_robin
                (record { cycle = record { values = 9000 ∷ 9000 ∷ 9001 ∷ []; next = 0 } });
        });
      }
      ∷ [];
  max_connections = 50;
  name = some (bytes "main");
  log_name = bytes "unnamed";
}

table-server : visit_map table ≡ ok server
unfolding visit_map to_forward make
table-server = refl

written_unreadable_example :
    visit_map (read_table unknown_field (write_server server))
    ≡ err (other (bytes "max_connections"))
written_unreadable_example = written_unreadable unknown_field table server table-server
