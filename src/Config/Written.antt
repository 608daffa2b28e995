-- ===== src/Config/Written.antt =====
-- src/config/mod.rs: the derived `Serialize` of a configuration, and the keys by which `Field` of
-- src/config/deser.rs recognizes what stands in a table. The file format itself is left out: a table
-- is the list of its keys, in order, with their values, and a missing `name` is not written.
pub mod Rejected
mod Tests
use rxh.Prelude.{ℕ, Option, none, some, List, [], ◌∷◌, ◌++◌, map, if◌then◌else◌}
use rxh.Prelude.Texts.{Text, bytes, same_text}
use rxh.Sched.{Backend}
use rxh.Config.{Forward, Action, Pattern, Server}
use rxh.Config.Deser.{
  ok, many, BackendOption, weighted, ForwardOption, with_algorithm, ActionOption, PatternOption,
  DeError,
}
use rxh.Config.Deser.Order.{Field}
use rxh.Config.Deser.Visit.{Entry}

module _ {Addr : Type 0} where
  -- `Serialize for Backend`, an object of both fields
  abbrev pub write_backend : Backend Addr → BackendOption Addr
  write_backend b = weighted b.address b.weight

  -- `Serialize for Forward`, without its scheduler
  abbrev pub write_forward : Forward Addr → ForwardOption Addr
  write_forward f = with_algorithm f.algorithm (map write_backend f.backends)

  abbrev pub write_action : Action Addr → ActionOption Addr
  write_action (Action.forward f) = ActionOption.forward (write_forward f)
  write_action (Action.serve directory) = ActionOption.serve directory

  abbrev pub write_pattern : Pattern Addr → PatternOption Addr
  write_pattern p = record { uri = some p.uri; action = write_action p.action }

  abbrev write_name : Option Text → List (Text × Entry Addr)
  write_name none = []
  write_name (some name) = (bytes "name", Entry.name (ok name)) ∷ []

  -- `Serialize for Server`. Each value is what `next_value` reads of it.
  unfoldable pub write_server : Server Addr → List (Text × Entry Addr)
  write_server s =
      (bytes "listen", Entry.listen (ok (many s.listen)))
      ∷ (bytes "match", Entry.matches (ok (map (λ p. ok (write_pattern p)) s.patterns)))
      ∷ (bytes "max_connections", Entry.connections (ok s.max_connections))
      ∷ write_name s.name

-- `Deserialize for Field`, an identifier in lower case
abbrev pub field_named : Text → Field
field_named key =
    if same_text key (bytes "listen")
    then Field.listen
    else if same_text key (bytes "match")
    then Field.matches
    else if same_text key (bytes "forward")
    then Field.forward
    else if same_text key (bytes "serve")
    then Field.serve
    else if same_text key (bytes "uri")
    then Field.uri
    else if same_text key (bytes "name")
    then Field.name
    else if same_text key (bytes "connections")
    then Field.connections
    else Field.unknown

module _ {Addr : Type 0} (unknown_field : Text → DeError) where
  -- `next_key` and `next_value` on a table, where `unknown_field` is serde's error for a key that
  -- `Field` does not have.
  abbrev at_key : Field → Text → Entry Addr → Entry Addr
  at_key Field.unknown key e = Entry.unknown (unknown_field key)
  at_key _ key e = e

  unfoldable pub read_table : List (Text × Entry Addr) → List (Entry Addr)
  read_table [] = []
  read_table ((key, e) ∷ table) = at_key (field_named key) key e ∷ read_table table
