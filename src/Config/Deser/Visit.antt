-- ===== src/Config/Deser/Visit.antt =====
-- config/deser.rs: `ServerVisitor::visit_map`, the table of one server.
use mathlib.Core.Option.{Option, none, some}
use rxh.Prelude.{ℕ, List, [], ◌∷◌, ◌++◌}
use rxh.Prelude.Texts.{Text, bytes}
use rxh.Config.{Action, Pattern, Server, default_uri, default_max_connections}
use rxh.Config.Deser.{
  OneOrMany, one_or_many, ForwardOption, PatternOption, to_forward, to_patterns, Outcome, ok, err,
  ◌>>=◌, DeError, duplicate_field, missing_field, custom, mixed_simple_and_match, mixed_actions,
  missing_config,
}

-- `enum Field` with the answer of `next_value`: a value, or toml's error. `unknown` is an error of
-- `next_key`.
pub data Entry (Addr : Type 0) : Type 0 where
  listen : Outcome (OneOrMany Addr) → Entry Addr
  matches : Outcome (List (Outcome (PatternOption Addr))) → Entry Addr
  forward : Outcome (ForwardOption Addr) → Entry Addr
  serve : Outcome Text → Entry Addr
  uri : Outcome Text → Entry Addr
  name : Outcome Text → Entry Addr
  connections : Outcome ℕ → Entry Addr
  unknown : DeError → Entry Addr

-- The local variables of `visit_map`.
pub record Draft (Addr : Type 0) : Type 0 where
  pub listening : List Addr
  pub patterns : List (Pattern Addr)
  pub simple_pattern : Option (Pattern Addr)
  pub named : Option Text
  pub max_connections : ℕ
  pub prefix : Text

module _ {Addr : Type 0} where
  abbrev pub blank : Draft Addr
  blank = record {
    listening = [];
    patterns = [];
    simple_pattern = none;
    named = none;
    max_connections = default_max_connections;
    prefix = default_uri;
  }

  abbrev pub visit_listen : Draft Addr → List Addr → Outcome (OneOrMany Addr) → Outcome (Draft Addr)
  visit_listen d [] value = do
    addresses ← value
    ok (record d { listening = one_or_many addresses })
  visit_listen d (_ ∷ _) value = err (duplicate_field (bytes "listen"))

  -- The source says "listen" here too.
  abbrev pub visit_match :
      Draft Addr
      → List (Pattern Addr)
      → Option (Pattern Addr)
      → Outcome (List (Outcome (PatternOption Addr)))
      → Outcome (Draft Addr)
  visit_match d (_ ∷ _) _ value = err (duplicate_field (bytes "listen"))
  visit_match d [] (some _) value = err (custom mixed_simple_and_match)
  visit_match d [] none value = do
    options ← value
    patterns ← to_patterns options
    ok (record d { patterns = patterns })

  abbrev pub second_forward : Action Addr → DeError
  second_forward (Action.forward _) = duplicate_field (bytes "forward")
  second_forward (Action.serve _) = custom mixed_actions

  abbrev pub second_serve : Action Addr → DeError
  second_serve (Action.forward _) = custom mixed_actions
  second_serve (Action.serve _) = duplicate_field (bytes "serve")

  -- What `Field::Forward` and `Field::Serve` share; `second` is the error of a second action.
  abbrev pub visit_action :
      Draft Addr
      → List (Pattern Addr)
      → Option (Pattern Addr)
      → (Action Addr → DeError)
      → Outcome (Action Addr)
      → Outcome (Draft Addr)
  visit_action d (_ ∷ _) _ second value = err (custom mixed_simple_and_match)
  visit_action d [] (some pattern) second value = err (second pattern.action)
  visit_action d [] none second value = do
    action ← value
    ok (record d { simple_pattern = some (record { uri = default_uri; action = action }) })

  abbrev pub visit_uri : Draft Addr → List (Pattern Addr) → Outcome Text → Outcome (Draft Addr)
  visit_uri d (_ ∷ _) value = err (custom mixed_simple_and_match)
  visit_uri d [] value = do text ← value; ok (record d { prefix = text })

  abbrev pub visit_name : Draft Addr → Option Text → Outcome Text → Outcome (Draft Addr)
  visit_name d (some _) value = err (duplicate_field (bytes "name"))
  visit_name d none value = do text ← value; ok (record d { named = some text })

  -- One round of the `while let` loop.
  unfoldable pub visit : Draft Addr → Entry Addr → Outcome (Draft Addr)
  visit d (listen value) = visit_listen d d.listening value
  visit d (matches value) = visit_match d d.patterns d.simple_pattern value
  visit d (forward value) =
      visit_action d d.patterns d.simple_pattern second_forward
        do option ← value; f ← to_forward option; ok (Action.forward f)
  visit d (serve value) =
      visit_action d d.patterns d.simple_pattern second_serve
        do directory ← value; ok (Action.serve directory)
  visit d (uri value) = visit_uri d d.patterns value
  visit d (name value) = visit_name d d.named value
  visit d (connections value) = do n ← value; ok (record d { max_connections = n })
  visit d (unknown e) = err e

  unfoldable pub visit_entries : Draft Addr → List (Entry Addr) → Outcome (Draft Addr)
  unfolding visit
  visit_entries d [] = ok d
  visit_entries d (e ∷ entries) = do d' ← visit d e; visit_entries d' entries

  -- `patterns.push(pattern)`, with the pattern's `uri` set
  abbrev pub push_simple : List (Pattern Addr) → Option (Pattern Addr) → Text → List (Pattern Addr)
  push_simple patterns none prefix = patterns
  push_simple patterns (some pattern) prefix = patterns ++ record pattern { uri = prefix } ∷ []

  abbrev pub checked : Draft Addr → List (Pattern Addr) → List Addr → Outcome (Server Addr)
  checked d [] _ = err (custom missing_config)
  checked d (_ ∷ _) [] = err (missing_field (bytes "listen"))
  checked d (p ∷ patterns) (a ∷ addresses) = ok (record {
    listen = a ∷ addresses;
    patterns = p ∷ patterns;
    max_connections = d.max_connections;
    name = d.named;
    log_name = bytes "unnamed";
  })

  -- What follows the loop.
  unfoldable pub finish : Draft Addr → Outcome (Server Addr)
  finish d = checked d (push_simple d.patterns d.simple_pattern d.prefix) d.listening

  unfoldable pub visit_map : List (Entry Addr) → Outcome (Server Addr)
  unfolding visit_entries finish
  visit_map entries = do d ← visit_entries blank entries; finish d
