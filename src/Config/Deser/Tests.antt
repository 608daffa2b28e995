-- ===== src/Config/Deser/Tests.antt =====
-- config/deser.rs on the tables of its doc comments.
use mathlib.Core.Logic.Or
use mathlib.Core.HLevel.{⊥_prop}
use mathlib.Core.List.{Mem, Permᴰ, Nodup-cons, Nodup-nil, not-mem-nil, mem-cons}
use mathlib.Core.Logic.{◌≢◌}
use rxh.Prelude.{ℕ, ◌<◌, ◌≡◌, refl, ◌⊎◌, none, some, List, [], ◌∷◌, All}
use rxh.Prelude.Texts.{bytes}
use rxh.Sched.{wrr, weighted_round_robin, make}
use rxh.Sched.Expand.{total_weight}
use rxh.Config.{Forward, Action, Pattern, Server, clone_server}
use rxh.Config.Clone.{IsNew, StartsFresh, to_forward_cases, visit_map-clone}
use rxh.Config.Deser.{
  Outcome, ok, err, panic, one, many, BackendOption, ForwardOption, ActionOption, PatternOption,
  duplicate_field, missing_field, custom, mixed_simple_and_match, mixed_actions, missing_config,
  to_backends, to_forward, to_patterns,
}
use rxh.Config.Deser.Visit.{Entry, listen, matches, forward, serve, uri, visit_map}
use rxh.Config.Deser.Checks.{Origin, visit_map-Origin}
use rxh.Config.Deser.Order.{Field, IsSimple, visit_map-permᴰ, uri_around_match}

-- Addresses are port numbers.
abbrev here : Entry ℕ
here = listen (ok (one 8000))

abbrev to_9000 : Entry ℕ
to_9000 = forward (ok (ForwardOption.simple (one (BackendOption.simple 9000))))

abbrev api : Entry ℕ
api = uri (ok (bytes "/api"))

-- listen = "127.0.0.1:8000", forward = "127.0.0.1:9000", uri = "/api"
abbrev simple_table : List (Entry ℕ)
simple_table = here ∷ to_9000 ∷ api ∷ []

abbrev forward_9000 : Forward ℕ
forward_9000 = record {
  backends = record { address = 9000; weight = 1 } ∷ [];
  algorithm = wrr;
  scheduler = weighted_round_robin (record { cycle = record { values = 9000 ∷ []; next = 0 } });
}

abbrev simple_server : Server ℕ
simple_server = record {
  listen = 8000 ∷ [];
  patterns = record { uri = bytes "/api"; action = Action.forward forward_9000 } ∷ [];
  max_connections = 1024;
  name = none;
  log_name = bytes "unnamed";
}

simple_test : visit_map simple_table ≡ ok simple_server
unfolding visit_map to_forward make
simple_test = refl

abbrev front : List (Outcome (PatternOption ℕ))
front =
    ok (record { uri = some (bytes "/front"); action = ActionOption.serve (bytes "/home") }) ∷ []

abbrev front_pattern : Pattern ℕ
front_pattern = record { uri = bytes "/front"; action = Action.serve (bytes "/home") }

error_tests :
    (visit_map (here ∷ to_9000 ∷ matches (ok front) ∷ []) ≡ err (custom mixed_simple_and_match))
    × (visit_map (here ∷ to_9000 ∷ serve (ok (bytes "/home")) ∷ []) ≡ err (custom mixed_actions))
    × (visit_map (here ∷ to_9000 ∷ to_9000 ∷ []) ≡ err (duplicate_field (bytes "forward")))
    × (visit_map (here ∷ api ∷ []) ≡ err (custom missing_config))
    × (visit_map (to_9000 ∷ []) ≡ err (missing_field (bytes "listen")))
unfolding visit_map to_forward make to_patterns
error_tests = (refl, refl, refl, refl, refl)

-- A second `match` is reported as a second `listen`.
second_match :
    visit_map (matches (ok front) ∷ matches (ok front) ∷ [])
    ≡ err (duplicate_field (bytes "listen"))
unfolding visit_map to_patterns
second_match = refl

-- forward = [] stops the program.
no_backends : visit_map (here ∷ forward (ok (ForwardOption.simple (many []))) ∷ []) ≡ panic
unfolding visit_map to_forward make
no_backends = refl

visit_map-Origin_example :
    (simple_server.listen ≢ [])
    × (simple_server.patterns ≢ [])
    × (simple_server.log_name ≡ bytes "unnamed")
    × Origin simple_table simple_server.patterns
visit_map-Origin_example = visit_map-Origin simple_table simple_test

not-mem : {a b : Field} {l : List Field} → a ≢ b → ¬ Mem a l → ¬ Mem a (b ∷ l)
not-mem ne out m = Or.elim ⊥_prop (mem-cons.0 m) ne out

simple_table-IsSimple : IsSimple simple_table
simple_table-IsSimple = record {
  distinct = Nodup-cons.1 (
    not-mem (λ e. cc) (not-mem (λ e. cc) not-mem-nil),
    Nodup-cons.1 (not-mem (λ e. cc) not-mem-nil, Nodup-cons.1 (not-mem-nil, Nodup-nil)),
  );
  no_match = not-mem (λ e. cc) (not-mem (λ e. cc) (not-mem (λ e. cc) not-mem-nil));
}

visit_map-permᴰ_example : visit_map (to_9000 ∷ here ∷ api ∷ []) ≡ ok simple_server
visit_map-permᴰ_example = visit_map-permᴰ (Permᴰ.swap refl refl) simple_table-IsSimple simple_test

front_read : to_patterns front ≡ ok (front_pattern ∷ [])
unfolding to_patterns
front_read = refl

uri_around_match_example :
    (visit_map (listen (ok (many (8000 ∷ []))) ∷ api ∷ matches (ok front) ∷ [])
      ≡ visit_map (listen (ok (many (8000 ∷ []))) ∷ matches (ok front) ∷ []))
    × (visit_map (listen (ok (many (8000 ∷ []))) ∷ api ∷ matches (ok front) ∷ [])
        ≡ ok (record simple_server { patterns = front_pattern ∷ [] }))
    × (visit_map (listen (ok (many (8000 ∷ []))) ∷ matches (ok front) ∷ api ∷ [])
        ≡ err (custom mixed_simple_and_match))
uri_around_match_example = uri_around_match [] 8000 (bytes "/api") front front_pattern [] front_read

to_forward_cases_example :
    let o : ForwardOption ℕ = ForwardOption.simple (one (BackendOption.simple 9000)) in
    ((total_weight (to_backends o).0 ≡ 0) × (to_forward o ≡ panic))
    ⊎ ((f : Forward ℕ) × (to_forward o ≡ ok f)
        × (f.backends ≡ (to_backends o).0)
        × (f.algorithm ≡ (to_backends o).1)
        × IsNew (Action.forward f)
        × (0 < total_weight f.backends))
to_forward_cases_example = to_forward_cases (ForwardOption.simple (one (BackendOption.simple 9000)))

visit_map-clone_example :
    (clone_server simple_server ≡ some simple_server)
    × All (λ p. StartsFresh p.action) simple_server.patterns
visit_map-clone_example = visit_map-clone simple_table simple_test
