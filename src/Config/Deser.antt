-- ===== src/Config/Deser.antt =====
-- src/config/deser.rs: from what serde reads of the TOML file to the configuration.
-- serde and toml are not modelled: a map is the list of the entries that `MapAccess` hands out, each
-- with what `next_value` answers for it, of the type that the source asks for at that key.
pub mod Visit
pub mod Loop
pub mod Checks
pub mod Order
pub mod Blame
pub mod Panics
mod Tests
use rxh.Prelude.{ℕ, Option, none, some, List, [], ◌∷◌, ◌++◌, map}
use rxh.Prelude.Texts.{Text, bytes}
use rxh.Sched.{Backend, Algorithm, wrr, make}
use rxh.Config.{Forward, Action, Pattern, default_uri}

pub data OneOrMany {ℓ} (A : Type ℓ) : Type ℓ where
  one : A → OneOrMany A
  many : List A → OneOrMany A

-- `From<OneOrMany<T>> for Vec<T>`, which `one_or_many` applies.
unfoldable pub one_or_many {ℓ} : {A : Type ℓ} → OneOrMany A → List A
one_or_many (one item) = item ∷ []
one_or_many (many items) = items

pub data BackendOption (Addr : Type 0) : Type 0 where
  simple : Addr → BackendOption Addr
  weighted : Addr → ℕ → BackendOption Addr

pub data ForwardOption (Addr : Type 0) : Type 0 where
  simple : OneOrMany (BackendOption Addr) → ForwardOption Addr
  with_algorithm : Algorithm → List (BackendOption Addr) → ForwardOption Addr

-- An action and an element of `match` as they stand in the file.
pub data ActionOption (Addr : Type 0) : Type 0 where
  forward : ForwardOption Addr → ActionOption Addr
  serve : Text → ActionOption Addr

pub record PatternOption (Addr : Type 0) : Type 0 where
  pub uri : Option Text
  pub action : ActionOption Addr

-- `enum Error`
pub data Error : Type 0 where
  mixed_simple_and_match mixed_actions missing_config : Error

-- What goes wrong in `visit_map`; `other` is an error of toml's own, such as an unknown key.
pub data DeError : Type 0 where
  duplicate_field missing_field : Text → DeError
  custom : Error → DeError
  other : Text → DeError

-- A deserializer returns a value or an error, or panics.
pub data Outcome {ℓ} (A : Type ℓ) : Type ℓ where
  ok : A → Outcome A
  err : DeError → Outcome A
  panic : Outcome A

infixl 5 ◌>>=◌
abbrev pub ◌>>=◌ {ℓ κ} : {A : Type ℓ} {B : Type κ} → Outcome A → (A → Outcome B) → Outcome B
ok a >>= k = k a
err e >>= k = err e
panic >>= k = panic

abbrev pub or_panic {ℓ} : {A : Type ℓ} → Option A → Outcome A
or_panic none = panic
or_panic (some a) = ok a

-- `Display for Error`
abbrev pub message : Error → Text
message mixed_simple_and_match =
    bytes "either use 'match' for multiple patterns or describe a single pattern"
message mixed_actions =
    bytes "use either 'forward' or 'serve', if you need multiple patterns use 'match'"
message missing_config = bytes "missing 'match' or simple configuration"

abbrev pub uri_or_default : Option Text → Text
uri_or_default none = default_uri
uri_or_default (some uri) = uri

module _ {Addr : Type 0} where
  -- `From<BackendOption> for Backend`
  unfoldable pub to_backend : BackendOption Addr → Backend Addr
  to_backend (simple address) = record { address = address; weight = 1 }
  to_backend (weighted address weight) = record { address = address; weight = weight }

  -- The pair that `From<ForwardOption> for Forward` matches out.
  unfoldable pub to_backends : ForwardOption Addr → List (Backend Addr) × Algorithm
  unfolding to_backend one_or_many
  to_backends (simple backends) = (map to_backend (one_or_many backends), wrr)
  to_backends (with_algorithm algorithm backends) = (map to_backend backends, algorithm)

  -- `From<ForwardOption> for Forward`: making the scheduler can panic.
  unfoldable pub to_forward : ForwardOption Addr → Outcome (Forward Addr)
  unfolding to_backends
  to_forward f = do
    let (backends, algorithm) = to_backends f
    scheduler ← or_panic (make algorithm backends)
    ok (record { backends = backends; algorithm = algorithm; scheduler = scheduler })

  unfoldable pub to_action : ActionOption Addr → Outcome (Action Addr)
  unfolding to_forward
  to_action (forward f) = do f' ← to_forward f; ok (Action.forward f')
  to_action (serve directory) = ok (Action.serve directory)

  -- `Deserialize for Pattern`: `uri` has a default, the action is flattened into the table.
  unfoldable pub to_pattern : PatternOption Addr → Outcome (Pattern Addr)
  unfolding to_action
  to_pattern p = do
    action ← to_action p.action
    ok (record { uri = uri_or_default p.uri; action = action })

  -- `Deserialize for Vec<Pattern>`: the elements are read one after the other.
  unfoldable pub to_patterns : List (Outcome (PatternOption Addr)) → Outcome (List (Pattern Addr))
  unfolding to_pattern
  to_patterns [] = ok []
  to_patterns (value ∷ values) = do
    option ← value
    p ← to_pattern option
    rest ← to_patterns values
    ok (p ∷ rest)
