-- ===== src/Config.antt =====
-- src/config/mod.rs: the configuration as data. `Addr` stands for `std::net::SocketAddr`.
pub mod Deser
pub mod Clone
pub mod Written
use rxh.Prelude.{ℕ, Option, some, List, [], ◌∷◌}
use rxh.Prelude.Options.{◌>>=◌}
use rxh.Prelude.Texts.{Text, bytes}
use rxh.Sched.{Backend, Algorithm, Scheduler, make}

pub record Forward (Addr : Type 0) : Type 0 where
  pub backends : List (Backend Addr)
  pub algorithm : Algorithm
  pub scheduler : Scheduler Addr

pub data Action (Addr : Type 0) : Type 0 where
  forward : Forward Addr → Action Addr
  serve : Text → Action Addr

pub record Pattern (Addr : Type 0) : Type 0 where
  pub uri : Text
  pub action : Action Addr

pub record Server (Addr : Type 0) : Type 0 where
  pub listen : List Addr
  pub patterns : List (Pattern Addr)
  pub max_connections : ℕ
  pub name : Option Text
  pub log_name : Text

pub record Config (Addr : Type 0) : Type 0 where
  pub servers : List (Server Addr)

-- The module `default`.
abbrev pub default_uri : Text
default_uri = bytes "/"

abbrev pub default_max_connections : ℕ
default_max_connections = 1024

-- `Clone`: derived but for `Forward`, which makes a new scheduler. `none` is the scheduler's panic.
module _ {Addr : Type 0} where
  unfoldable pub clone_forward : Forward Addr → Option (Forward Addr)
  clone_forward f = do
    scheduler ← make f.algorithm f.backends
    some (record { backends = f.backends; algorithm = f.algorithm; scheduler = scheduler })

  unfoldable pub clone_action : Action Addr → Option (Action Addr)
  unfolding clone_forward
  clone_action (forward f) = do f' ← clone_forward f; some (forward f')
  clone_action (serve directory) = some (serve directory)

  unfoldable pub clone_patterns : List (Pattern Addr) → Option (List (Pattern Addr))
  unfolding clone_action
  clone_patterns [] = some []
  clone_patterns (p ∷ patterns) = do
    action ← clone_action p.action
    rest ← clone_patterns patterns
    some (record { uri = p.uri; action = action } ∷ rest)

  unfoldable pub clone_server : Server Addr → Option (Server Addr)
  unfolding clone_patterns
  clone_server s = do patterns ← clone_patterns s.patterns; some (record s { patterns = patterns })
