-- ===== src/Task/Master.antt =====
-- src/task/master.rs, and `Server::init` of src/task/server.rs: the servers of a configuration, and the
-- end of the program. `Sockets` is what src/ uses of tokio's sockets, with the system's state explicit.
pub mod Replicas
pub mod Errors
pub mod Failures
pub mod Run
pub mod Ports
mod Tests
use rxh.Prelude.{
  ℕ, zero, suc, Bool, Option, none, some, List, [], ◌∷◌, ◌++◌, length, get_elem?, ◌⊎◌, inl, inr,
  if◌then◌else◌,
}
use rxh.Prelude.Texts.{Text, bytes}
use rxh.Tokio.{check_limit}
use rxh.Config
use rxh.Config.{clone_server}

pub record Sockets (Addr Error : Type 0) : Type 1 where
  pub Os : Type 0
  pub Socket : Type 0
  pub Listener : Type 0
  pub is_ipv4 : Addr → Bool
  pub new_v4 : Os → (Error ⊎ Socket) × Os
  pub new_v6 : Os → (Error ⊎ Socket) × Os
  pub set_reuseaddr : Socket → Os → (Error ⊎ Socket) × Os
  pub bind : Socket → Addr → Os → (Error ⊎ Socket) × Os
  pub listen : Socket → ℕ → Os → (Error ⊎ Listener) × Os
  pub local_addr : Listener → Option Addr

-- A result, the `?` of an error, or a panic.
pub data Outcome (Error A : Type 0) : Type 0 where
  ok : A → Outcome Error A
  err : Error → Outcome Error A
  panic : Outcome Error A

-- What the system does, in turn.
abbrev pub Io : (Os Error A : Type 0) → Type 0
Io Os Error A = Os → Outcome Error A × Os

unfoldable pub then_do :
    {Os Error A B : Type 0} → (A → Io Os Error B) → Outcome Error A × Os → Outcome Error B × Os
then_do k (ok a, o) = k a o
then_do k (err e, o) = (err e, o)
then_do k (panic, o) = (panic, o)

infixl 5 ◌>>=◌
abbrev pub ◌>>=◌ : {Os Error A B : Type 0} → Io Os Error A → (A → Io Os Error B) → Io Os Error B
(m >>= k) o = then_do k (m o)

abbrev pub pure : {Os Error A : Type 0} → A → Io Os Error A
pure a o = (ok a, o)

-- A value that is unwrapped.
abbrev pub unwrap : {Os Error A : Type 0} → Option A → Io Os Error A
unwrap none o = (panic, o)
unwrap (some a) o = (ok a, o)

-- The `?` on a call.
abbrev pub answered : {Os Error A : Type 0} → (Error ⊎ A) × Os → Outcome Error A × Os
answered (inl e, o) = (err e, o)
answered (inr a, o) = (ok a, o)

abbrev try_call : {Os Error A : Type 0} → (Os → (Error ⊎ A) × Os) → Io Os Error A
try_call call o = answered (call o)

module _ {Addr Error : Type 0} (os : Sockets Addr Error) where
  abbrev pub Act : Type 0 → Type 0
  Act A = Io os.Os Error A

  -- A server that listens, and what it was made for.
  pub record Bound : Type 0 where
    pub config : Config.Server Addr
    pub requested : Addr
    pub listener : os.Listener
    pub address : Addr

  -- `Server::init`: the sockets, and the panic of `Semaphore::new`
  unfoldable pub bind_server : Config.Server Addr → Addr → Act Bound
  bind_server config requested = do
    socket ← try_call (λ o. if os.is_ipv4 requested then os.new_v4 o else os.new_v6 o)
    socket ← try_call (os.set_reuseaddr socket)
    socket ← try_call (os.bind socket requested)
    listener ← try_call (os.listen socket 1024)
    address ← unwrap (os.local_addr listener)
    checked ← unwrap (check_limit config.max_connections)
    pure (record { config = config; requested = requested; listener = listener; address = address })

  -- `Server::socket_address`
  abbrev pub socket_address : Bound → Addr
  socket_address b = b.address

  -- What `Server::run` makes of the configuration before it is shared, where `show` prints an address.
  abbrev log_name : (Addr → Text) → Addr → Option Text → Text
  log_name show address (some id) = show address ++ bytes " (" ++ id ++ bytes ")"
  log_name show address none = show address

  unfoldable pub named : (Addr → Text) → Bound → Config.Server Addr
  named show b = record b.config { log_name = log_name show b.address b.config.name }

  -- `Server::init(server_config.clone(), replica)`
  unfoldable pub init_server : Config.Server Addr → ℕ → Act Bound
  unfolding bind_server
  init_server config replica = do
    config ← unwrap (clone_server config)
    requested ← unwrap (get_elem? config.listen replica)
    bind_server config requested

  -- `Master`, as far as `init` fills it
  pub record Master : Type 0 where
    pub servers : List Bound
    pub states : List Addr

  -- The loop over the replicas, `n` of which are left, and over the servers.
  unfoldable pub init_replicas : Config.Server Addr → (replica n : ℕ) → Master → Act Master
  init_replicas config replica zero m = pure m
  init_replicas config replica (suc n) m = do
    server ← init_server config replica
    init_replicas config (suc replica) n (record {
      servers = m.servers ++ server ∷ [];
      states = m.states ++ socket_address server ∷ [];
    })

  unfoldable pub init_servers : List (Config.Server Addr) → Master → Act Master
  init_servers [] m = pure m
  init_servers (config ∷ servers) m = do
    m ← init_replicas config 0 (length config.listen) m
    init_servers servers m

  unfoldable pub init : Config.Config Addr → Act Master
  init config = init_servers config.servers (record { servers = []; states = [] })

  -- `sockets`
  unfoldable pub sockets : Master → List Addr
  sockets m = m.states
