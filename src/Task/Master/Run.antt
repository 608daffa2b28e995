-- ===== src/Task/Master/Run.antt =====
-- src/task/master.rs: `Master::shutdown_on` and `Master::run`, with the servers that it spawns. Each
-- server takes the steps of src/task/server.rs; its shutdown future is the receipt of what the master
-- sends on `shutdown_notify`, and is dropped at the end of the server's `select!`.
pub mod Counted
pub mod Ends
pub mod Limits
pub mod Over
pub mod Stops
mod Tests
use rxh.Prelude.{ℕ, ◌≡◌, Option, none, some, List, [], ◌∷◌, ◌++◌, map, Bool, true, false, All}
use rxh.Tokio.{Semaphore, Broadcast, Mpsc}
use rxh.Notify.{Notification}
use rxh.Task.Server
use rxh.Task.Server.{Phase, selecting, initial, finished, System, Step, signal}

-- Where `Master::run` stands.
pub data Stage : Type 0 where
  waiting : Stage  -- the `select!`
  joining : Stage  -- the loop over the servers that end
  ended : Stage
  panicked : Stage

-- The server has not come to the end of its `select!`.
abbrev pub listens : Phase → Bool
listens initial = true
listens (selecting p) = true
listens _ = false

-- The shutdown future of a server, which listened `before`, goes when its `select!` ends.
abbrev pub let_go : (sb : Broadcast Unit) → (before after : Bool) → sb.Receiver → sb.Bus → sb.Bus
let_go sb true false receiver bus = sb.drop_receiver receiver bus
let_go sb true true receiver bus = bus
let_go sb false b receiver bus = bus

module _ (sm : Semaphore) (bc : Broadcast Notification) (mp : Mpsc) (sb : Broadcast Unit) where
  -- A spawned server, with the receiver in its shutdown future.
  pub record Running : Type 0 where
    pub system : System sm bc mp
    pub receiver : sb.Receiver

  pub record Program : Type 0 where
    pub stage : Stage
    pub shutdown_notify : sb.Bus
    pub servers : List Running

  -- `Server::shutdown_on`, with the receipt of the signal as the future
  abbrev pub server_shutdown_on : System sm bc mp → sb.Receiver → Running
  server_shutdown_on system shutdown_notification = record {
    system = system;
    receiver = shutdown_notification;
  }

  -- `shutdown_on`: each server in turn subscribes.
  unfoldable pub shutdown_on : List (System sm bc mp) → sb.Bus → List Running × sb.Bus
  shutdown_on [] bus = ([], bus)
  shutdown_on (system ∷ systems) bus =
      let (receiver, bus) = sb.subscribe bus in
      let (servers, bus) = shutdown_on systems bus in
      (server_shutdown_on system receiver ∷ servers, bus)

  -- The program at the start of `run`, with the limits of the servers that `init` made.
  unfoldable pub started : List ℕ → Program
  unfolding shutdown_on
  started limits =
      let (servers, bus) = shutdown_on (map (λ max. Server.init sm bc mp max) limits) sb.bus in
      record { stage = waiting; shutdown_notify = bus; servers = servers }

  -- `self.shutdown_notify.send(()).unwrap()`
  abbrev pub answered : Program → Option ℕ × sb.Bus → Program
  answered p (none, bus) = record p { stage = panicked; shutdown_notify = bus }
  answered p (some n, bus) = record p { stage = joining; shutdown_notify = bus }

  unfoldable pub send_shutdown : Program → Program
  send_shutdown p = answered p (sb.send tt p.shutdown_notify)

  -- The server `r` comes to be `t`.
  unfoldable pub moved : List Running → Running → List Running → System sm bc mp → Program → Program
  moved before r after t p = record p {
    shutdown_notify =
        let_go sb (listens r.system.phase) (listens t.phase) r.receiver p.shutdown_notify;
    servers = before ++ (record r { system = t } ∷ after);
  }

  unfoldable pub joined : Program → Program
  joined p = record p { stage = ended }

  -- Whether a step is the receipt of the shutdown signal.
  unfoldable pub is_signal : {s t : System sm bc mp} → Step sm bc mp s t → Bool
  is_signal (signal p e f) = true
  is_signal _ = false

  -- One step of the master or of one server.
  pub data RunStep (p q : Program) : Type 0 where
    server_moves :
        (before : List Running) (r : Running) (after : List Running) (t : System sm bc mp)
        (step : Step sm bc mp r.system t)
        → p.servers ≡ before ++ (r ∷ after)
        → (is_signal step ≡ true → p.stage ≡ joining)
        → q ≡ moved before r after t p
        → RunStep p q
    master_sends : p.stage ≡ waiting → q ≡ send_shutdown p → RunStep p q
    master_ends :
        p.stage ≡ joining
        → All (λ r. r.system.phase ≡ finished) p.servers
        → q ≡ joined p
        → RunStep p q

  -- Any number of steps.
  pub data Runs : Program → Program → Type 0 where
    stay : {p : Program} → Runs p p
    go : {p q r : Program} → RunStep p q → Runs q r → Runs p r
