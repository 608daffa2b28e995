-- ===== src/Task/Server.antt =====
-- src/task/server.rs: one server, from `run` to the end of its shutdown, with the tasks that it spawns.
-- What the tasks and the server do between two awaits, or two effects on what they share, is one
-- function on the state; `Step` says when each may happen.
pub mod Account
pub mod Counts
pub mod Finish
pub mod Invariant
pub mod Lifecycle
pub mod Limits
pub mod Shutdown
pub mod StateChanges
pub mod States
mod Phases
mod Tests
pub mod Work
pub use Phases.*
use rxh.Prelude.{ℕ, ◌≡◌, Option, none, some, List, [], ◌∷◌, ◌++◌, Bool, ◌==◌, if◌then◌else◌}
use rxh.Tokio.{Semaphore, Broadcast, Mpsc, got, closed}
use rxh.Notify
use rxh.Notify.{Notification, shutdown, Channels, Subscription}

module _ (sm : Semaphore) (bc : Broadcast Notification) (mp : Mpsc) where
  pub record Task : Type 0 where
    pub subscription : Subscription bc mp
    pub stage : Stage

  pub record System : Type 0 where
    pub state : State  -- the last value sent on the watch channel
    pub phase : Phase
    pub max_connections : ℕ
    pub connections : sm.Sem
    pub channels : Channels bc mp
    pub tasks : List Task

  -- `Server::init`, once the socket listens. The panic of `Semaphore::new` comes before, in `bind_server`
  -- of Task/Master: the limit is one that it takes.
  unfoldable pub init : ℕ → System
  init max_connections = record {
    state = starting;
    phase = initial;
    max_connections = max_connections;
    connections = sm.sem max_connections;
    channels = Notify.new bc mp;
    tasks = [];
  }

  -- `run` up to the `select!`
  unfoldable pub begin : System → System
  begin s = record s { state = listening; phase = selecting loop_head }

  -- The head of the loop in `listen`.
  unfoldable pub check_permits : System → System
  check_permits s =
      let full = sm.available s.connections == 0 in
      record s {
        state = if full then max_connections_reached s.max_connections else s.state;
        phase = selecting (acquiring full);
      }

  -- A permit is there, and the state goes back to listening if it was changed.
  unfoldable pub acquired : Bool → sm.Sem → System → System
  acquired notify_listening_again permits s = record s {
    state = if notify_listening_again then listening else s.state;
    phase = selecting accepting;
    connections = permits;
  }

  -- A connection is accepted: subscribe and spawn.
  unfoldable pub spawn : System → System
  spawn s =
      let (subscription, channels) = Notify.subscribe bc mp s.channels in
      record s {
        phase = selecting loop_head;
        channels = channels;
        tasks = record { subscription = subscription; stage = serving } ∷ s.tasks;
      }

  -- `accept` fails: `listen` returns, and drops its permit.
  unfoldable pub accept_failed : System → System
  accept_failed s = record s { phase = dropped; connections = sm.release s.connections }

  -- `local_addr` fails behind `subscribe`: the subscription is dropped too.
  unfoldable pub local_addr_failed : System → System
  local_addr_failed s =
      let (subscription, channels) = Notify.subscribe bc mp s.channels in
      record s {
        phase = dropped;
        connections = sm.release s.connections;
        channels = Notify.drop_sender bc mp (Notify.drop_receiver bc mp subscription channels);
      }

  -- The shutdown future is ready: the future of `listen` is dropped, with the permit if it has one.
  abbrev pub give_back : Point → sm.Sem → sm.Sem
  give_back accepting permits = sm.release permits
  give_back _ permits = permits

  unfoldable pub signalled : Point → System → System
  signalled p s = record s { phase = dropped; connections = give_back p s.connections }

  -- `notifier.send`, and the branch on its answer.
  abbrev pub notified : System → Option ℕ × Channels bc mp → System
  notified s (some num_tasks, channels) = record s {
    state = shutting_down (pending_connections num_tasks);
    phase = collecting;
    channels = Notify.begin_collecting bc mp channels;
  }
  notified s (none, channels) = record s { phase = freeing; channels = channels }

  unfoldable pub notify : System → System
  notify s = notified s (Notify.send bc mp shutdown s.channels)

  -- Another acknowledgement, and the end of them.
  unfoldable pub collected : Channels bc mp → System → System
  collected channels s = record s { channels = channels }

  unfoldable pub all_collected : System → System
  all_collected s = record s { phase = freeing }

  unfoldable pub free_config : System → System
  free_config s = record s { phase = freed }

  unfoldable pub complete : System → System
  complete s = record s { state = shutting_down done; phase = finished }

  -- The connection of a task has ended, and it looks for a notification.
  abbrev pub after_check : Option Notification → Stage
  after_check (some shutdown) = acking
  after_check none = leaving

  unfoldable pub serve_end : List Task → Task → List Task → System → System
  serve_end before t after s =
      let (received, channels) = Notify.receive_notification bc mp t.subscription s.channels in
      record s {
        channels = channels;
        tasks = before ++ record t { stage = after_check received } ∷ after;
      }

  -- The service panics: the connection ends, and the task goes without a look at the notifications. The
  -- order in which what it holds is dropped is open, and is taken to be that of the usual end.
  unfoldable pub panicked : List Task → Task → List Task → System → System
  panicked before t after s = record s { tasks = before ++ record t { stage = leaving } ∷ after }

  unfoldable pub acknowledged : List Task → Task → List Task → Channels bc mp → System → System
  acknowledged before t after channels s = record s {
    channels = channels;
    tasks = before ++ record t { stage = leaving } ∷ after;
  }

  unfoldable pub drop_permit : List Task → Task → List Task → System → System
  drop_permit before t after s = record s {
    connections = sm.release s.connections;
    tasks = before ++ record t { stage = released } ∷ after;
  }

  unfoldable pub drop_receiver : List Task → Task → List Task → System → System
  drop_receiver before t after s = record s {
    channels = Notify.drop_receiver bc mp t.subscription s.channels;
    tasks = before ++ record t { stage = parting } ∷ after;
  }

  unfoldable pub drop_sender : List Task → List Task → System → System
  drop_sender before after s = record s {
    channels = Notify.drop_sender bc mp s.channels;
    tasks = before ++ after;
  }

  -- One step of the server or of a task. When connections come and end, and when the shutdown future
  -- is ready, is left open.
  pub data Step (s t : System) : Type 0 where
    begins : s.phase ≡ initial → t ≡ begin s → Step s t
    checks : s.phase ≡ selecting loop_head → t ≡ check_permits s → Step s t
    acquires :
        (again : Bool) (permits : sm.Sem)
        → s.phase ≡ selecting (acquiring again)
        → sm.acquire s.connections ≡ some permits
        → t ≡ acquired again permits s
        → Step s t
    accepts : s.phase ≡ selecting accepting → t ≡ spawn s → Step s t
    accept_fails : s.phase ≡ selecting accepting → t ≡ accept_failed s → Step s t
    local_addr_fails : s.phase ≡ selecting accepting → t ≡ local_addr_failed s → Step s t
    signal : (p : Point) → s.phase ≡ selecting p → t ≡ signalled p s → Step s t
    notifies : s.phase ≡ dropped → t ≡ notify s → Step s t
    collects :
        (channels : Channels bc mp)
        → s.phase ≡ collecting
        → Notify.collect bc mp s.channels ≡ got channels
        → t ≡ collected channels s
        → Step s t
    ends_collecting :
        s.phase ≡ collecting
        → Notify.collect bc mp s.channels ≡ closed
        → t ≡ all_collected s
        → Step s t
    frees : s.phase ≡ freeing → t ≡ free_config s → Step s t
    completes : s.phase ≡ freed → t ≡ complete s → Step s t
    serve_ends :
        (before after : List Task) (k : Task)
        → s.tasks ≡ before ++ k ∷ after
        → k.stage ≡ serving
        → t ≡ serve_end before k after s
        → Step s t
    panics :
        (before after : List Task) (k : Task)
        → s.tasks ≡ before ++ k ∷ after
        → k.stage ≡ serving
        → t ≡ panicked before k after s
        → Step s t
    acknowledges :
        (before after : List Task) (k : Task) (channels : Channels bc mp)
        → s.tasks ≡ before ++ k ∷ after
        → k.stage ≡ acking
        → Notify.acknowledge_notification bc mp s.channels ≡ some channels
        → t ≡ acknowledged before k after channels s
        → Step s t
    drops_permit :
        (before after : List Task) (k : Task)
        → s.tasks ≡ before ++ k ∷ after
        → k.stage ≡ leaving
        → t ≡ drop_permit before k after s
        → Step s t
    drops_receiver :
        (before after : List Task) (k : Task)
        → s.tasks ≡ before ++ k ∷ after
        → k.stage ≡ released
        → t ≡ drop_receiver before k after s
        → Step s t
    drops_sender :
        (before after : List Task) (k : Task)
        → s.tasks ≡ before ++ k ∷ after
        → k.stage ≡ parting
        → t ≡ drop_sender before after s
        → Step s t

  -- The states that a server can reach.
  pub data Reach (max_connections : ℕ) : System → Type 0 where
    start : Reach max_connections (init max_connections)
    next : {s t : System} → Reach max_connections s → Step s t → Reach max_connections t
