-- ===== src/Task/Server/Phases.antt =====
-- src/task/server.rs: the states that are shown, and where the server and a task stand.
use rxh.Prelude.{ℕ, Bool}

pub data ShutdownState : Type 0 where
  pending_connections : ℕ → ShutdownState
  done : ShutdownState

pub data State : Type 0 where
  starting : State
  listening : State
  max_connections_reached : ℕ → State
  shutting_down : ShutdownState → State

-- Where `Listener::listen` stands: at the head of its loop, at the await of a permit with the flag
-- `notify_listening_again`, or at the await of a connection, with a permit in hand.
pub data Point : Type 0 where
  loop_head : Point
  acquiring : (notify_listening_again : Bool) → Point
  accepting : Point

-- Where `Server::run` stands.
pub data Phase : Type 0 where
  initial : Phase
  selecting : Point → Phase  -- the `select!`
  dropped : Phase  -- the listener is dropped, nothing is sent yet
  collecting : Phase  -- in `collect_acknowledgements`
  freeing : Phase  -- before the leaked configuration is dropped
  freed : Phase  -- before the last state update
  finished : Phase

-- Where a spawned task stands: the connection is served; the task acknowledges; it is about to drop its
-- permit; it has dropped it; it has dropped the receiver of its subscription, and not the sender.
pub data Stage : Type 0 where
  serving acking leaving released parting : Stage
