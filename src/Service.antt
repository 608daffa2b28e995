-- ===== src/Service.antt =====
-- src/service/mod.rs: a request goes to the first pattern that its uri starts with. The proxy and the
-- file server are children. `Upstream` and `FileSystem` are what src/ uses of tokio, hyper and std.
pub mod Proxy
pub mod Files
pub mod Dispatch
pub mod Transfer
pub mod Routing
pub mod Exchange
pub mod Session
pub mod Balance
pub mod Found
pub mod Turns
pub mod Answered
pub mod Flight
pub mod Tunnel
mod Sample
mod Tests
use rxh.Prelude.{Option, none, some, ◌⊎◌, Bool}
use rxh.Prelude.Texts.{Text}
use rxh.Http.{Web, Request, Response}
use rxh.Http.Answers.{Body}

-- Connections to upstream servers, with the state of the network made explicit.
pub record Upstream (web : Web) (Addr Incoming : Type 0) : Type 1 where
  pub Net : Type 0
  pub Stream : Type 0
  pub Sender : Type 0
  -- `hyper::Error`
  pub Failure : Type 0
  pub connect : Addr → Net → Option Stream × Net
  -- `handshake`, and the task that polls the connection
  pub handshake : Stream → Net → (Failure ⊎ Sender) × Net
  pub send_request : Sender → Request web Incoming → Net → (Failure ⊎ Response web Incoming) × Net
  -- `tokio::task::spawn(tunnel(client, server))`
  pub tunnel : web.OnUpgrade → web.OnUpgrade → Net → Net

-- The file system during one request.
pub record FileSystem : Type 1 where
  pub FilePath : Type 0
  pub path : Text → FilePath
  pub join : FilePath → Text → FilePath
  pub canonicalize : FilePath → Option FilePath
  pub starts_with : FilePath → FilePath → Bool
  pub is_file : FilePath → Bool
  -- `extension().and_then(|e| e.to_str())`
  pub extension : FilePath → Option Text
  pub read : FilePath → Option Text

-- `Result<BoxBodyResponse, hyper::Error>`, or a panic.
pub data Answer (web : Web) (Incoming Failure : Type 0) : Type 0 where
  answered : Response web (Body Incoming) → Answer web Incoming Failure
  failed : Failure → Answer web Incoming Failure
  panicked : Answer web Incoming Failure

-- A response whose construction may panic.
abbrev pub of_option :
    {web : Web} {Incoming Failure : Type 0}
    → Option (Response web (Body Incoming))
    → Answer web Incoming Failure
of_option none = panicked
of_option (some r) = answered r
