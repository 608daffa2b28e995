-- ===== src/Main.antt =====
-- src/lib.rs: the errors of the crate; src/main.rs: the program from the configuration file to the
-- servers that run. `IoError` and `HttpError` stand for `std::io::Error` and `hyper::Error`, and the error
-- of toml is that of Config/Deser. What tokio and toml do with the file is `Files`.
pub mod Errors
pub mod Launch
pub mod Outcomes
pub mod Panics
pub mod Starts
mod Tests
use rxh.Prelude.{ℕ, List, [], ◌∷◌, ◌++◌, map, ◌⊎◌, inl, inr}
use rxh.Prelude.Texts.{Text, bytes}
use rxh.Config
use rxh.Config.Deser
use rxh.Config.Deser.{DeError}
use rxh.Config.Deser.Visit.{Entry, visit_map}
use rxh.Tokio.{Semaphore, Broadcast, Mpsc}
use rxh.Notify.{Notification}
use rxh.Task.Master
use rxh.Task.Master.{Sockets, Outcome, ok, err, panic, Io, ◌>>=◌, pure, Master}
use rxh.Task.Master.Run
use rxh.Task.Master.Run.{Program}

-- `enum Error`
pub data Error (IoError HttpError : Type 0) : Type 0 where
  io : IoError → Error IoError HttpError
  toml : DeError → Error IoError HttpError
  http : HttpError → Error IoError HttpError

module _ {IoError HttpError : Type 0} where
  -- `Display for Error`, with the texts of what is wrapped.
  unfoldable pub display :
      (IoError → Text) → (DeError → Text) → (HttpError → Text) → Error IoError HttpError → Text
  display show_io show_toml show_http (io e) = bytes "IO error: " ++ show_io e
  display show_io show_toml show_http (toml e) = bytes "TOML parse error: " ++ show_toml e
  display show_io show_toml show_http (http e) = bytes "HTTP error: " ++ show_http e

  -- `From`, which `?` applies.
  abbrev pub from_io : IoError → Error IoError HttpError
  from_io value = io value

  abbrev pub from_toml : DeError → Error IoError HttpError
  from_toml value = toml value

  -- The `?` on a result of the master.
  unfoldable pub lift_io :
      {Os A : Type 0} → Outcome IoError A × Os → Outcome (Error IoError HttpError) A × Os
  lift_io (ok a, o) = (ok a, o)
  lift_io (err e, o) = (err (from_io e), o)
  lift_io (panic, o) = (panic, o)

  -- The `?` on a result of toml.
  unfoldable pub lift_toml : {Os A : Type 0} → Deser.Outcome A → Io Os (Error IoError HttpError) A
  lift_toml (Deser.ok a) o = (ok a, o)
  lift_toml (Deser.err e) o = (err (from_toml e), o)
  lift_toml Deser.panic o = (panic, o)

  -- The `?` on a result of tokio.
  abbrev pub lift_read :
      {Os A : Type 0} → (IoError ⊎ A) × Os → Outcome (Error IoError HttpError) A × Os
  lift_read (inl e, o) = (err (from_io e), o)
  lift_read (inr a, o) = (ok a, o)

-- Reading files, and what toml makes of one: its error, or the tables under `server`.
pub record Files (Addr IoError Os : Type 0) : Type 0 where
  pub read_to_string : Text → Os → (IoError ⊎ Text) × Os
  pub tables : Text → DeError ⊎ List (List (Entry Addr))

module _ {Addr : Type 0} where
  -- `Vec<Server>`, each by `visit_map`
  unfoldable pub read_servers : List (List (Entry Addr)) → Deser.Outcome (List (Config.Server Addr))
  read_servers [] = Deser.ok []
  read_servers (entries ∷ tables) =
      Deser.◌>>=◌ (visit_map entries)
        λ server. Deser.◌>>=◌ (read_servers tables) λ servers. Deser.ok (server ∷ servers)

  -- `toml::from_str`, up to the derived `Deserialize for Config`
  unfoldable pub from_str : DeError ⊎ List (List (Entry Addr)) → Deser.Outcome (Config.Config Addr)
  from_str (inl e) = Deser.err e
  from_str (inr tables) =
      Deser.◌>>=◌ (read_servers tables) λ servers. Deser.ok (record { servers = servers })

module _ {Addr IoError : Type 0} (HttpError : Type 0) (os : Sockets Addr IoError)
    (files : Files Addr IoError os.Os) (sm : Semaphore) (bc : Broadcast Notification) (mp : Mpsc)
    (sb : Broadcast Unit) where
  -- A master whose servers run.
  unfoldable pub run_program : Master os → Program sm bc mp sb
  run_program m = Run.started sm bc mp sb (map (λ b. b.config.max_connections) m.servers)

  -- `main`, from the configuration on
  unfoldable pub start :
      Config.Config Addr → Io os.Os (Error IoError HttpError) (Master os × Program sm bc mp sb)
  start config = do
    master ← (λ o. lift_io (Master.init os config o))
    pure (master, run_program master)

  -- `main`, up to the point where the servers run
  unfoldable pub main : Io os.Os (Error IoError HttpError) (Master os × Program sm bc mp sb)
  unfolding start
  main = do
    text ← (λ o. lift_read (files.read_to_string (bytes "rxh.toml") o))
    config ← lift_toml (from_str (files.tables text))
    start config
