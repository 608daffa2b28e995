-- ===== src/Main/Errors.antt =====
-- src/lib.rs and src/main.rs: what the errors of the program before its servers run are.
use rxh.Prelude.{◌≡◌, refl, ap, ◌++◌, ◌⊎◌, inl, inr}
use rxh.Prelude.Texts.{Text, bytes}
use rxh.Config
use rxh.Config.Deser
use rxh.Config.Deser.{DeError}
use rxh.Tokio.{Semaphore, Broadcast, Mpsc}
use rxh.Notify.{Notification}
use rxh.Task.Master
use rxh.Task.Master.{Sockets, Outcome, ok, err, panic, Io, then_do, Master}
use rxh.Task.Master.Failures.{SocketFails, init-SocketFails}
use rxh.Main.{Error, io, toml, Files, lift_read, lift_io, lift_toml, from_str, start, main, display}

-- An error is that of the first part, or that of what follows.
err_then :
    {Os Error A B : Type 0} (k : A → Io Os Error B) (x : Outcome Error A × Os) (e : Error)
    → (then_do k x).0 ≡ err e
    → (x.0 ≡ err e) ⊎ ((a : A) × (o : Os) × (x.0 ≡ ok a) × ((k a o).0 ≡ err e))
unfolding then_do
err_then k (ok a, o) e h = inr (a, o, refl, h)
err_then k (err f, o) e h = inl (cc)
err_then k (panic, o) e h = cc

module _ {IoError HttpError Os A : Type 0} where
  err_read :
      (x : (IoError ⊎ A) × Os) (e : Error IoError HttpError)
      → (lift_read x).0 ≡ err e
      → (f : IoError) × (x.0 ≡ inl f) × (e ≡ io f)
  err_read (inl f, o) e h = (f, refl, cc)
  err_read (inr a, o) e h = cc

  ok_read :
      (x : (IoError ⊎ A) × Os) (a : A)
      → (lift_read {HttpError = HttpError} x).0 ≡ ok a
      → x.0 ≡ inr a
  ok_read (inl f, o) a h = cc
  ok_read (inr b, o) a h = cc

  ok_toml :
      (x : Deser.Outcome A) (o : Os) (a : A)
      → (lift_toml {IoError = IoError} {HttpError = HttpError} x o).0 ≡ ok a
      → x ≡ Deser.ok a
  unfolding lift_toml
  ok_toml (Deser.ok b) o a h = cc
  ok_toml (Deser.err d) o a h = cc
  ok_toml Deser.panic o a h = cc

  err_toml :
      (x : Deser.Outcome A) (o : Os) (e : Error IoError HttpError)
      → (lift_toml x o).0 ≡ err e
      → (d : DeError) × (x ≡ Deser.err d) × (e ≡ toml d)
  unfolding lift_toml
  err_toml (Deser.ok a) o e h = cc
  err_toml (Deser.err d) o e h = (d, refl, cc)
  err_toml Deser.panic o e h = cc

  err_io :
      (x : Outcome IoError A × Os) (e : Error IoError HttpError)
      → (lift_io x).0 ≡ err e
      → (f : IoError) × (x.0 ≡ err f) × (e ≡ io f)
  unfolding lift_io
  err_io (ok a, o) e h = cc
  err_io (err f, o) e h = (f, refl, cc)
  err_io (panic, o) e h = cc

module _ {Addr IoError HttpError : Type 0} (os : Sockets Addr IoError)
    (files : Files Addr IoError os.Os) (sm : Semaphore) (bc : Broadcast Notification) (mp : Mpsc)
    (sb : Broadcast Unit) where
  err_start :
      (config : Config.Config Addr) (o : os.Os) (e : Error IoError HttpError)
      → (start HttpError os files sm bc mp sb config o).0 ≡ err e
      → (f : IoError) × ((Master.init os config o).0 ≡ err f) × (e ≡ io f)
  unfolding start
  err_start config o e h = elim (err_then _ (lift_io (Master.init os config o)) e h) [
    | inl f ↦ err_io (Master.init os config o) e f
    | inr (m, o', g, r) ↦ cc
  ]

  -- If the program fails before its servers run: the configuration file could not be read, and the
  -- error is what reading it gave, displayed as an IO error; or its text was read and refused with an
  -- error of toml, and the error is that one, displayed as a TOML parse error; or a configuration was
  -- made of its text, and the error is what a call on a socket gave, displayed as an IO error.
  pub main_errors :
      (show_io : IoError → Text) (show_toml : DeError → Text) (show_http : HttpError → Text)
      (o : os.Os) (e : Error IoError HttpError)
      → (main HttpError os files sm bc mp sb o).0 ≡ err e
      → ((f : IoError) × ((files.read_to_string (bytes "rxh.toml") o).0 ≡ inl f)
          × (e ≡ io f)
          × (display show_io show_toml show_http e ≡ bytes "IO error: " ++ show_io f))
        ⊎ ((text : Text) × (d : DeError) × ((files.read_to_string (bytes "rxh.toml") o).0
              ≡ inr text)
            × (from_str (files.tables text) ≡ Deser.err d)
            × (e ≡ toml d)
            × (display show_io show_toml show_http e ≡ bytes "TOML parse error: " ++ show_toml d))
        ⊎ ((text : Text) × (config : Config.Config Addr) × (f : IoError) × ((files.read_to_string
                (bytes "rxh.toml")
                o).0
              ≡ inr text)
            × (from_str (files.tables text) ≡ Deser.ok config)
            × SocketFails os f
            × (e ≡ io f)
            × (display show_io show_toml show_http e ≡ bytes "IO error: " ++ show_io f))
  unfolding main display
  main_errors show_io show_toml show_http o e h =
      elim (err_then _ (lift_read (files.read_to_string (bytes "rxh.toml") o)) e h) [
        | inl f ↦
            let (g, fails, k) = err_read _ e f in
            inl (g, fails, k, ap (display show_io show_toml show_http) k)
        | inr (text, o1, f, h1) ↦
            let was_read = ok_read {HttpError = HttpError} _ text f in
            elim (err_then _ (lift_toml (from_str (files.tables text)) o1) e h1) [
              | inl g ↦
                  let (d, refused, k) = err_toml _ o1 e g in
                  inr (
                    inl (text, d, was_read, refused, k, ap (display show_io show_toml show_http) k))
              | inr (config, o2, g, h2) ↦
                  let (f', fails, k) = err_start config o2 e h2 in
                  inr (
                    inr (
                      text,
                      config,
                      f',
                      was_read,
                      ok_toml {IoError = IoError} {HttpError = HttpError} _ o1 config g,
                      init-SocketFails os config o2 f' fails,
                      k,
                      ap (display show_io show_toml show_http) k,
                    ))
            ]
      ]
