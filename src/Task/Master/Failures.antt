-- ===== src/Task/Master/Failures.antt =====
-- src/task/master.rs: where an error of `Master::init` comes from.
use rxh.Prelude.{
  ℕ, zero, suc, ◌≡◌, refl, subst, Bool, true, false, Option, none, some, List, [], ◌∷◌, length,
  get_elem?, ◌⊎◌, inl, inr, if◌then◌else◌,
}
use rxh.Tokio.{check_limit}
use rxh.Config
use rxh.Config.{clone_server}
use rxh.Task.Master.{
  Sockets, Outcome, ok, err, panic, Io, then_do, unwrap, answered, Master, bind_server, init_server,
  init_replicas, init_servers, init,
}

-- What holds of an error, if there is one.
abbrev Errs : {Os Error A : Type 0} → (Error → Type 0) → Outcome Error A × Os → Type 0
Errs P (ok a, o) = Unit
Errs P (err e, o) = P e
Errs P (panic, o) = Unit

Errs-then :
    {Os Error A B : Type 0} (P : Error → Type 0) (k : A → Io Os Error B) (x : Outcome Error A × Os)
    → Errs P x
    → ((a : A) (o : Os) → Errs P (k a o))
    → Errs P (then_do k x)
unfolding then_do
Errs-then P k (ok a, o) h f = f a o
Errs-then P k (err e, o) h f = h
Errs-then P k (panic, o) h f = tt

Errs-unwrap :
    {Os Error A : Type 0} (P : Error → Type 0) (x : Option A) (o : Os)
    → Errs P (unwrap {Error = Error} x o)
Errs-unwrap P none o = tt
Errs-unwrap P (some a) o = tt

Errs-answered :
    {Os Error A : Type 0} (P : Error → Type 0) (x : (Error ⊎ A) × Os)
    → ((f : Error) → x.0 ≡ inl f → P f)
    → Errs P (answered x)
Errs-answered P (inl f, o) h = h f refl
Errs-answered P (inr a, o) h = tt

of_Errs :
    {Os Error A : Type 0} (P : Error → Type 0) (x : Outcome Error A × Os) (e : Error)
    → Errs P x
    → x.0 ≡ err e
    → P e
of_Errs P (ok a, o) e h g = cc
of_Errs P (err f, o) e h g = let same : f ≡ e = cc in subst P same h
of_Errs P (panic, o) e h g = cc

module _ {Addr Error : Type 0} (os : Sockets Addr Error) where
  -- A call on a socket answers with the error.
  pub data SocketFails (f : Error) : Type 0 where
    at_new_v4 : (o : os.Os) → (os.new_v4 o).0 ≡ inl f → SocketFails f
    at_new_v6 : (o : os.Os) → (os.new_v6 o).0 ≡ inl f → SocketFails f
    at_set_reuseaddr :
        (s : os.Socket) (o : os.Os) → (os.set_reuseaddr s o).0 ≡ inl f → SocketFails f
    at_bind : (s : os.Socket) (a : Addr) (o : os.Os) → (os.bind s a o).0 ≡ inl f → SocketFails f
    at_listen : (s : os.Socket) (n : ℕ) (o : os.Os) → (os.listen s n o).0 ≡ inl f → SocketFails f

  new-Errs :
      (b : Bool) (o : os.Os) (f : Error)
      → (if b then os.new_v4 o else os.new_v6 o).0 ≡ inl f
      → SocketFails f
  new-Errs true o f e = at_new_v4 o e
  new-Errs false o f e = at_new_v6 o e

  bind_server-Errs :
      (config : Config.Server Addr) (requested : Addr) (o : os.Os)
      → Errs SocketFails (bind_server os config requested o)
  unfolding bind_server
  bind_server-Errs config requested o =
      let P = SocketFails in
      Errs-then P _ _ (Errs-answered P _ (new-Errs (os.is_ipv4 requested) o)) λ s1 o1.
        Errs-then P _ _ (Errs-answered P _ (λ f. at_set_reuseaddr s1 o1)) λ s2 o2.
          Errs-then P _ _ (Errs-answered P _ (λ f. at_bind s2 requested o2)) λ s3 o3.
            Errs-then P _ _ (Errs-answered P _ (λ f. at_listen s3 1024 o3)) λ listener o4.
              Errs-then P _ _ (Errs-unwrap P (os.local_addr listener) o4) λ _ o5.
                Errs-then P _ _ (Errs-unwrap P (check_limit config.max_connections) o5) λ _ _. tt

  init_server-Errs :
      (config : Config.Server Addr) (replica : ℕ) (o : os.Os)
      → Errs SocketFails (init_server os config replica o)
  unfolding init_server
  init_server-Errs config replica o =
      let P = SocketFails in
      Errs-then P _ _ (Errs-unwrap P (clone_server config) o) λ c o1.
        Errs-then P _ _ (Errs-unwrap P (get_elem? c.listen replica) o1)
          λ a o2. bind_server-Errs c a o2

  init_replicas-Errs :
      (config : Config.Server Addr) (replica n : ℕ) (m : Master os) (o : os.Os)
      → Errs SocketFails (init_replicas os config replica n m o)
  unfolding init_replicas
  init_replicas-Errs config replica zero m o = tt
  init_replicas-Errs config replica (suc n) m o =
      Errs-then SocketFails _ _ (init_server-Errs config replica o)
        λ b o1. init_replicas-Errs config (suc replica) n _ o1

  init_servers-Errs :
      (servers : List (Config.Server Addr)) (m : Master os) (o : os.Os)
      → Errs SocketFails (init_servers os servers m o)
  unfolding init_servers
  init_servers-Errs [] m o = tt
  init_servers-Errs (c ∷ servers) m o =
      Errs-then SocketFails _ _ (init_replicas-Errs c 0 (length c.listen) m o)
        λ m1 o1. init_servers-Errs servers m1 o1

  -- An error of `init` is the answer of a call on a socket.
  pub init-SocketFails :
      (config : Config.Config Addr) (o : os.Os) (e : Error)
      → (init os config o).0 ≡ err e
      → SocketFails e
  unfolding init
  init-SocketFails config o e h =
      of_Errs SocketFails (init os config o) e (init_servers-Errs config.servers _ o) h
