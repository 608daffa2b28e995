-- ===== src/Main/Outcomes.antt =====
-- src/main.rs and src/task/master.rs: that the program comes through its start without a panic, and
-- without an error where no call on a socket fails.
use rxh.Prelude.{
  ◌≤◌, All, ◌++◌, map, ℕ, zero, suc, ◌+◌, ◌<◌, ◌≡◌, refl, ap, Option, none, some, List, [], ◌∷◌,
  length, get_elem?, get_elem?_lt, ◌⊎◌, inl, inr, arith, Bool, true, false, if◌then◌else◌,
}
use rxh.Config
use rxh.Config.{clone_server}
use rxh.Tokio.{max_permits, check_limit, check_limit_passes, Semaphore, Broadcast, Mpsc}
use rxh.Notify.{Notification}
use rxh.Task.Master
use rxh.Task.Master.{
  Sockets, Outcome, ok, err, panic, Io, then_do, unwrap, Master, bind_server, init_server,
  init_replicas, init_servers,
}
use rxh.Main.{Files, lift_io, start}
use rxh.Main.Launch.{IsClonable, IsPermitted, every}

-- The outcome is no panic, and an error only if `errors` allows it.
abbrev pub allows : {Error A : Type 0} → (errors : Bool) → Outcome Error A → Bool
allows errors (ok a) = true
allows errors (err e) = errors
allows errors panic = false

abbrev pub Fine : {Os Error A : Type 0} → Bool → Outcome Error A × Os → Type 0
Fine errors x = allows errors x.0 ≡ true

-- A call gives a value.
abbrev pub Gives : {Os Error A : Type 0} → (Error ⊎ A) × Os → Type 0
Gives {A = A} x = (a : A) × (x.0 ≡ inr a)

Fine-then :
    {Os Error A B : Type 0} (errors : Bool) (k : A → Io Os Error B) (x : Outcome Error A × Os)
    → Fine errors x
    → ((a : A) → x.0 ≡ ok a → (o : Os) → Fine errors (k a o))
    → Fine errors (then_do k x)
unfolding then_do
Fine-then errors k (ok a, o) h f = f a refl o
Fine-then errors k (err e, o) h f = h
Fine-then errors k (panic, o) h f = cc

Fine-unwrap :
    {Os A : Type 0} (Error : Type 0) (errors : Bool) (x : Option A) (a : A) (o : Os)
    → x ≡ some a
    → Fine errors (unwrap {Error = Error} x o)
Fine-unwrap Error errors none a o e = cc
Fine-unwrap Error errors (some b) a o e = refl

Fine-answered :
    {Os Error A : Type 0} (errors : Bool) (x : (Error ⊎ A) × Os)
    → (errors ≡ true) ⊎ Gives x
    → Fine errors (Master.answered x)
Fine-answered errors (inr a, o) h = refl
Fine-answered errors (inl e, o) (inl h) = h
Fine-answered errors (inl e, o) (inr (a, h)) = cc

-- What is unwrapped was there.
of_unwrap :
    {Os A : Type 0} (Error : Type 0) (x : Option A) (a : A) (o : Os)
    → (unwrap {Error = Error} x o).0 ≡ ok a
    → x ≡ some a
of_unwrap Error none a o e = cc
of_unwrap Error (some b) a o e = cc

-- No call on a socket fails.
pub record IsWorking {Addr IoError : Type 0} (os : Sockets Addr IoError) : Type 0 where
  pub new_v4 : (o : os.Os) → Gives (os.new_v4 o)
  pub new_v6 : (o : os.Os) → Gives (os.new_v6 o)
  pub set_reuseaddr : (s : os.Socket) (o : os.Os) → Gives (os.set_reuseaddr s o)
  pub bind : (s : os.Socket) (a : Addr) (o : os.Os) → Gives (os.bind s a o)
  pub listen : (s : os.Socket) (n : ℕ) (o : os.Os) → Gives (os.listen s n o)

module _ {Addr IoError : Type 0} (errors : Bool) (os : Sockets Addr IoError)
    (known : (l : os.Listener) → (a : Addr) × (os.local_addr l ≡ some a))
    (works : (errors ≡ true) ⊎ IsWorking os) where
  call-Fine :
      {A : Type 0} (x : (IoError ⊎ A) × os.Os)
      → (IsWorking os → Gives x)
      → Fine errors (Master.answered x)
  call-Fine x f = Fine-answered errors x (elim works [ inl h ↦ inl h | inr w ↦ inr (f w) ])

  new-Gives : (b : Bool) (o : os.Os) → IsWorking os → Gives (if b then os.new_v4 o else os.new_v6 o)
  new-Gives true o w = w.new_v4 o
  new-Gives false o w = w.new_v6 o

  bind_server-Fine :
      (config : Config.Server Addr) (requested : Addr) (o : os.Os)
      → config.max_connections ≤ max_permits
      → Fine errors (bind_server os config requested o)
  unfolding bind_server
  bind_server-Fine config requested o small =
      Fine-then errors _ _ (call-Fine _ (new-Gives (os.is_ipv4 requested) o)) λ s1 _ o1.
        Fine-then errors _ _ (call-Fine _ (λ w. w.set_reuseaddr s1 o1)) λ s2 _ o2.
          Fine-then errors _ _ (call-Fine _ (λ w. w.bind s2 requested o2)) λ s3 _ o3.
            Fine-then errors _ _ (call-Fine _ (λ w. w.listen s3 1024 o3)) λ listener _ o4.
              let (a, e) = known listener in
              Fine-then errors _ _ (Fine-unwrap IoError errors (os.local_addr listener) a o4 e)
                λ _ _ o5.
                  Fine-then errors _ _
                    (Fine-unwrap IoError errors (check_limit config.max_connections) tt o5
                      (check_limit_passes config.max_connections small))
                    λ _ _ _. refl

  init_server-Fine :
      (config : Config.Server Addr) (replica : ℕ) (o : os.Os)
      → clone_server config ≡ some config
      → replica < length config.listen
      → config.max_connections ≤ max_permits
      → Fine errors (init_server os config replica o)
  unfolding init_server
  init_server-Fine config replica o e l small =
      Fine-then errors _ _ (Fine-unwrap IoError errors (clone_server config) config o e) λ c f o1.
        let same : config ≡ c = cc (of_unwrap IoError (clone_server config) c o f) in
        let l' : replica < length c.listen = omega (arith, l, ap (λ c. length c.listen) same) in
        let (a, g) = get_elem?_lt c.listen replica l' in
        Fine-then errors _ _ (Fine-unwrap IoError errors (get_elem? c.listen replica) a o1 g)
          λ a _ o2. bind_server-Fine c a o2 (omega (arith, small, ap (λ c. c.max_connections) same))

  IsPermitted-head :
      (c : Config.Server Addr) (l : List Addr) (servers : List (Config.Server Addr))
      → All IsPermitted (map (λ a. (c, a)) l ++ every servers)
      → (0 < length l → c.max_connections ≤ max_permits) × All IsPermitted (every servers)
  IsPermitted-head c [] servers k = (λ h. absurd (omega (arith, h)), k)
  IsPermitted-head c (a ∷ l) servers (small, k) = (λ h. small, (IsPermitted-head c l servers k).1)

  init_replicas-Fine :
      (config : Config.Server Addr) (replica n : ℕ) (m : Master os) (o : os.Os)
      → clone_server config ≡ some config
      → replica + n ≡ length config.listen
      → (0 < n → config.max_connections ≤ max_permits)
      → Fine errors (init_replicas os config replica n m o)
  unfolding init_replicas
  init_replicas-Fine config replica zero m o e l small = refl
  init_replicas-Fine config replica (suc n) m o e l small =
      Fine-then errors _ _
        (init_server-Fine config replica o e (omega (arith, l)) (small (omega arith)))
        λ b _ o1.
          init_replicas-Fine config (suc replica) n _ o1 e (omega (arith, l))
            λ _. small (omega arith)

  init_servers-Fine :
      (servers : List (Config.Server Addr)) (m : Master os) (o : os.Os)
      → IsClonable servers
      → All IsPermitted (every servers)
      → Fine errors (init_servers os servers m o)
  unfolding init_servers
  init_servers-Fine [] m o h k = refl
  init_servers-Fine (c ∷ servers) m o (e, h) k =
      let (small, rest) = IsPermitted-head c c.listen servers k in
      Fine-then errors _ _ (init_replicas-Fine c 0 (length c.listen) m o e (omega arith) small)
        λ m1 _ o1. init_servers-Fine servers m1 o1 h rest

  lift_io-Fine :
      {A : Type 0} (HttpError : Type 0) (x : Outcome IoError A × os.Os)
      → Fine errors x
      → Fine errors (lift_io {HttpError = HttpError} x)
  unfolding lift_io
  lift_io-Fine HttpError (ok a, o) h = refl
  lift_io-Fine HttpError (err e, o) h = h
  lift_io-Fine HttpError (panic, o) h = cc

  module _ (HttpError : Type 0) (files : Files Addr IoError os.Os) (sm : Semaphore)
      (bc : Broadcast Notification) (mp : Mpsc) (sb : Broadcast Unit) where
    pub start-Fine :
        (config : Config.Config Addr) (o : os.Os)
        → IsClonable config.servers
        → All IsPermitted (every config.servers)
        → Fine errors (start HttpError os files sm bc mp sb config o)
    unfolding start Master.init
    start-Fine config o h k =
        Fine-then errors _ _ (lift_io-Fine HttpError _ (init_servers-Fine config.servers _ o h k))
          λ _ _ _. refl
