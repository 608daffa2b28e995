-- ===== src/Task/Master/Replicas.antt =====
-- src/task/master.rs: which servers `Master::init` makes.
use mathlib.Core.List.{append_assoc, append-nil}
use mathlib.Core.Option.{some-injective}
use rxh.Prelude.Options
use rxh.Prelude.{
  list_laws, suc, ◌≡◌, refl, sym, ap, subst, ◌∙◌, Option, none, some, List, [], ◌∷◌, ◌++◌, map,
  length, length-append, get_elem?, arith, ◌≤◌, All, All-append,
}
use rxh.Tokio.{max_permits, check_limit, check_limit-some}
use rxh.Config
use rxh.Config.{clone_server, clone_patterns}
use rxh.Task.Master.{
  Sockets, Outcome, ok, err, panic, Io, then_do, unwrap, pure, Bound, Master, bind_server,
  init_server, init_replicas, init_servers, init, sockets,
}

get_elem?_middle :
    {A : Type 0} (xs : List A) (a : A) (ys : List A) → get_elem? (xs ++ a ∷ ys) (length xs) ≡ some a
get_elem?_middle [] a ys = refl
get_elem?_middle (x ∷ xs) a ys = get_elem?_middle xs a ys

-- What holds of a result, if there is one.
abbrev pub Yields : {Os Error A : Type 0} → (A → Type 0) → Outcome Error A × Os → Type 0
Yields P (ok a, o) = P a
Yields P (err e, o) = Unit
Yields P (panic, o) = Unit

pub Yields-then :
    {Os Error A B : Type 0} (Q : A → Type 0) (P : B → Type 0) (k : A → Io Os Error B)
    (x : Outcome Error A × Os)
    → Yields Q x
    → ((a : A) → Q a → (o : Os) → Yields P (k a o))
    → Yields P (then_do k x)
unfolding then_do
Yields-then Q P k (ok a, o) h f = f a h o
Yields-then Q P k (err e, o) h f = tt
Yields-then Q P k (panic, o) h f = tt

pub Yields-any :
    {Os Error A B : Type 0} (P : B → Type 0) (k : A → Io Os Error B) (x : Outcome Error A × Os)
    → ((a : A) (o : Os) → Yields P (k a o))
    → Yields P (then_do k x)
unfolding then_do
Yields-any P k (ok a, o) f = f a o
Yields-any P k (err e, o) f = tt
Yields-any P k (panic, o) f = tt

Yields-unwrap :
    {Os A : Type 0} (Error : Type 0) (x : Option A) (o : Os)
    → Yields {Error = Error} (λ a. x ≡ some a) (unwrap x o)
Yields-unwrap Error none o = tt
Yields-unwrap Error (some a) o = refl

clone-listen :
    {Addr : Type 0} (c c' : Config.Server Addr) → clone_server c ≡ some c' → c'.listen ≡ c.listen
unfolding clone_server
clone-listen {Addr = Addr} c c' e = rebuilt (clone_patterns c.patterns) e
  where
    rebuilt :
        (o : Option (List (Config.Pattern Addr)))
        → (Options.◌>>=◌ o (λ ps. some (record c { patterns = ps }))) ≡ some c'
        → c'.listen ≡ c.listen
    rebuilt none e = cc
    rebuilt (some ps) e = ap (λ c. c.listen) (sym (some-injective _ _ e))

pub Yields-weaken :
    {Os Error A : Type 0} (Q P : A → Type 0) (x : Outcome Error A × Os)
    → Yields Q x
    → ((a : A) → Q a → P a)
    → Yields P x
Yields-weaken Q P (ok a, o) h f = f a h
Yields-weaken Q P (err e, o) h f = tt
Yields-weaken Q P (panic, o) h f = tt

map-push :
    {A B : Type 0} (f : A → B) (xs : List A) (x : A) → map f (xs ++ x ∷ []) ≡ map f xs ++ f x ∷ []
map-push f [] x = refl
map-push f (y ∷ xs) x = ap (λ l. f y ∷ l) (map-push f xs x)

module _ {Addr Error : Type 0} (os : Sockets Addr Error) where
  -- What a server was made for.
  abbrev pub purpose : Bound os → Option (Config.Server Addr) × Addr
  purpose b = (some b.config, b.requested)

  abbrev pub purposes : Config.Server Addr → List Addr → List (Option (Config.Server Addr) × Addr)
  purposes config addresses = map (λ a. (clone_server config, a)) addresses

  abbrev Fits : Config.Server Addr → Addr → Bound os → Type 0
  Fits config requested b =
      (b.config ≡ config) × (b.requested ≡ requested) × (config.max_connections ≤ max_permits)

  bind_server-Fits :
      (config : Config.Server Addr) (requested : Addr) (o : os.Os)
      → Yields (Fits config requested) (bind_server os config requested o)
  unfolding bind_server
  bind_server-Fits config requested o =
      let P = Fits config requested in
      Yields-any P _ _ λ _ _. Yields-any P _ _ λ _ _. Yields-any P _ _ λ _ _.
        Yields-any P _ _ λ listener _. Yields-any P _ _ λ address o.
          Yields-then (λ u. check_limit config.max_connections ≡ some u) P
            (λ _. pure (record {
              config = config;
              requested = requested;
              listener = listener;
              address = address;
            }))
            _ (Yields-unwrap Error (check_limit config.max_connections) o)
            λ u e _. (refl, refl, check_limit-some e)

  -- A server is made for a clone of its configuration, and for one of its addresses.
  abbrev For : Config.Server Addr → Addr → Bound os → Type 0
  For config a b = (purpose b ≡ (clone_server config, a)) × (b.config.max_connections ≤ max_permits)

  init_server-For :
      (config : Config.Server Addr) (before : List Addr) (a : Addr) (rest : List Addr) (o : os.Os)
      → config.listen ≡ before ++ a ∷ rest
      → Yields (For config a) (init_server os config (length before) o)
  unfolding init_server
  init_server-For config before a rest o e =
      Yields-then (λ c. clone_server config ≡ some c) (For config a) _ _
        (Yields-unwrap Error (clone_server config) o)
        λ c f o.
          Yields-then (λ b. get_elem? c.listen (length before) ≡ some b) (For config a) _ _
            (Yields-unwrap Error (get_elem? c.listen (length before)) o)
            λ b g o.
              Yields-weaken (Fits c b) (For config a) _ (bind_server-Fits c b o) λ x (h, k, small).
                let l = ap (λ xs. get_elem? xs (length before)) (clone-listen config c f ∙ e) in
                let m = some-injective b a (sym g ∙ l ∙ get_elem?_middle before a rest) in
                (cc, omega (arith, small, ap (λ c. c.max_connections) h))

  -- tokio makes a semaphore for the server's limit.
  abbrev pub IsPermitted : Bound os → Type 0
  IsPermitted b = b.config.max_connections ≤ max_permits

  -- The servers of the master are for these purposes, and the states belong to their addresses.
  pub record Made (wanted : List (Option (Config.Server Addr) × Addr)) (m : Master os)
      : Type 0 where
    pub made : map purpose m.servers ≡ wanted
    pub addresses : m.states ≡ map (λ b. b.address) m.servers
    pub permitted : All IsPermitted m.servers

  Made-push :
      (w : List (Option (Config.Server Addr) × Addr)) (m : Master os) (config : Config.Server Addr)
      (a : Addr) (b : Bound os)
      → Made w m
      → For config a b
      → Made
          (w ++ (clone_server config, a) ∷ [])
          (record { servers = m.servers ++ b ∷ []; states = m.states ++ b.address ∷ [] })
  Made-push w m config a b h (e, small) = record {
    made =
        map-push purpose m.servers b
        ∙ ap (λ l. l ++ purpose b ∷ []) h.made
        ∙ ap (λ x. w ++ x ∷ []) e;
    addresses =
        ap (λ l. l ++ b.address ∷ []) h.addresses ∙ sym (map-push (λ b. b.address) m.servers b);
    permitted = All-append IsPermitted m.servers (b ∷ []) h.permitted (small, tt);
  }

  init_replicas-Made :
      (config : Config.Server Addr) (rest before : List Addr)
      (w : List (Option (Config.Server Addr) × Addr)) (m : Master os) (o : os.Os)
      → config.listen ≡ before ++ rest
      → Made w m
      → Yields
          (Made (w ++ purposes config rest))
          (init_replicas os config (length before) (length rest) m o)
  unfolding init_replicas
  init_replicas-Made config [] before w m o e h = simp list_laws h
  init_replicas-Made config (a ∷ rest) before w m o e h =
      Yields-then (For config a) (Made (w ++ purposes config (a ∷ rest))) _ _
        (init_server-For config before a rest o e)
        λ b f o.
          let x : Option (Config.Server Addr) × Addr = (clone_server config, a) in
          let m' : Master os = record {
            servers = m.servers ++ b ∷ [];
            states = m.states ++ b.address ∷ [];
          } in
          let goes =
            init_replicas-Made config rest (before ++ a ∷ []) (w ++ x ∷ []) m' o (simp list_laws e)
              (Made-push w m config a b h f) in
          subst
            (λ v.
              Yields (Made v) (init_replicas os config (suc (length before)) (length rest) m' o))
            (append_assoc w (x ∷ []) (purposes config rest))
            (subst
              (λ i.
                Yields (Made (w ++ x ∷ [] ++ purposes config rest))
                  (init_replicas os config i (length rest) m' o))
              (length-append before (a ∷ []) ∙ omega arith) goes)

  -- Every server of a configuration with every one of its addresses.
  abbrev pub all_purposes : List (Config.Server Addr) → List (Option (Config.Server Addr) × Addr)
  all_purposes [] = []
  all_purposes (config ∷ servers) = purposes config config.listen ++ all_purposes servers

  init_servers-Made :
      (servers : List (Config.Server Addr)) (w : List (Option (Config.Server Addr) × Addr))
      (m : Master os) (o : os.Os)
      → Made w m
      → Yields (Made (w ++ all_purposes servers)) (init_servers os servers m o)
  unfolding init_servers
  init_servers-Made [] w m o h = subst (λ v. Made v m) (sym (append-nil w)) h
  init_servers-Made (config ∷ servers) w m o h =
      let l = purposes config config.listen in
      Yields-then (Made (w ++ l)) (Made (w ++ all_purposes (config ∷ servers))) _ _
        (init_replicas-Made config config.listen [] w m o refl h)
        λ m' h' o'.
          subst (λ v. Yields (Made v) (init_servers os servers m' o'))
            (append_assoc w l (all_purposes servers)) (init_servers-Made servers (w ++ l) m' o' h')

  -- If the master can be initialized, it has one server for each address of each server of the
  -- configuration, in this order, made for this address and a clone of this server, sockets gives the
  -- addresses where they listen, in the same order, and tokio makes a semaphore for the limit of each.
  pub init-Made :
      (config : Config.Config Addr) (o : os.Os)
      → Yields
          (λ m.
            (map purpose m.servers ≡ all_purposes config.servers)
            × (sockets os m ≡ map (λ b. b.address) m.servers)
            × All IsPermitted m.servers)
          (init os config o)
  unfolding init sockets
  init-Made config o =
      Yields-weaken (Made (all_purposes config.servers)) _ _
        (init_servers-Made config.servers [] _ o
          (record { made = refl; addresses = refl; permitted = tt }))
        λ m h. (h.made, h.addresses, h.permitted)
