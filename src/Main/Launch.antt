-- ===== src/Main/Launch.antt =====
-- src/main.rs: the servers that run are those of the configuration file.
use mathlib.Core.List.{map-append}
use rxh.Prelude.{
  ◌≤◌, ◌≡◌, refl, sym, ap, subst, ◌∙◌, Option, some, List, [], ◌∷◌, ◌++◌, map, ◌⊎◌, inl, inr, All,
}
use rxh.Prelude.Texts.{Text, bytes}
use rxh.Config
use rxh.Config.{clone_server}
use rxh.Config.Clone.{visit_map-clone}
use rxh.Config.Deser
use rxh.Config.Deser.{DeError}
use rxh.Config.Deser.Loop.{ok_of_bind}
use rxh.Config.Deser.Visit.{Entry, visit_map}
use rxh.Task.Master.Replicas
use rxh.Tokio.{max_permits, Semaphore, Broadcast, Mpsc}
use rxh.Notify.{Notification}
use rxh.Task.Master
use rxh.Task.Master.{Sockets, Outcome, ok, err, panic, Bound, Master}
use rxh.Task.Master.Replicas.{Yields, Yields-then, purpose, all_purposes, init-Made}
use rxh.Task.Master.Run
use rxh.Task.Master.Run.{Program}
use rxh.Main.{
  Files, lift_read, lift_io, lift_toml, read_servers, from_str, start, run_program, main,
}

module _ {Addr : Type 0} where
  -- Every server with every one of its addresses.
  abbrev pub every : List (Config.Server Addr) → List (Config.Server Addr × Addr)
  every [] = []
  every (c ∷ servers) = map (λ a. (c, a)) c.listen ++ every servers

  -- tokio makes a semaphore for the limit.
  abbrev pub IsPermitted : Config.Server Addr × Addr → Type 0
  IsPermitted (c, a) = c.max_connections ≤ max_permits

  abbrev pub IsClonable : List (Config.Server Addr) → Type 0
  IsClonable servers = All (λ c. clone_server c ≡ some c) servers

  pub read_servers-IsClonable :
      (tables : List (List (Entry Addr))) (servers : List (Config.Server Addr))
      → read_servers tables ≡ Deser.ok servers
      → IsClonable servers
  unfolding read_servers
  read_servers-IsClonable [] servers e = let same : [] ≡ servers = cc in subst IsClonable same tt
  read_servers-IsClonable (entries ∷ tables) servers e =
      let (c, read, e1) = ok_of_bind (visit_map entries) _ e in
      let (rest, more, e2) = ok_of_bind (read_servers tables) _ e1 in
      let same : c ∷ rest ≡ servers = cc in
      subst IsClonable same
        ((visit_map-clone entries read).0, read_servers-IsClonable tables rest more)

  abbrev wanted : Config.Server Addr × Addr → Option (Config.Server Addr) × Addr
  wanted (c, a) = (some c, a)

  purposes-wanted :
      (c : Config.Server Addr) (l : List Addr)
      → clone_server c ≡ some c
      → map (λ a. (clone_server c, a)) l ≡ map wanted (map (λ a. (c, a)) l)
  purposes-wanted c [] e = refl
  purposes-wanted c (a ∷ l) e = rw (e, purposes-wanted c l e) refl

  wanted-injective :
      (xs ys : List (Config.Server Addr × Addr)) → map wanted xs ≡ map wanted ys → xs ≡ ys
  wanted-injective [] [] e = refl
  wanted-injective [] (y ∷ ys) e = cc
  wanted-injective (x ∷ xs) [] e = cc
  wanted-injective ((c, a) ∷ xs) ((d, b) ∷ ys) e =
      let tails : map wanted xs ≡ map wanted ys = cc in
      let servers : c ≡ d = cc in
      let addresses : a ≡ b = cc in rw (servers, addresses, wanted-injective xs ys tails) refl

module _ {Os A : Type 0} (IoError HttpError : Type 0) where
  Yields-read :
      (x : (IoError ⊎ A) × Os) → Yields (λ a. x.0 ≡ inr a) (lift_read {HttpError = HttpError} x)
  Yields-read (inl e, o) = tt
  Yields-read (inr a, o) = refl

  Yields-toml :
      (x : Deser.Outcome A) (o : Os)
      → Yields (λ a. x ≡ Deser.ok a) (lift_toml {IoError = IoError} {HttpError = HttpError} x o)
  unfolding lift_toml
  Yields-toml (Deser.ok a) o = refl
  Yields-toml (Deser.err e) o = tt
  Yields-toml Deser.panic o = tt

  Yields-io :
      (P : A → Type 0) (x : Outcome IoError A × Os)
      → Yields P x
      → Yields P (lift_io {HttpError = HttpError} x)
  unfolding lift_io
  Yields-io P (ok a, o) h = h
  Yields-io P (err e, o) h = tt
  Yields-io P (panic, o) h = tt

module _ {Addr : Type 0} where
  pub of_from_str :
      (x : DeError ⊎ List (List (Entry Addr))) (config : Config.Config Addr)
      → from_str x ≡ Deser.ok config
      → (tables : List (List (Entry Addr))) × (x ≡ inr tables)
        × (read_servers tables ≡ Deser.ok config.servers)
  unfolding from_str
  of_from_str (inl e) config h = cc
  of_from_str (inr tables) config h =
      let (servers, read, e) = ok_of_bind (read_servers tables) _ h in
      let same : servers ≡ config.servers = cc in (tables, refl, read ∙ ap Deser.ok same)

All-map :
    {A B : Type 0} (P : B → Type 0) (f : A → B) (xs : List A)
    → All (λ x. P (f x)) xs
    → All P (map f xs)
All-map P f [] h = tt
All-map P f (x ∷ xs) (p, h) = (p, All-map P f xs h)

-- What a server is for.
abbrev pub made_for :
    {Addr IoError : Type 0} (os : Sockets Addr IoError) → Bound os → Config.Server Addr × Addr
made_for os b = (b.config, b.requested)

module _ {Addr IoError : Type 0} (HttpError : Type 0) (os : Sockets Addr IoError)
    (files : Files Addr IoError os.Os) (sm : Semaphore) (bc : Broadcast Notification) (mp : Mpsc)
    (sb : Broadcast Unit) where
  all_purposes-every :
      (servers : List (Config.Server Addr))
      → IsClonable servers
      → all_purposes os servers ≡ map wanted (every servers)
  all_purposes-every [] h = refl
  all_purposes-every (c ∷ servers) (e, h) =
      rw (purposes-wanted c c.listen e, all_purposes-every servers h)
        (sym (map-append wanted (map (λ a. (c, a)) c.listen) (every servers)))

  made_for-every :
      (servers : List (Config.Server Addr)) (m : Master os)
      → IsClonable servers
      → map (purpose os) m.servers ≡ all_purposes os servers
      → map (made_for os) m.servers ≡ every servers
  made_for-every servers m h e =
      wanted-injective _ _ (map-map m.servers ∙ e ∙ all_purposes-every servers h)
    where
      map-map : (bs : List (Bound os)) → map wanted (map (made_for os) bs) ≡ map (purpose os) bs
      map-map [] = refl
      map-map (b ∷ bs) = ap (λ l. purpose os b ∷ l) (map-map bs)

  limits_made_for :
      (bs : List (Bound os)) (wants : List (Config.Server Addr × Addr))
      → map (made_for os) bs ≡ wants
      → map (λ b. b.config.max_connections) bs ≡ map (λ w. w.0.max_connections) wants
  limits_made_for bs wants e = all bs ∙ ap (map (λ w. w.0.max_connections)) e
    where
      all :
          (bs : List (Bound os))
          → map (λ b. b.config.max_connections) bs
            ≡ map (λ w. w.0.max_connections) (map (made_for os) bs)
      all [] = refl
      all (b ∷ bs) = ap (λ l. b.config.max_connections ∷ l) (all bs)

  -- The program that `main` starts on the text of a configuration file.
  pub record IsConfigured (text : Text) (r : Master os × Program sm bc mp sb) : Type 0 where
    pub servers : List (Config.Server Addr)
    pub tables : List (List (Entry Addr))
    pub parsed : files.tables text ≡ inr tables
    pub read : read_servers tables ≡ Deser.ok servers
    pub made : map (made_for os) r.0.servers ≡ every servers
    pub addresses : Master.sockets os r.0 ≡ map (λ b. b.address) r.0.servers
    pub permitted : All IsPermitted (every servers)
    pub runs : r.1 ≡ Run.started sm bc mp sb (map (λ w. w.0.max_connections) (every servers))

  -- If the program comes to the point where its servers run: the configuration file was read, toml
  -- made tables of its text, and visit_map accepted each of them; there is one server for each address
  -- of each table, in this order, with the configuration that visit_map gave, and sockets gives the
  -- addresses where they listen, in the same order; the program starts with their limits, that of a
  -- table once for each of its addresses; and none of these is above the greatest number of permits of
  -- a semaphore.
  pub main-IsConfigured :
      (o : os.Os)
      → Yields
          (λ r.
            (text : Text) × ((files.read_to_string (bytes "rxh.toml") o).0 ≡ inr text)
            × IsConfigured text r)
          (main HttpError os files sm bc mp sb o)
  unfolding main start run_program
  main-IsConfigured o =
      Yields-then (λ text. (files.read_to_string (bytes "rxh.toml") o).0 ≡ inr text) _ _ _
        (Yields-read IoError HttpError _)
        λ text e o1.
          Yields-then (λ config. from_str (files.tables text) ≡ Deser.ok config) _ _ _
            (Yields-toml IoError HttpError _ o1)
            λ config f o2.
              Yields-then
                (λ m.
                  (map (purpose os) m.servers ≡ all_purposes os config.servers)
                  × (Master.sockets os m ≡ map (λ b. b.address) m.servers)
                  × All (Replicas.IsPermitted os) m.servers)
                _ _ _ (Yields-io IoError HttpError _ _ (init-Made os config o2))
                λ m (h, addresses, small) o3.
                  let (tables, parsed, read) = of_from_str (files.tables text) config f in
                  let made =
                    made_for-every config.servers m
                      (read_servers-IsClonable tables config.servers read) h in
                  (
                    text,
                    e,
                    record {
                      servers = config.servers;
                      tables = tables;
                      parsed = parsed;
                      read = read;
                      made = made;
                      addresses = addresses;
                      permitted =
                          subst (All IsPermitted) made
                            (All-map IsPermitted (made_for os) m.servers small);
                      runs = ap (Run.started sm bc mp sb) (limits_made_for m.servers _ made);
                    },
                  )
