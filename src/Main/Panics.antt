-- ===== src/Main/Panics.antt =====
-- src/main.rs: when the program panics before its servers run.
use rxh.Prelude.{
  zero_or_pos, ◌-◌, ◌<◌, All, arith, subst, ◌≡◌, ◌≢◌, refl, sym, ap, ◌∙◌, some, List, [], ◌∷◌, ◌⊎◌,
  inl, inr, true, false,
}
use rxh.Prelude.Texts.{Text, bytes}
use rxh.Config
use mathlib.Core.List.{Memᴰ}
use rxh.Config.Deser
use rxh.Config.Deser.{DeError}
use rxh.Config.Deser.Blame.{panic_of_bind}
use rxh.Config.Deser.Panics.{Blamed, visit_map-Blamed}
use rxh.Config.Deser.Visit.{Entry, visit_map}
use rxh.Main.Starts.{of_Yields}
use rxh.Task.Master.Run.{Program}
use rxh.Tokio.{max_permits, Semaphore, Broadcast, Mpsc}
use rxh.Notify.{Notification}
use rxh.Task.Master.{Sockets, Outcome, ok, err, panic, then_do, Master}
use rxh.Task.Master.Failures.{SocketFails}
use rxh.Main.Errors.{main_errors}
use rxh.Main.{io, Files, lift_toml, read_servers, from_str, start, main}
use rxh.Main.Outcomes.{allows, Fine, start-Fine}
use rxh.Main.Launch.{every, IsPermitted, main-IsConfigured, of_from_str, read_servers-IsClonable}

module _ {Addr : Type 0} where
  read_servers-Blamed :
      (tables : List (List (Entry Addr)))
      → read_servers tables ≡ Deser.panic
      → (es : List (Entry Addr)) × Memᴰ es tables × Blamed es
  unfolding read_servers
  read_servers-Blamed [] h = cc
  read_servers-Blamed (es ∷ tables) h = elim (panic_of_bind (visit_map es) _ h) [
    | inl p ↦ (es, Memᴰ.head refl, visit_map-Blamed es p)
    | inr (server, _, p) ↦ elim (panic_of_bind (read_servers tables) _ p) [
      | inl q ↦ let (fs, m, b) = read_servers-Blamed tables q in (fs, Memᴰ.tail m, b)
      | inr (servers, _, q) ↦ cc
    ]
  ]

  from_str-Blamed :
      (x : DeError ⊎ List (List (Entry Addr)))
      → from_str x ≡ Deser.panic
      → (tables : List (List (Entry Addr))) × (x ≡ inr tables)
        × (es : List (Entry Addr)) × Memᴰ es tables
        × Blamed es
  unfolding from_str
  from_str-Blamed (inl e) h = cc
  from_str-Blamed (inr tables) h = elim (panic_of_bind (read_servers tables) _ h) [
    | inl p ↦ let (es, m, b) = read_servers-Blamed tables p in (tables, refl, es, m, b)
    | inr (servers, _, p) ↦ cc
  ]

no_ok :
    {Error A : Type 0} (x : Outcome Error A)
    → ((a : A) → x ≢ ok a)
    → (x ≡ panic) ⊎ ((e : Error) × (x ≡ err e))
no_ok (ok a) h = absurd (h a refl)
no_ok (err e) h = inr (e, refl)
no_ok panic h = inl refl

All-Memᴰ : {A : Type 0} (P : A → Type 0) (x : A) (xs : List A) → All P xs → Memᴰ x xs → P x
All-Memᴰ P x [] h m = elim m [ ]
All-Memᴰ P x (y ∷ xs) (p, h) (Memᴰ.head e) = subst P (sym e) p
All-Memᴰ P x (y ∷ xs) (p, h) (Memᴰ.tail m) = All-Memᴰ P x xs h m

IsPermitted-cases :
    {Addr : Type 0} (l : List (Config.Server Addr × Addr))
    → All IsPermitted l
      ⊎ ((server : Config.Server Addr) × (a : Addr) × Memᴰ (server, a) l
          × (max_permits < server.max_connections))
IsPermitted-cases [] = inl tt
IsPermitted-cases ((c, a) ∷ l) = elim (zero_or_pos (c.max_connections - max_permits)) [
  | inr big ↦ inr (c, a, Memᴰ.head refl, omega (arith, big))
  | inl small ↦ elim (IsPermitted-cases l) [
    | inl h ↦ inl (omega (arith, small), h)
    | inr (d, b, m, big) ↦ inr (d, b, Memᴰ.tail m, big)
  ]
]

module _ {Addr IoError : Type 0} (os : Sockets Addr IoError)
    (known : (l : os.Listener) → (a : Addr) × (os.local_addr l ≡ some a)) where
  module _ (HttpError : Type 0) (files : Files Addr IoError os.Os) (sm : Semaphore)
      (bc : Broadcast Notification) (mp : Mpsc) (sb : Broadcast Unit) where
    -- A server of the file whose limit `Semaphore::new` refuses.
    abbrev pub Overloaded : Text → Type 0
    Overloaded text =
        (tables : List (List (Entry Addr))) × (servers : List (Config.Server Addr)) × (files.tables
            text
          ≡ inr tables)
        × (read_servers tables ≡ Deser.ok servers)
        × (server : Config.Server Addr) × (a : Addr) × Memᴰ (server, a) (every servers)
        × (max_permits < server.max_connections)

    -- How reading the configuration goes on.
    read_cases :
        (text : Text) (x : Deser.Outcome (Config.Config Addr)) (o : os.Os)
        → from_str (files.tables text) ≡ x
        → ((x ≡ Deser.panic)
            × ((then_do (start HttpError os files sm bc mp sb) (lift_toml x o)).0 ≡ panic))
          ⊎ Overloaded text
          ⊎ Fine true (then_do (start HttpError os files sm bc mp sb) (lift_toml x o))
    unfolding then_do lift_toml
    read_cases text (Deser.ok config) o e =
        let (tables, parsed, read) = of_from_str (files.tables text) config e in
        elim (IsPermitted-cases (every config.servers)) [
          | inl small ↦ inr (
              inr (
                start-Fine true os known (inl refl) HttpError files sm bc mp sb config o
                  (read_servers-IsClonable tables config.servers read) small))
          | inr (server, a, m, big) ↦
              inr (inl (tables, config.servers, parsed, read, server, a, m, big))
        ]
    read_cases text (Deser.err e) o _ = inr (inr refl)
    read_cases text Deser.panic o _ = inl (refl, refl)

    -- The program does not come to run with such a server.
    Overloaded-not-ok :
        (o : os.Os) (text : Text) (r : Master os × Program sm bc mp sb)
        → (files.read_to_string (bytes "rxh.toml") o).0 ≡ inr text
        → Overloaded text
        → (main HttpError os files sm bc mp sb o).0 ≢ ok r
    Overloaded-not-ok o text r f (tables, servers, parsed, read, server, a, m, big) e =
        let (text', f', c) =
          of_Yields _ (main HttpError os files sm bc mp sb o) r
            (main-IsConfigured HttpError os files sm bc mp sb o) e in
        let same : text' ≡ text = cc in
        let parsed' : files.tables text ≡ inr c.tables = ap files.tables (sym same) ∙ c.parsed in
        let same_tables : c.tables ≡ tables = cc in
        let read' : read_servers tables ≡ Deser.ok c.servers =
          ap read_servers (sym same_tables) ∙ c.read in
        let same_servers : c.servers ≡ servers = cc in
        let small =
          All-Memᴰ IsPermitted (server, a) (every servers)
            (subst (λ l. All IsPermitted (every l)) same_servers c.permitted) m in
        absurd (omega (arith, small, big))

    -- It panics, or a call on a socket fails before.
    Overloaded-ends :
        (o : os.Os) (text : Text)
        → (files.read_to_string (bytes "rxh.toml") o).0 ≡ inr text
        → Overloaded text
        → ((main HttpError os files sm bc mp sb o).0 ≡ panic)
          ⊎ ((f : IoError) × SocketFails os f
              × ((main HttpError os files sm bc mp sb o).0 ≡ err (io f)))
    unfolding from_str
    Overloaded-ends o text f big = elim (no_ok _ (λ r. Overloaded-not-ok o text r f big)) [
      | inl p ↦ inl p
      | inr (e, h) ↦ elim (main_errors os files sm bc mp sb (λ _. []) (λ _. []) (λ _. []) o e h) [
        | inl (g, fails, _, _) ↦ cc
        | inr (inl (text', d, f', refused, _, _)) ↦
            let (tables, servers, parsed, read, _, _, _, _) = big in
            let same : text' ≡ text = cc in
            let parsed' : files.tables text' ≡ inr tables = ap files.tables same ∙ parsed in
            absurd (
              let bad : Deser.err d ≡ Deser.ok (record { servers = servers }) =
                sym refused ∙ ap from_str parsed' ∙ rw read refl in
              cc)
        | inr (inr (text', config, g, _, _, fails, same, _)) ↦ inr (g, fails, h ∙ ap err same)
      ]
    ]

    -- If the address of a socket that listens is always known, there are three cases. The
    -- configuration file is read, an entry in one of its tables is to blame (toml itself panics at its
    -- value, or it has a forward whose weights add up to 0, alone or in a match), and the program
    -- panics. Or the file is read and its tables accepted, one that has an address has a limit on
    -- connections above the greatest number of permits of a semaphore, and the program panics before
    -- its servers run, unless a call on a socket fails before, with whose error it ends. Or the
    -- program does not panic before its servers run.
    pub main_panics :
        (o : os.Os)
        → ((text : Text) × ((files.read_to_string (bytes "rxh.toml") o).0 ≡ inr text)
            × ((tables : List (List (Entry Addr))) × (files.tables text ≡ inr tables)
                × (es : List (Entry Addr)) × Memᴰ es tables
                × Blamed es)
            × ((main HttpError os files sm bc mp sb o).0 ≡ panic))
          ⊎ ((text : Text) × ((files.read_to_string (bytes "rxh.toml") o).0 ≡ inr text)
              × Overloaded text
              × (((main HttpError os files sm bc mp sb o).0 ≡ panic)
                  ⊎ ((f : IoError) × SocketFails os f
                      × ((main HttpError os files sm bc mp sb o).0 ≡ err (io f)))))
          ⊎ ((main HttpError os files sm bc mp sb o).0 ≢ panic)
    unfolding main then_do
    main_panics o = from_read (files.read_to_string (bytes "rxh.toml") o) refl
      where
        from_read :
            (x : (IoError ⊎ Text) × os.Os)
            → files.read_to_string (bytes "rxh.toml") o ≡ x
            → ((text : Text) × ((files.read_to_string (bytes "rxh.toml") o).0 ≡ inr text)
                × ((tables : List (List (Entry Addr))) × (files.tables text ≡ inr tables)
                    × (es : List (Entry Addr)) × Memᴰ es tables
                    × Blamed es)
                × ((main HttpError os files sm bc mp sb o).0 ≡ panic))
              ⊎ ((text : Text) × ((files.read_to_string (bytes "rxh.toml") o).0 ≡ inr text)
                  × Overloaded text
                  × (((main HttpError os files sm bc mp sb o).0 ≡ panic)
                      ⊎ ((f : IoError) × SocketFails os f
                          × ((main HttpError os files sm bc mp sb o).0 ≡ err (io f)))))
              ⊎ ((main HttpError os files sm bc mp sb o).0 ≢ panic)
        from_read (inl e, o') f = inr (inr (rw f λ g. cc))
        from_read (inr text, o') f = elim (read_cases text (from_str (files.tables text)) o' refl) [
          | inl (p, q) ↦ inl (text, ap (λ x. x.0) f, from_str-Blamed _ p, rw f q)
          | inr (inl big) ↦
              inr (inl (text, ap (λ x. x.0) f, big, Overloaded-ends o text (ap (λ x. x.0) f) big))
          | inr (inr c) ↦
              inr
                (inr (rw f λ g. absurd (let bad : true ≡ false = sym c ∙ ap (allows true) g in cc)))
        ]
