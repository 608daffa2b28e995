-- ===== src/Main/Starts.antt =====
-- src/main.rs: the program does come to the point where its servers run.
use rxh.Prelude.{◌≡◌, refl, sym, ap, subst, ◌∙◌, false, inl, inr, ◌⊎◌, List, map, some, All}
use rxh.Prelude.Texts.{Text, bytes}
use rxh.Config
use rxh.Config.Deser
use rxh.Config.Deser.Visit.{Entry}
use rxh.Tokio.{Semaphore, Broadcast, Mpsc}
use rxh.Notify.{Notification}
use rxh.Task.Master.{Sockets, Outcome, ok, err, panic, then_do, Master}
use rxh.Task.Master.Replicas.{Yields}
use rxh.Task.Master.Run
use rxh.Task.Master.Run.{Program}
use rxh.Main.{Files, lift_toml, read_servers, from_str, main}
use rxh.Main.Launch.{
  every, IsPermitted, made_for, IsConfigured, main-IsConfigured, read_servers-IsClonable,
}
use rxh.Main.Outcomes.{Fine, IsWorking, start-Fine}

ok_of_Fine :
    {Os Error A : Type 0} (x : Outcome Error A × Os) → Fine false x → (a : A) × (x.0 ≡ ok a)
ok_of_Fine (ok a, o) h = (a, refl)
ok_of_Fine (err e, o) h = cc
ok_of_Fine (panic, o) h = cc

pub of_Yields :
    {Os Error A : Type 0} (P : A → Type 0) (x : Outcome Error A × Os) (a : A)
    → Yields P x
    → x.0 ≡ ok a
    → P a
of_Yields P (ok b, o) a h e = let same : b ≡ a = cc in subst P same h
of_Yields P (err f, o) a h e = cc
of_Yields P (panic, o) a h e = cc

module _ {Addr IoError : Type 0} (HttpError : Type 0) (os : Sockets Addr IoError)
    (files : Files Addr IoError os.Os) (sm : Semaphore) (bc : Broadcast Notification) (mp : Mpsc)
    (sb : Broadcast Unit) where
  -- What the configuration says of the program that starts.
  same-IsConfigured :
      (text text' : Text) (tables : List (List (Entry Addr))) (servers : List (Config.Server Addr))
      (r : Master os × Program sm bc mp sb)
      → text' ≡ text
      → files.tables text ≡ inr tables
      → read_servers tables ≡ Deser.ok servers
      → IsConfigured HttpError os files sm bc mp sb text' r
      → (map (made_for os) r.0.servers ≡ every servers)
        × (r.1 ≡ Run.started sm bc mp sb (map (λ w. w.0.max_connections) (every servers)))
  same-IsConfigured text text' tables servers r e f g h =
      let parsed : files.tables text ≡ inr h.tables = ap files.tables (sym e) ∙ h.parsed in
      let same_tables : h.tables ≡ tables = cc in
      let same : h.servers ≡ servers =
        let read : read_servers tables ≡ Deser.ok h.servers =
          ap read_servers (sym same_tables) ∙ h.read in
        cc in
      (
        h.made ∙ ap every same,
        h.runs ∙ ap (λ l. Run.started sm bc mp sb (map (λ w. w.0.max_connections) (every l))) same,
      )

  main-Fine :
      (known : (l : os.Listener) → (a : Addr) × (os.local_addr l ≡ some a))
      → IsWorking os
      → (tables : List (List (Entry Addr))) (servers : List (Config.Server Addr)) (text : Text)
        (o : os.Os) (x : (IoError ⊎ Text) × os.Os)
      → files.read_to_string (bytes "rxh.toml") o ≡ x
      → x.0 ≡ inr text
      → files.tables text ≡ inr tables
      → read_servers tables ≡ Deser.ok servers
      → All IsPermitted (every servers)
      → Fine false (main HttpError os files sm bc mp sb o)
  unfolding main then_do from_str lift_toml
  main-Fine known works tables servers text o (inl e, o') r f g h small = cc
  main-Fine known works tables servers text o (inr t, o') r f g h small =
      let same : t ≡ text = cc in
      rw (r, same, g, h)
        (start-Fine false os known (inr works) HttpError files sm bc mp sb
          (record { servers = servers }) o' (read_servers-IsClonable tables servers h) small)

  -- If the configuration file can be read, toml makes tables of its text and visit_map accepts each of
  -- them; if no limit on connections in them is above the greatest number of permits that tokio makes
  -- a semaphore with, in a table that has an address; if no call on a socket fails and the address of
  -- a socket that listens is always known: the program comes to the point where its servers run. There
  -- is one server for each address of each table, in this order, with the configuration that visit_map
  -- gave; and the program starts with their limits, that of a table once for each of its addresses.
  pub main_starts :
      (known : (l : os.Listener) → (a : Addr) × (os.local_addr l ≡ some a)) (works : IsWorking os)
      (text : Text) (tables : List (List (Entry Addr))) (servers : List (Config.Server Addr))
      (o : os.Os)
      → (files.read_to_string (bytes "rxh.toml") o).0 ≡ inr text
      → files.tables text ≡ inr tables
      → read_servers tables ≡ Deser.ok servers
      → All IsPermitted (every servers)
      → (m : Master os) × (p : Program sm bc mp sb) × ((main HttpError os files sm bc mp sb o).0
          ≡ ok (m, p))
        × (map (made_for os) m.servers ≡ every servers)
        × (p ≡ Run.started sm bc mp sb (map (λ w. w.0.max_connections) (every servers)))
  main_starts known works text tables servers o e f g small =
      let x = main HttpError os files sm bc mp sb o in
      let ((m, p), went) =
        ok_of_Fine x (main-Fine known works tables servers text o _ refl e f g small) in
      let (text', e', configured) =
        of_Yields _ x (m, p) (main-IsConfigured HttpError os files sm bc mp sb o) went in
      let same : text' ≡ text = cc in
      let (made, runs) = same-IsConfigured text text' tables servers (m, p) same f g configured in
      (m, p, went, made, runs)
