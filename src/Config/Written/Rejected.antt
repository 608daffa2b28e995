-- ===== src/Config/Written/Rejected.antt =====
-- src/config: what the derived `Serialize` writes cannot be read.
use rxh.Prelude.{◌≡◌, refl, ap, List, [], ◌∷◌, map, All}
use rxh.Prelude.Texts.{Text, bytes}
use rxh.Sched.{Backend}
use rxh.Config.{Forward, Action, Pattern, Server}
use rxh.Config.Clone.{IsNew, Origin-IsNew}
use rxh.Config.Deser.{
  ok, err, to_backend, to_backends, to_forward, to_action, to_pattern, to_patterns, DeError,
  one_or_many,
}
use rxh.Config.Deser.Visit.{Entry, visit, visit_entries, visit_map}
use rxh.Config.Deser.Checks.{visit_map-Origin}
use rxh.Config.Written.{
  write_backend, write_forward, write_action, write_pattern, write_server, read_table,
}

module _ {Addr : Type 0} where
  to_backend-write : (bs : List (Backend Addr)) → map to_backend (map write_backend bs) ≡ bs
  unfolding to_backend
  to_backend-write [] = refl
  to_backend-write (b ∷ bs) = ap (λ l. b ∷ l) (to_backend-write bs)

  to_forward-write :
      (f : Forward Addr) → IsNew (Action.forward f) → to_forward (write_forward f) ≡ ok f
  unfolding to_forward to_backends
  to_forward-write f e = rw (to_backend-write f.backends, e) refl

  to_action-write : (a : Action Addr) → IsNew a → to_action (write_action a) ≡ ok a
  unfolding to_action
  to_action-write (Action.forward f) e = rw (to_forward-write f e) refl
  to_action-write (Action.serve directory) e = refl

  to_patterns-write :
      (ps : List (Pattern Addr))
      → All (λ p. IsNew p.action) ps
      → to_patterns (map (λ p. ok (write_pattern p)) ps) ≡ ok ps
  unfolding to_patterns to_pattern
  to_patterns-write [] h = refl
  to_patterns-write (p ∷ ps) (h, hs) = rw (to_action-write p.action h, to_patterns-write ps hs) refl

  -- Every server that visit_map accepted is refused when what Serialize writes of it is read: the key
  -- max_connections is not known.
  pub written_unreadable :
      (unknown_field : Text → DeError) (es : List (Entry Addr)) (s : Server Addr)
      → visit_map es ≡ ok s
      → visit_map (read_table unknown_field (write_server s))
        ≡ err (unknown_field (bytes "max_connections"))
  unfolding visit_map visit_entries visit read_table write_server one_or_many
  written_unreadable unknown_field es s e =
      let (_, _, _, origin) = visit_map-Origin es e in
      rw (to_patterns-write s.patterns (Origin-IsNew origin)) refl
