-- ===== src/Config/Deser/Order.antt =====
-- config/deser.rs: whether the order of the keys in a table matters.
use mathlib.Core.List.{Mem, Perm, Permᴰ, Nodup, Nodup-cons, mem-cons_self, mem-cons_of_mem}
use mathlib.Core.List.Perm
use rxh.Prelude.{◌≡◌, ◌≢◌, refl, none, List, [], ◌∷◌, arith, map}
use rxh.Prelude.Texts.{Text, bytes}
use rxh.Config.{Pattern, Server, default_max_connections}
use rxh.Config.Deser.{
  Outcome, ok, err, ◌>>=◌, OneOrMany, one_or_many, PatternOption, to_patterns, custom,
  mixed_simple_and_match,
}
use rxh.Config.Deser.Visit.{Entry, Draft, blank, visit, visit_entries, finish, visit_map}
use rxh.Config.Deser.Loop.{ok_of_bind}

-- `enum Field`, with a case for the keys that are none of them.
pub data Field : Type 0 where
  listen matches forward serve uri name connections unknown : Field

module _ {Addr : Type 0} where
  abbrev pub field : Entry Addr → Field
  field (Entry.listen _) = Field.listen
  field (Entry.matches _) = Field.matches
  field (Entry.forward _) = Field.forward
  field (Entry.serve _) = Field.serve
  field (Entry.uri _) = Field.uri
  field (Entry.name _) = Field.name
  field (Entry.connections _) = Field.connections
  field (Entry.unknown _) = Field.unknown

  -- Two neighbouring entries of different keys, neither a `match`, may change places.
  visit_swap :
      (d : Draft Addr) (e f : Entry Addr) {d'' : Draft Addr}
      → field e ≢ field f
      → field e ≢ Field.matches
      → field f ≢ Field.matches
      → (visit d e >>= λ x. visit x f) ≡ ok d''
      → (visit d f >>= λ x. visit x e) ≡ ok d''
  unfolding visit
  visit_swap d (Entry.listen v) (Entry.listen w) ne _ _ h = absurd (ne refl)
  visit_swap d (Entry.matches v) (Entry.listen w) _ no_match _ h = absurd (no_match refl)
  visit_swap d e f ne m n h = ground arith

  -- A table in which no key stands twice, and none is `match`.
  pub record IsSimple (es : List (Entry Addr)) : Type 0 where
    pub distinct : Nodup (map field es)
    pub no_match : ¬ Mem Field.matches (map field es)

  IsSimple-tail : {e : Entry Addr} {es : List (Entry Addr)} → IsSimple (e ∷ es) → IsSimple es
  IsSimple-tail s = record {
    distinct = (Nodup-cons.0 s.distinct).1;
    no_match = λ m. s.no_match (mem-cons_of_mem _ m);
  }

  IsSimple-perm : {es fs : List (Entry Addr)} → Perm es fs → IsSimple es → IsSimple fs
  IsSimple-perm p s = record {
    distinct = Perm.nodup (Perm.map field p) s.distinct;
    no_match = λ m. s.no_match ((Perm.mem_iff (Perm.map field p)).1 m);
  }

  visit_entries-permᴰ :
      (d : Draft Addr) {es fs : List (Entry Addr)} {d' : Draft Addr}
      → Permᴰ es fs
      → IsSimple es
      → visit_entries d es ≡ ok d'
      → visit_entries d fs ≡ ok d'
  unfolding visit_entries
  visit_entries-permᴰ d Permᴰ.nil s h = h
  visit_entries-permᴰ d (Permᴰ.cons {a = e} {l₁ = es} {l₂ = fs} same p) s h =
      let (d1, first, rest) = ok_of_bind (visit d e) (λ x. visit_entries x es) h in
      rw (← same, first) (visit_entries-permᴰ d1 p (IsSimple-tail s) rest)
  visit_entries-permᴰ d (Permᴰ.swap {a = e} {b = f} {l = es} x y) s h =
      let (d1, first, more) = ok_of_bind (visit d e) (λ x. visit_entries x (f ∷ es)) h in
      let (d2, second, rest) = ok_of_bind (visit d1 f) (λ x. visit_entries x es) more in
      let both : (visit d e >>= λ x. visit x f) ≡ ok d2 = rw first second in
      let swapped =
        visit_swap d e f (λ q. (Nodup-cons.0 s.distinct).0 (rw q mem-cons_self))
          (λ q. s.no_match (rw q mem-cons_self))
          (λ q. s.no_match (rw q (mem-cons_of_mem _ mem-cons_self))) both in
      let (e1, first', second') = ok_of_bind (visit d f) (λ x. visit x e) swapped in
      rw (← x, ← y, first', second') rest
  visit_entries-permᴰ d (Permᴰ.trans p q) s h =
      visit_entries-permᴰ d q (IsSimple-perm ∣ p ∣₁ s) (visit_entries-permᴰ d p s h)

  -- If a table without match and without repeated keys is accepted, every permutation of its entries
  -- is accepted as the same server.
  pub visit_map-permᴰ :
      {es fs : List (Entry Addr)} {s : Server Addr}
      → Permᴰ es fs
      → IsSimple es
      → visit_map es ≡ ok s
      → visit_map fs ≡ ok s
  unfolding visit_map
  visit_map-permᴰ {es} p simple h =
      let (d, loop, rest) = ok_of_bind (visit_entries blank es) finish h in
      rw (visit_entries-permᴰ blank p simple loop) rest

  -- For every listening address, every uri and every non-empty match that can be read: a uri before
  -- the match is accepted and has no effect on the server, while the same uri behind the match is
  -- the error about mixing a simple pattern with match.
  pub uri_around_match :
      (addresses : List Addr) (a : Addr) (u : Text) (values : List (Outcome (PatternOption Addr)))
      (p : Pattern Addr) (ps : List (Pattern Addr))
      → to_patterns values ≡ ok (p ∷ ps)
      → let here = Entry.listen (ok (OneOrMany.many (a ∷ addresses))) in
        (visit_map (here ∷ Entry.uri (ok u) ∷ Entry.matches (ok values) ∷ [])
          ≡ visit_map (here ∷ Entry.matches (ok values) ∷ []))
        × (visit_map (here ∷ Entry.uri (ok u) ∷ Entry.matches (ok values) ∷ [])
            ≡ ok (record {
              listen = a ∷ addresses;
              patterns = p ∷ ps;
              max_connections = default_max_connections;
              name = none;
              log_name = bytes "unnamed";
            }))
        × (visit_map (here ∷ Entry.matches (ok values) ∷ Entry.uri (ok u) ∷ [])
            ≡ err (custom mixed_simple_and_match))
  unfolding visit_map visit_entries visit finish one_or_many
  uri_around_match addresses a u values p ps e = (rw e refl, rw e refl, rw e refl)
