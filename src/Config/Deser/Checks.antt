-- ===== src/Config/Deser/Checks.antt =====
-- config/deser.rs: what a table that `visit_map` accepts has in it.
use rxh.Prelude.{
  ◌≡◌, ◌≢◌, refl, inl, inr, Option, none, some, List, [], ◌∷◌, ◌++◌, arith, ◌∙◌, sym, ap, All,
}
use mathlib.Core.List.{Memᴰ}
use rxh.Prelude.Texts.{bytes}
use rxh.Config.{Action, Pattern, Server, default_uri}
use rxh.Config.Deser.{ok}
use rxh.Config.Deser.Visit.{
  Entry, Draft, blank, visit_entries, finish, visit_map, push_simple, checked,
}
use rxh.Config.Deser.Loop.{
  ok_of_bind, count_actions, last_uri, given, action_of, patterns_of, IsBarren, IsExclusive, Built,
  visit_entries-Built,
}

-- Where the patterns of a server come from: one `forward` or `serve`, under the last `uri` of the
-- table and with no patterns in any `match`, or a `match`, with no `forward` or `serve`.
pub data Origin {Addr : Type 0} (es : List (Entry Addr)) (patterns : List (Pattern Addr))
    : Type 0 where
  single :
      (e : Entry Addr) (a : Action Addr)
      → Memᴰ e es
      → action_of e ≡ ok a
      → count_actions es ≡ 1
      → All IsBarren es
      → patterns ≡ record { uri = last_uri default_uri es; action = a } ∷ []
      → Origin es patterns
  several :
      (e : Entry Addr)
      → Memᴰ e es
      → patterns_of e ≡ ok patterns
      → count_actions es ≡ 0
      → Origin es patterns

module _ {Addr : Type 0} where
  -- What an accepted draft has, and what it becomes.
  record Finished (d : Draft Addr) (patterns : List (Pattern Addr)) (s : Server Addr) : Type 0 where
    some_listen : s.listen ≢ []
    some_pattern : s.patterns ≢ []
    unnamed : s.log_name ≡ bytes "unnamed"
    same : s.patterns ≡ patterns

  checked-Finished :
      (d : Draft Addr) (ps : List (Pattern Addr)) (addresses : List Addr) {s : Server Addr}
      → checked d ps addresses ≡ ok s
      → Finished d ps s
  checked-Finished d [] addresses h = cc
  checked-Finished d (p ∷ ps) [] h = cc
  checked-Finished d (p ∷ ps) (a ∷ addresses) {s} h = record {
    some_listen = ground arith;
    some_pattern = ground arith;
    unnamed = cc;
    same = cc;
  }

  Built-Origin :
      {es : List (Entry Addr)} {d : Draft Addr} (ps : List (Pattern Addr))
      (sp : Option (Pattern Addr))
      → d.patterns ≡ ps
      → d.simple_pattern ≡ sp
      → push_simple ps sp d.prefix ≢ []
      → Built blank es d
      → Origin es (push_simple ps sp d.prefix)
  Built-Origin {es} {d} ps none e f filled b = elim b.patterns [
    | inl x ↦ absurd (filled (sym e ∙ x))
    | inr (entry, m, p) ↦ several entry m (p ∙ ap ok e) (omega (arith, b.actions, ap given f))
  ]
  Built-Origin {es} {d} ps (some p) e f filled b = elim b.simple [
    | inl x ↦ absurd (some-ne-none (sym f ∙ x))
    | inr (entry, m, (q, g, acts)) ↦
        let none_else : d.patterns ≡ [] = alone (b.exclusive (inl refl)) in
        single entry q.action m acts (omega (arith, b.actions, ap given f)) (b.barren none_else).0
          (whole none_else (sym f ∙ g))
  ]
    where
      some-ne-none : {r : Pattern Addr} → some r ≡ none → ⊥
      some-ne-none h = cc

      alone : IsExclusive d → d.patterns ≡ []
      alone (inl x) = x
      alone (inr x) = absurd (some-ne-none (sym f ∙ x))

      whole :
          {q : Pattern Addr}
          → d.patterns ≡ []
          → some p ≡ some q
          → ps ++ record p { uri = d.prefix } ∷ []
            ≡ record { uri = last_uri default_uri es; action = q.action } ∷ []
      whole {q} x y = let same : p ≡ q = cc in rw (sym e ∙ x, same, b.prefix) refl

  -- A server table that visit_map accepts has an address to listen on, at least one pattern and the
  -- log name unnamed; its patterns are either one forward or serve entry under the last uri of the
  -- table (then it is the only such entry and every match is empty), or those of one match entry
  -- (then there is no forward or serve).
  pub visit_map-Origin :
      (es : List (Entry Addr)) {s : Server Addr}
      → visit_map es ≡ ok s
      → (s.listen ≢ []) × (s.patterns ≢ []) × (s.log_name ≡ bytes "unnamed") × Origin es s.patterns
  unfolding visit_map finish
  visit_map-Origin es {s} h =
      let (d, loop, rest) = ok_of_bind (visit_entries blank es) finish h in
      let f =
        checked-Finished d (push_simple d.patterns d.simple_pattern d.prefix) d.listening rest in
      (
        f.some_listen,
        f.some_pattern,
        f.unnamed,
        rw (f.same) (
            Built-Origin d.patterns d.simple_pattern refl refl (λ x. f.some_pattern (f.same ∙ x))
              (visit_entries-Built blank es loop)),
      )
