-- ===== src/Http/Forwarded.antt =====
-- src/http/request.rs: the `Forwarded` header of a request that is passed on.
use rxh.Prelude.{
  ℕ, ◌≤◌, ◌<◌, ◌≡◌, refl, sym, ap, ◌∙◌, true, ◌⊎◌, inl, inr, Option, none, some, List, [], ◌∷◌,
  ◌++◌, All, All-append, All-of-append, to_list, some-none, Option-cases, arith,
}
use rxh.Prelude.Options.{◌>>=◌}
use rxh.Prelude.Texts.{Text, bytes}
use rxh.Http.{Web, Visible, Request, host, forwarded}

module _ (web : Web) (Addr : Type 0) where
  pub record ProxyRequest (Body : Type 0) : Type 0 where
    pub request : Request web Body
    pub client_addr : Addr
    pub server_addr : Addr
    pub proxy_id : Option Text

abbrev or_else : Text → Option Text → Text
or_else fallback none = fallback
or_else fallback (some t) = t

abbrev pub behind : Option Text → Text → Text
behind none mine = mine
behind (some previous_proxies) mine = previous_proxies ++ bytes ", " ++ mine

module _ (web : Web) {Addr : Type 0} (show : Addr → Text) {Body : Type 0} where
  unfoldable pub new : Request web Body → Addr → Addr → Option Text → ProxyRequest web Addr Body
  new request client_addr server_addr proxy_id = record {
    request = request;
    client_addr = client_addr;
    server_addr = server_addr;
    proxy_id = proxy_id;
  }

  -- The host that the client asked for.
  unfoldable pub host_of : ProxyRequest web Addr Body → Text
  host_of p = or_else (show p.server_addr) (web.get host p.request.headers >>= web.to_str)

  unfoldable pub by : ProxyRequest web Addr Body → Text
  by p = or_else (show p.server_addr) p.proxy_id

  -- `format!("for={};by={};host={}", ...)`
  unfoldable pub element : ProxyRequest web Addr Body → Text
  unfolding host_of by
  element p =
      bytes "for=" ++ show p.client_addr ++ bytes ";by=" ++ by p ++ bytes ";host=" ++ host_of p

  unfoldable pub forwarded_value : ProxyRequest web Addr Body → Text
  unfolding element
  forwarded_value p = behind (web.get forwarded p.request.headers >>= web.to_str) (element p)

  unfoldable pub into_forwarded : ProxyRequest web Addr Body → Option (Request web Body)
  unfolding forwarded_value
  into_forwarded p = do
    value ← web.from_str (forwarded_value p)
    some (record p.request { headers = web.insert forwarded value p.request.headers })

-- A list in a header's value.
abbrev join : List Text → Text
join [] = []
join (x ∷ []) = x
join (x ∷ y ∷ xs) = x ++ bytes ", " ++ join (y ∷ xs)

behind-join : (o : Option Text) (mine : Text) → behind o mine ≡ join (to_list o ++ mine ∷ [])
behind-join none mine = refl
behind-join (some t) mine = refl

Visible-parts : (b : ℕ) (t : Text) → Visible (b ∷ t) → (32 ≤ b) × (b < 127) × Visible t
Visible-parts b t h = ground arith

module _ (web : Web) where
  -- Every byte may stand in a header's value.
  abbrev pub Legal : Text → Type 0
  Legal t = All (λ b. web.legal b ≡ true) t

  pub Visible-Legal : (t : Text) → Visible t → Legal t
  Visible-Legal [] h = tt
  Visible-Legal (b ∷ t) h =
      let (p, q, r) = Visible-parts b t h in (web.legal-visible b p q, Visible-Legal t r)

  Legal-append : (s t : Text) → Legal s → Legal t → Legal (s ++ t)
  Legal-append s t = All-append (λ b. web.legal b ≡ true) s t

  Legal-of-append : (s t : Text) → Legal (s ++ t) → Legal s × Legal t
  Legal-of-append s t = All-of-append (λ b. web.legal b ≡ true) s t

  -- A header that is read as a text gave a legal one.
  read-Legal :
      (o : Option web.Value) (fallback : Text)
      → Legal fallback
      → Legal (or_else fallback (o >>= web.to_str))
  read-Legal none fallback l = l
  read-Legal (some v) fallback l = elim (Option-cases (web.to_str v)) [
    | inl e ↦ rw e l
    | inr (t, e) ↦ rw e (web.to_str-legal v t e)
  ]

  behind-Legal :
      (o : Option web.Value) (mine : Text) → Legal mine → Legal (behind (o >>= web.to_str) mine)
  behind-Legal none mine l = l
  behind-Legal (some v) mine l = elim (Option-cases (web.to_str v)) [
    | inl e ↦ rw e l
    | inr (t, e) ↦ rw e (
        Legal-append (t ++ bytes ", ") mine
          (Legal-append t (bytes ", ") (web.to_str-legal v t e) (Visible-Legal (bytes ", ") refl))
          l)
  ]

  Legal-behind : (o : Option Text) (mine : Text) → Legal (behind o mine) → Legal mine
  Legal-behind none mine l = l
  Legal-behind (some t) mine l = (Legal-of-append (t ++ bytes ", ") mine l).1

module _ {web : Web} {Addr Body : Type 0} (show : Addr → Text) (p : ProxyRequest web Addr Body)
    (show-Visible : (a : Addr) → Visible (show a)) where
  -- The new element of the header is legal exactly if the name of the proxy is.
  element-Legal : Legal web (by web show p) → Legal web (element web show p)
  unfolding element host_of
  element-Legal l =
      let client : Legal web (show p.client_addr) =
        Visible-Legal web _ (show-Visible p.client_addr) in
      let host : Legal web (host_of web show p) =
        read-Legal web (web.get host p.request.headers) _
          (Visible-Legal web _ (show-Visible p.server_addr)) in
      search (Legal-append web, Visible-Legal web) depth 9

  by-Legal : Legal web (element web show p) → Legal web (by web show p)
  unfolding element
  by-Legal l =
      let to_by = bytes "for=" ++ show p.client_addr ++ bytes ";by=" in
      let named = to_by ++ by web show p in
      let front = (Legal-of-append web (named ++ bytes ";host=") (host_of web show p) l).0 in
      (Legal-of-append web to_by (by web show p)
        (Legal-of-append web named (bytes ";host=") front).0).1

  -- The request is refused, or passed on.
  abbrev pub Cases : Type 0
  Cases =
      (¬ Legal web (by web show p) × (into_forwarded web show p ≡ none))
      ⊎ (Legal web (by web show p)
          × (r : Request web Body) × (v : web.Value) × (into_forwarded web show p ≡ some r)
          × (web.get forwarded r.headers ≡ some v)
          × (web.from_str (
                join (
                  to_list (web.get forwarded p.request.headers >>= web.to_str)
                  ++ element web show p ∷ []))
              ≡ some v)
          × (r ≡ record p.request { headers = web.insert forwarded v p.request.headers }))

  -- If addresses are printed in visible ASCII, a request is passed on exactly if the name of the proxy
  -- (its address, where the server has no name) is legal in a header, and is a panic otherwise; then its
  -- Forwarded header is the previous one, if that can be read, and the new element behind it, joined by
  -- a comma, and the insertion of this header is all that changes in the request.
  pub into_forwarded_cases : Cases
  unfolding into_forwarded forwarded_value
  into_forwarded_cases =
      let value = forwarded_value web show p in
      let old = web.get forwarded p.request.headers in
      elim (Option-cases (web.from_str value)) [
        | inl e ↦ inl (
          λ l.
              (let (v, f) = web.from_str-legal value (behind-Legal web old _ (element-Legal l)) in
                some-none v (sym f ∙ e)),
          rw e refl,
        )
        | inr (v, e) ↦ inr (
          by-Legal (Legal-behind web (old >>= web.to_str) _ (web.legal-from_str value v e)),
          record p.request { headers = web.insert forwarded v p.request.headers },
          v,
          rw e refl,
          web.get-insert forwarded v p.request.headers,
          ap web.from_str (sym (behind-join (old >>= web.to_str) (element web show p))) ∙ e,
          refl,
        )
      ]
