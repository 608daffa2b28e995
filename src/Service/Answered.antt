-- ===== src/Service/Answered.antt =====
-- src/service/mod.rs with src/service/proxy.rs and src/service/files.rs: what the clients of a
-- configured server get.
use rxh.Prelude.{◌≡◌, ◌≢◌, refl, sym, ap, subst, ◌∙◌, ◌⊎◌, inl, inr, Option, none, some, List}
use rxh.Prelude.Texts.{Text, bytes}
use rxh.Config.Deser.{ok}
use rxh.Config.Deser.Visit.{Entry, visit_map}
use rxh.Http.{Web, Visible, Request, Response, upgrade}
use rxh.Http.Forwarded.{ProxyRequest, Legal, Visible-Legal, by}
use rxh.Http.Answers.{Body, Named, not_found, respond_total}
use rxh.Service.{Upstream, FileSystem, Answer, answered, failed, of_option}
use rxh.Service.Dispatch.{Rxh, call, relative}
use rxh.Service.Routing.{AllServe, configured-AllServe, call_first}
use rxh.Service.Exchange.{Assumed, Sound, forward-Sound}
use rxh.Service.Transfer.{Result, transfer_cases}
use rxh.Service.Session.{session, session-Keeps}

module _ {web : Web} (version : Text) {Incoming Failure : Type 0} where
  -- An error of a connection, or a response that names this server; no panic.
  abbrev pub IsAnswered : Answer web Incoming Failure → Type 0
  IsAnswered a =
      ((err : Failure) × (a ≡ failed err))
      ⊎ ((r : Response web (Body Incoming)) × (a ≡ answered r) × Named web version r.headers)

  Result-IsAnswered :
      {fs : FileSystem} (visible : Visible version) (path root : Text)
      (a : Answer web Incoming Failure)
      → Result web version fs visible path root a
      → IsAnswered a
  Result-IsAnswered visible path root a (inl (_, r, e, _, n)) = inr (r, e, n)
  Result-IsAnswered visible path root a (inr (_, _, r, _, e, _, _, _, _, n)) = inr (r, e, n)

  not_found-IsAnswered : Visible version → IsAnswered (of_option (not_found web version))
  unfolding not_found
  not_found-IsAnswered visible =
      let (r, _, e, _, _, _, _, n) =
        respond_total web version visible 404 (bytes "text/plain") (bytes "HTTP 404 NOT FOUND")
          refl in
      inr (r, ap of_option e, n)

module _ {web : Web} {version : Text} {Addr Incoming : Type 0} {show : Addr → Text}
    {up : Upstream web Addr Incoming} (assumed : Assumed version show up) where
  pub by-Legal :
      (p : ProxyRequest web Addr Incoming) (o : Option Text)
      → p.proxy_id ≡ o
      → ((name : Text) → o ≡ some name → Legal web name)
      → Legal web (by web show p)
  unfolding by
  by-Legal p none e h =
      rw e (Visible-Legal web (show p.server_addr) (assumed.show-Visible p.server_addr))
  by-Legal p (some name) e h = rw e (h name refl)

  pub Sound-IsAnswered :
      (p : ProxyRequest web Addr Incoming) (a : Answer web Incoming up.Failure)
      → Sound assumed p a
      → IsAnswered version a
  Sound-IsAnswered p a (inl failure) = inl failure
  Sound-IsAnswered p a (inr (r, f, n, _)) = inr (r, f, n)

module _ {web : Web} {version : Text} {Addr Incoming : Type 0} {show : Addr → Text}
    {up : Upstream web Addr Incoming} {fs : FileSystem} (assumed : Assumed version show up)
    (s : Rxh web version show up fs) where
  -- The name can stand in a header, if there is one.
  abbrev pub HasLegalName : Type 0
  HasLegalName = (name : Text) → s.config.name ≡ some name → Legal web name

  pub call-IsAnswered :
      (request : Request web Incoming) (net : up.Net)
      → AllServe s.config.patterns
      → HasLegalName
      → (web.get upgrade request.headers ≢ none → request.on_upgrade ≢ none)
      → IsAnswered version (call web version show up fs s request net).0
  call-IsAnswered request net serves legal extended = elim (call_first s request net serves) [
    | inl (_, e) ↦
        subst (λ out. IsAnswered version out.0) (sym e)
          (not_found-IsAnswered version assumed.version-Visible)
    | inr (_, _, _, _, _, _, inl (directory, _, e)) ↦
        subst (λ out. IsAnswered version out.0) (sym e)
          (Result-IsAnswered version assumed.version-Visible _ directory _ (
            transfer_cases web version fs assumed.version-Visible
              (relative (web.uri_path request.uri)) directory))
    | inr (_, _, _, _, _, _, inr (_, to, _, _, _, _, e, _)) ↦
        let p : ProxyRequest web Addr Incoming = record {
          request = request;
          client_addr = s.client_addr;
          server_addr = s.server_addr;
          proxy_id = s.config.name;
        } in
        subst (IsAnswered version) (sym (ap (λ x. x.0) e)) (
          Sound-IsAnswered assumed p _
            (forward-Sound assumed p (by-Legal assumed p s.config.name refl legal) extended to net))
  ]

module _ {web : Web} {version : Text} {Addr Incoming : Type 0} {show : Addr → Text}
    {up : Upstream web Addr Incoming} {fs : FileSystem} (assumed : Assumed version show up)
    (s : Rxh web version show up fs) where
  -- On every server that the configuration file describes, if its name is legal in a header or there is
  -- none: under what is assumed of hyper and of the package, after any sequence of requests, a request
  -- that comes with the extension to upgrade it if it has an Upgrade header is answered without a
  -- panic, by an error of a connection or by a response whose Server header names this server.
  pub configured_answers :
      (es : List (Entry Addr)) (old : List (Request web Incoming)) (request : Request web Incoming)
      (net : up.Net)
      → visit_map es ≡ ok s.config
      → HasLegalName assumed s
      → (web.get upgrade request.headers ≢ none → request.on_upgrade ≢ none)
      → IsAnswered version
          (call web version show up fs (session s old net).0 request (session s old net).1).0
  configured_answers es old request net e legal extended =
      let (serves, _, same) = session-Keeps s old s net (configured-AllServe es e, refl, refl) in
      call-IsAnswered assumed (session s old net).0 request (session s old net).1 serves
        (λ name f. legal name (sym (ap (λ t. t.config.name) same) ∙ f)) extended
