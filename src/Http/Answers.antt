-- ===== src/Http/Answers.antt =====
-- src/http/response.rs and src/http/body.rs: responses of this server and of an upstream server.
-- `version` is the package's version.
use rxh.Prelude.{ℕ, ◌≡◌, ◌≢◌, refl, sym, ◌∙◌, Option, none, some, [], ◌++◌}
use rxh.Prelude.Options.{◌>>=◌}
use rxh.Prelude.Texts.{Text, bytes}
use rxh.Http.{Web, Visible, Response, server, content_type}
use rxh.Http.Forwarded.{Visible-Legal}

-- `BoxBody<Bytes, hyper::Error>`: bytes of this server, or a body that is streamed from upstream.
pub data Body (Incoming : Type 0) : Type 0 where
  full : Text → Body Incoming
  boxed : Incoming → Body Incoming

module _ (web : Web) (version : Text) where
  unfoldable pub rxh_server_header : Text
  rxh_server_header = bytes "rxh/" ++ version

  module _ {Incoming : Type 0} where
    -- `http::response::Builder`: an error is kept until `body` returns it.
    unfoldable pub header :
        Text → Text → Option (Response web (Body Incoming)) → Option (Response web (Body Incoming))
    header name text builder = do
      r ← builder
      value ← web.from_str text
      some (record r { headers = web.append name value r.headers })

    -- `LocalResponse::builder`
    unfoldable pub builder : Option (Response web (Body Incoming))
    unfolding header rxh_server_header
    builder = header server rxh_server_header (
        some (record { status = 200; headers = web.no_headers; on_upgrade = none; body = full [] }))

    -- `status`, the header `Content-Type` and `body` in a row, as each use of `builder` has them.
    unfoldable pub respond : ℕ → Text → Text → Option (Response web (Body Incoming))
    unfolding builder
    respond status kind content = do
      r ← header content_type kind builder
      some (record r { status = status; body = full content })

    unfoldable pub not_found : Option (Response web (Body Incoming))
    unfolding respond
    not_found = respond 404 (bytes "text/plain") (bytes "HTTP 404 NOT FOUND")

    unfoldable pub bad_gateway : Option (Response web (Body Incoming))
    unfolding respond
    bad_gateway = respond 502 (bytes "text/plain") (bytes "HTTP 502 BAD GATEWAY")

    -- `ProxyResponse::into_forwarded`, behind `map(|body| body.boxed())`
    unfoldable pub into_forwarded : Response web Incoming → Option (Response web (Body Incoming))
    unfolding rxh_server_header
    into_forwarded r = do
      value ← web.from_str rxh_server_header
      some (record {
        status = r.status;
        headers = web.insert server value r.headers;
        on_upgrade = r.on_upgrade;
        body = boxed r.body;
      })

server-content_type : server ≢ content_type
server-content_type e = cc

-- The value of this server's header.
abbrev pub Named : (web : Web) → Text → web.Map → Type 0
Named web version m =
    (v : web.Value) × (web.get server m ≡ some v)
    × (web.to_str v ≡ some (rxh_server_header web version))

module _ (web : Web) (version : Text) (version-Visible : Visible version) {Incoming : Type 0} where
  -- If the package's version and a content type are visible ASCII, a response of this server is built
  -- without a panic, with the status, the content type and the content given, and rxh/ and the version
  -- as its Server header.
  pub respond_total :
      (status : ℕ) (kind content : Text)
      → Visible kind
      → (r : Response web (Body Incoming)) × (v : web.Value) × (respond web version status kind
            content
          ≡ some r)
        × (r.status ≡ status)
        × (r.body ≡ full content)
        × (web.get content_type r.headers ≡ some v)
        × (web.to_str v ≡ some kind)
        × Named web version r.headers
  unfolding respond header builder rxh_server_header
  respond_total status kind content k =
      let (v, e) = web.from_str-legal kind (Visible-Legal web kind k) in
      let text = rxh_server_header web version in
      let (w, f) = web.from_str-legal text (Visible-Legal web text version-Visible) in
      let first = web.append server w web.no_headers in
      (
        record {
          status = status;
          headers = web.append content_type v first;
          on_upgrade = none;
          body = full content;
        },
        v,
        rw (f, e) refl,
        refl,
        refl,
        web.get-append content_type v first (
            web.get-append_other content_type server w web.no_headers
              (λ e. server-content_type (sym e))
            ∙ web.get-no_headers content_type),
        web.to_str-from_str kind v k e,
        (
          w,
          web.get-append_other server content_type v first server-content_type
              ∙ web.get-append server w web.no_headers (web.get-no_headers server),
          web.to_str-from_str text w version-Visible f,
        ),
      )

  -- If the package's version is visible ASCII, a response of an upstream server is passed on with its
  -- status, its body and its headers, into which a Server header is inserted that names this server.
  pub forwarded_total :
      (r : Response web Incoming)
      → (r' : Response web (Body Incoming)) × (into_forwarded web version r ≡ some r')
        × (r'.status ≡ r.status)
        × (r'.body ≡ boxed r.body)
        × Named web version r'.headers
        × (w : web.Value) × (r'.headers ≡ web.insert server w r.headers)
  unfolding into_forwarded rxh_server_header
  forwarded_total r =
      let text = rxh_server_header web version in
      let (w, f) = web.from_str-legal text (Visible-Legal web text version-Visible) in
      (
        record {
          status = r.status;
          headers = web.insert server w r.headers;
          on_upgrade = r.on_upgrade;
          body = boxed r.body;
        },
        rw f refl,
        refl,
        refl,
        (w, web.get-insert server w r.headers, web.to_str-from_str text w version-Visible f),
        w,
        refl,
      )
