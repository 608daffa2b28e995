-- ===== src/Http.antt =====
-- src/http: requests and responses as they are forwarded or generated. What src/ uses of the http and
-- hyper crates is the interface `Web`; texts are UTF-8 bytes. A panic is `none`.
pub mod Forwarded
pub mod Answers
pub mod Plain
mod Tests
use rxh.Prelude.{
  ℕ, ◌≤◌, ◌<◌, ◌≡◌, ◌≢◌, Bool, true, Option, none, some, [], ◌∷◌, All, ltb, leb, ◌&&◌,
}
use rxh.Prelude.Texts.{Text, bytes}

-- Header names, as `hyper::header` spells them.
abbrev pub host : Text
host = bytes "host"

abbrev pub upgrade : Text
upgrade = bytes "upgrade"

abbrev pub forwarded : Text
forwarded = bytes "forwarded"

abbrev pub server : Text
server = bytes "server"

abbrev pub content_type : Text
content_type = bytes "content-type"

-- Every byte is printable ASCII.
abbrev pub is_visible : Text → Bool
is_visible [] = true
is_visible (b ∷ t) = leb 32 b && ltb b 127 && is_visible t

abbrev pub Visible : Text → Type 0
Visible t = is_visible t ≡ true

pub record Web : Type 1 where
  -- `Uri`, with `to_string` and `path`
  pub Uri : Type 0
  pub uri_text : Uri → Text
  pub uri_path : Uri → Text
  -- `OnUpgrade`
  pub OnUpgrade : Type 0
  -- `HeaderValue` and `HeaderMap`
  pub Value : Type 0
  pub Map : Type 0
  pub no_headers : Map
  pub get : Text → Map → Option Value
  pub insert : Text → Value → Map → Map
  pub append : Text → Value → Map → Map
  -- The bytes that a value may have.
  pub legal : ℕ → Bool
  pub from_str : Text → Option Value
  pub to_str : Value → Option Text
  pub get-no_headers : (n : Text) → get n no_headers ≡ none
  pub get-insert : (n : Text) (v : Value) (m : Map) → get n (insert n v m) ≡ some v
  pub get-insert_other :
      (n n' : Text) (v : Value) (m : Map) → n ≢ n' → get n (insert n' v m) ≡ get n m
  pub get-append : (n : Text) (v : Value) (m : Map) → get n m ≡ none → get n (append n v m) ≡ some v
  pub get-append_other :
      (n n' : Text) (v : Value) (m : Map) → n ≢ n' → get n (append n' v m) ≡ get n m
  pub legal-visible : (b : ℕ) → 32 ≤ b → b < 127 → legal b ≡ true
  pub from_str-legal :
      (t : Text) → All (λ b. legal b ≡ true) t → (v : Value) × (from_str t ≡ some v)
  pub legal-from_str : (t : Text) (v : Value) → from_str t ≡ some v → All (λ b. legal b ≡ true) t
  pub to_str-from_str : (t : Text) (v : Value) → Visible t → from_str t ≡ some v → to_str v ≡ some t
  pub to_str-legal : (v : Value) (t : Text) → to_str v ≡ some t → All (λ b. legal b ≡ true) t

module _ (web : Web) where
  -- `hyper::Request<T>`, with the `OnUpgrade` of its extensions
  pub record Request (Body : Type 0) : Type 0 where
    pub method : Text
    pub uri : web.Uri
    pub headers : web.Map
    pub on_upgrade : Option web.OnUpgrade
    pub body : Body

  -- `hyper::Response<T>`, likewise
  pub record Response (Body : Type 0) : Type 0 where
    pub status : ℕ
    pub headers : web.Map
    pub on_upgrade : Option web.OnUpgrade
    pub body : Body
