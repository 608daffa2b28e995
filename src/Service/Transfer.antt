-- ===== src/Service/Transfer.antt =====
-- src/service/files.rs: which files are served.
use rxh.Prelude.{
  ◌≡◌, refl, sym, ap, ◌∙◌, Bool, true, false, Option, none, some, some-none, Bool-cases,
  if◌then◌else◌, ◌&&◌, ◌⊎◌, inl, inr,
}
use rxh.Prelude.Texts.{Text, bytes, same_text}
use rxh.Http.{Web, Visible, Response, content_type}
use rxh.Http.Answers.{Body, full, Named, not_found, respond_total}
use rxh.Service.{FileSystem, Answer, answered, of_option}
use rxh.Service.Files.{media_type, or_txt, content, resolved, rooted, transfer}

if-Visible : (b : Bool) (s t : Text) → Visible s → Visible t → Visible (if b then s else t)
if-Visible true s t h k = h
if-Visible false s t h k = k

media_type-Visible : (e : Text) → Visible (media_type e)
media_type-Visible e = if-Visible (same_text e (bytes "html")) _ _ refl (
    if-Visible (same_text e (bytes "css")) _ _ refl (
      if-Visible (same_text e (bytes "js")) _ _ refl (
        if-Visible (same_text e (bytes "png")) _ _ refl
          (if-Visible (same_text e (bytes "jpeg")) _ _ refl refl))))

and-parts : (a b : Bool) → (a && b) ≡ true → (a ≡ true) × (b ≡ true)
and-parts true b h = (refl, h)
and-parts false b h = cc

and-both : (a b : Bool) → a ≡ true → b ≡ true → (a && b) ≡ true
and-both true b e f = f
and-both false b e f = e

-- The path leads to a file inside the root directory that can be read.
pub record Served (fs : FileSystem) (path root text : Text) : Type 0 where
  pub directory : fs.FilePath
  pub file : fs.FilePath
  pub real_root : fs.canonicalize (fs.path root) ≡ some directory
  pub real_path : fs.canonicalize (fs.join directory path) ≡ some file
  pub inside : fs.starts_with file directory ≡ true
  pub regular : fs.is_file file ≡ true
  pub readable : fs.read file ≡ some text

module _ (web : Web) (version : Text) (fs : FileSystem) {Incoming Failure : Type 0}
    (version-Visible : Visible version) (path root : Text) where
  -- The file's bytes, or the answer that there is none.
  abbrev pub Result : Answer web Incoming Failure → Type 0
  Result a =
      ((¬ ((text : Text) × Served fs path root text))
        × (r : Response web (Body Incoming)) × (a ≡ answered r)
        × (r.status ≡ 404)
        × Named web version r.headers)
      ⊎ ((text : Text) × (served : Served fs path root text) × (r : Response web (Body Incoming))
          × (v : web.Value) × (a ≡ answered r)
          × (r.status ≡ 200)
          × (r.body ≡ full text)
          × (web.get content_type r.headers ≡ some v)
          × (web.to_str v ≡ some (media_type (or_txt (fs.extension served.file))))
          × Named web version r.headers)

  none-Served :
      ¬ ((text : Text) × Served fs path root text) → Result (of_option (not_found web version))
  unfolding not_found
  none-Served h =
      let (r, v, e, s, _, _, _, n) =
        respond_total web version version-Visible 404 (bytes "text/plain")
          (bytes "HTTP 404 NOT FOUND") refl in
      inl (h, r, ap of_option e, s, n)

  content-Result :
      (directory file : fs.FilePath) (o : Option Text)
      → fs.canonicalize (fs.path root) ≡ some directory
      → fs.canonicalize (fs.join directory path) ≡ some file
      → (fs.starts_with file directory ≡ true) × (fs.is_file file ≡ true)
      → fs.read file ≡ o
      → Result (content web version fs file o)
  content-Result directory file none e f _ g =
      none-Served (λ (t, v). let r = v.real_root in let p = v.real_path in let q = v.readable in cc)
  content-Result directory file (some text) e f (i, k) g =
      let kind = media_type (or_txt (fs.extension file)) in
      let (r, v, h, s, b, c, d, n) =
        respond_total web version version-Visible 200 kind text
          (media_type-Visible (or_txt (fs.extension file))) in
      inr (
        text,
        record {
          directory = directory;
          file = file;
          real_root = e;
          real_path = f;
          inside = i;
          regular = k;
          readable = g;
        },
        r,
        v,
        ap of_option h,
        s,
        b,
        c,
        d,
        n,
      )

  resolved-Result :
      (directory : fs.FilePath) (o : Option fs.FilePath)
      → fs.canonicalize (fs.path root) ≡ some directory
      → fs.canonicalize (fs.join directory path) ≡ o
      → Result (resolved web version fs directory o)
  resolved-Result directory none e f =
      none-Served (λ (t, v). let r = v.real_root in let p = v.real_path in cc)
  resolved-Result directory (some file) e f =
      elim (Bool-cases (fs.starts_with file directory && fs.is_file file)) [
        | inl t ↦ rw t (content-Result directory file (fs.read file) e f (and-parts _ _ t) refl)
        | inr n ↦ rw n (
            none-Served (λ (t, v).
              let r = v.real_root in
              let p = v.real_path in
              let q =
                and-both (fs.starts_with v.file v.directory) (fs.is_file v.file) v.inside
                  v.regular in
              cc))
      ]

  rooted-Result :
      (o : Option fs.FilePath)
      → fs.canonicalize (fs.path root) ≡ o
      → Result (rooted web version fs path o)
  rooted-Result none e = none-Served (λ (t, v). some-none v.directory (sym v.real_root ∙ e))
  rooted-Result (some directory) e =
      resolved-Result directory (fs.canonicalize (fs.join directory path)) e refl

  -- If the package's version is visible ASCII: a request for a file never panics and never fails. Either
  -- the path, resolved, is no readable file inside the resolved root directory, and the answer is 404;
  -- or it is one, and the answer is 200 with the bytes of this file and the type of its extension. Both
  -- have this server's name as their Server header.
  pub transfer_cases : Result (transfer web version fs path root)
  unfolding transfer
  transfer_cases = rooted-Result (fs.canonicalize (fs.path root)) refl
