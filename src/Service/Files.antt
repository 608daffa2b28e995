-- ===== src/Service/Files.antt =====
-- src/service/files.rs: `transfer`.
use rxh.Prelude.{Option, none, some, if◌then◌else◌, ◌&&◌}
use rxh.Prelude.Texts.{Text, bytes, same_text}
use rxh.Http.{Web}
use rxh.Http.Answers.{not_found, respond}
use rxh.Service.{FileSystem, Answer, of_option}

-- The `match` on a file's extension.
abbrev pub media_type : Text → Text
media_type e =
    if same_text e (bytes "html")
    then bytes "text/html"
    else if same_text e (bytes "css")
    then bytes "text/css"
    else if same_text e (bytes "js")
    then bytes "application/javascript"
    else if same_text e (bytes "png")
    then bytes "image/png"
    else if same_text e (bytes "jpeg")
    then bytes "image/jpeg"
    else bytes "text/plain"

abbrev pub or_txt : Option Text → Text
or_txt none = bytes "txt"
or_txt (some e) = e

module _ (web : Web) (version : Text) (fs : FileSystem) {Incoming Failure : Type 0} where
  abbrev missing : Answer web Incoming Failure
  missing = of_option (not_found web version)

  abbrev pub content : fs.FilePath → Option Text → Answer web Incoming Failure
  content file none = missing
  content file (some text) =
      of_option (respond web version 200 (media_type (or_txt (fs.extension file))) text)

  abbrev pub resolved : fs.FilePath → Option fs.FilePath → Answer web Incoming Failure
  resolved directory none = missing
  resolved directory (some file) =
      if fs.starts_with file directory && fs.is_file file
      then content file (fs.read file)
      else missing

  abbrev pub rooted : Text → Option fs.FilePath → Answer web Incoming Failure
  rooted path none = missing
  rooted path (some directory) = resolved directory (fs.canonicalize (fs.join directory path))

  unfoldable pub transfer : Text → Text → Answer web Incoming Failure
  transfer path root = rooted path (fs.canonicalize (fs.path root))
