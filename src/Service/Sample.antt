-- ===== src/Service/Sample.antt =====
-- A server with one upstream server and one file, for the tests of src/service. Addresses are numbers.
use rxh.Prelude.{ℕ, ◌≡◌, refl, ap, arith, true, none, some, List, [], ◌∷◌, inr, ◌==◌, if◌then◌else◌}
use rxh.Prelude.Texts.{Text, bytes, same_text}
use rxh.Sched.{make, wrr, weighted_round_robin}
use rxh.Config
use rxh.Config.Deser.{ok, one, many, BackendOption, ForwardOption, to_forward}
use rxh.Config.Deser.Visit.{Entry, listen, forward, uri, visit_map}
use rxh.Http.{Request, Response}
use rxh.Http.Forwarded.{ProxyRequest}
use rxh.Http.Plain.{plain}
use rxh.Service.{Upstream, FileSystem}
use rxh.Service.Dispatch.{Rxh}
use rxh.Service.Exchange.{Assumed}

abbrev pub show : ℕ → Text
show n = bytes "127.0.0.1"

abbrev pub version : Text
version = bytes "0.1.0"

abbrev pub hello : Response plain Text
hello = record { status = 200; headers = λ n. none; on_upgrade = none; body = bytes "hello" }

-- It answers at 9000, and nothing else listens.
abbrev pub network : Upstream plain ℕ Text
network = record {
  Net = Unit;
  Stream = Unit;
  Sender = Unit;
  Failure = Unit;
  connect = λ a net. (if a == 9000 then some tt else none, net);
  handshake = λ s net. (inr tt, net);
  send_request = λ s r net. (inr hello, net);
  tunnel = λ c s net. net;
}

-- A path is a text, and the directory /home has a page.
abbrev pub disk : FileSystem
disk = record {
  FilePath = Text;
  path = λ t. t;
  join = λ p t. t;
  canonicalize = λ p. some p;
  starts_with = λ p d. true;
  is_file = λ p. same_text p (bytes "page.html");
  extension = λ p. some (bytes "html");
  read = λ p. some (bytes "welcome");
}

abbrev pub get_api : Request plain Text
get_api = record {
  method = bytes "GET";
  uri = bytes "/api/users";
  headers = λ n. none;
  on_upgrade = none;
  body = [];
}

abbrev pub proxied : ProxyRequest plain ℕ Text
proxied = record {
  request = get_api;
  client_addr = 1;
  server_addr = 2;
  proxy_id = some (bytes "rxh");
}

abbrev pub table : List (Entry ℕ)
table =
    listen (ok (one 8000))
    ∷ forward (
        ok (
          ForwardOption.simple (many (BackendOption.simple 9000 ∷ BackendOption.simple 9001 ∷ []))))
    ∷ uri (ok (bytes "/api"))
    ∷ []

abbrev pub both : Config.Forward ℕ
both = record {
  backends = record { address = 9000; weight = 1 } ∷ record { address = 9001; weight = 1 } ∷ [];
  algorithm = wrr;
  scheduler =
      weighted_round_robin (record { cycle = record { values = 9000 ∷ 9001 ∷ []; next = 0 } });
}

abbrev pub api : Config.Pattern ℕ
api = record { uri = bytes "/api"; action = Config.forward both }

abbrev pub configured : Config.Server ℕ
configured = record {
  listen = 8000 ∷ [];
  patterns = api ∷ [];
  max_connections = 1024;
  name = none;
  log_name = bytes "unnamed";
}

pub table-configured : visit_map table ≡ ok configured
unfolding visit_map to_forward make
table-configured = refl

abbrev pub service : Rxh plain version show network disk
service = record { config = configured; client_addr = 1; server_addr = 2 }

abbrev pub old : List (Request plain Text)
old = get_api ∷ record get_api { uri = bytes "/static/x" } ∷ get_api ∷ []

pub assumed : Assumed {web = plain} version show network
assumed = record {
  version-Visible = refl;
  show-Visible = λ n. refl;
  switches = λ sender request net r e s.
      λ n. let f : hello ≡ r = cc in omega (arith, ap (λ r. r.status) f, s);
}
