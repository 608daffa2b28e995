-- ===== src/Http/Tests.antt =====
-- src/http on concrete requests. Addresses are texts.
use rxh.Prelude.{ℕ, ◌==◌, if◌then◌else◌, Option, ◌≡◌, refl, none, some, []}
use rxh.Prelude.Options.{◌>>=◌}
use rxh.Prelude.Texts.{Text, bytes}
use rxh.Http.{Request, Response, server, content_type, forwarded}
use rxh.Http.Forwarded
use rxh.Http.Forwarded.{ProxyRequest, Cases, into_forwarded_cases}
use rxh.Http.Answers.{
  Body, full, boxed, respond, into_forwarded, Named, respond_total, forwarded_total,
}
use rxh.Http.Plain.{plain, from_str-Visible}

abbrev bare : Request plain Text
bare = record {
  method = bytes "GET";
  uri = bytes "/index.html";
  headers = λ n. none;
  on_upgrade = none;
  body = [];
}

-- The addresses of the unit tests in request.rs.
abbrev named : ProxyRequest plain ℕ Text
named = record {
  request = bare;
  client_addr = 8000;
  server_addr = 9000;
  proxy_id = some (bytes "rxh/main");
}

abbrev show : ℕ → Text
show n = bytes "127.0.0.1"

element_test : Forwarded.element plain show named ≡ bytes "for=127.0.0.1;by=rxh/main;host=127.0.0.1"
unfolding Forwarded.element Forwarded.by Forwarded.host_of
element_test = refl

into_forwarded_cases_example : Cases show named (λ n. refl)
into_forwarded_cases_example = into_forwarded_cases show named (λ n. refl)

built_answer :
    (r : Response plain (Body Text)) × (v : plain.Value) × (respond plain
        (bytes "0.1.0")
        404
        (bytes "text/plain")
        (bytes "gone")
      ≡ some r)
    × (r.status ≡ 404)
    × (r.body ≡ full (bytes "gone"))
    × (plain.get content_type r.headers ≡ some v)
    × (plain.to_str v ≡ some (bytes "text/plain"))
    × Named plain (bytes "0.1.0") r.headers
built_answer =
    respond_total plain (bytes "0.1.0") refl {Incoming = Text} 404 (bytes "text/plain")
      (bytes "gone") refl

abbrev upstream_response : Response plain Text
upstream_response = record {
  status = 200;
  headers = λ n. none;
  on_upgrade = none;
  body = bytes "hello";
}

upstream_answer :
    (r : Response plain (Body Text)) × (into_forwarded plain (bytes "0.1.0") upstream_response
      ≡ some r)
    × (r.status ≡ 200)
    × (r.body ≡ boxed (bytes "hello"))
    × Named plain (bytes "0.1.0") r.headers
    × (w : plain.Value) × (r.headers ≡ plain.insert server w upstream_response.headers)
upstream_answer = forwarded_total plain (bytes "0.1.0") refl upstream_response

-- A request that has come through another proxy.
abbrev second_hop : ProxyRequest plain ℕ Text
second_hop = record named {
  request = record bare {
    headers = plain.insert forwarded (bytes "for=10.0.0.1;by=edge;host=a.org", refl) bare.headers;
  };
}

abbrev passed_on : Request plain Text
passed_on = record second_hop.request {
  headers =
      plain.insert forwarded
        (bytes "for=10.0.0.1;by=edge;host=a.org, for=127.0.0.1;by=rxh/main;host=127.0.0.1", refl)
        second_hop.request.headers;
}

second_hop_test : Forwarded.into_forwarded plain show second_hop ≡ some passed_on
unfolding Forwarded.into_forwarded Forwarded.forwarded_value Forwarded.element Forwarded.by
    Forwarded.host_of
second_hop_test =
    rw
      (from_str-Visible
        (bytes "for=10.0.0.1;by=edge;host=a.org, for=127.0.0.1;by=rxh/main;host=127.0.0.1") refl)
      refl

-- The unit tests of request.rs: the header of a request that is passed on without and with a name.
abbrev port : ℕ → Text
port n = if n == 8000 then bytes "127.0.0.1:8000" else bytes "127.0.0.1:9000"

abbrev forwarded_header : Request plain Text → Option Text
forwarded_header r = plain.get forwarded r.headers >>= plain.to_str

abbrev forwarded_request : Option Text
forwarded_request =
    Forwarded.into_forwarded plain port (Forwarded.new plain port bare 8000 9000 none)
    >>= forwarded_header

abbrev forwarded_request_with_proxy_id : Option Text
forwarded_request_with_proxy_id =
    Forwarded.into_forwarded plain port
      (Forwarded.new plain port bare 8000 9000 (some (bytes "rxh/main")))
    >>= forwarded_header

forwarded_request_passes :
    forwarded_request ≡ some (bytes "for=127.0.0.1:8000;by=127.0.0.1:9000;host=127.0.0.1:9000")
unfolding Forwarded.into_forwarded Forwarded.forwarded_value Forwarded.element Forwarded.by
    Forwarded.host_of Forwarded.new
forwarded_request_passes =
    rw (from_str-Visible (bytes "for=127.0.0.1:8000;by=127.0.0.1:9000;host=127.0.0.1:9000") refl)
      refl

forwarded_request_with_proxy_id_passes :
    forwarded_request_with_proxy_id
    ≡ some (bytes "for=127.0.0.1:8000;by=rxh/main;host=127.0.0.1:9000")
unfolding Forwarded.into_forwarded Forwarded.forwarded_value Forwarded.element Forwarded.by
    Forwarded.host_of Forwarded.new
forwarded_request_with_proxy_id_passes =
    rw (from_str-Visible (bytes "for=127.0.0.1:8000;by=rxh/main;host=127.0.0.1:9000") refl) refl
