-- ===== src/Service/Dispatch.antt =====
-- src/service/mod.rs: `Rxh::call`, with the configuration that it shares passed through.
use rxh.Prelude.{◌==◌, Bool, Option, none, some, List, [], ◌∷◌, ◌++◌, if◌then◌else◌}
use rxh.Prelude.Texts.{Text, starts_with}
use rxh.Sched.{Scheduler, next_server}
use rxh.Config
use rxh.Config.{Pattern, Action, forward, serve, Forward}
use rxh.Http.{Web, Request}
use rxh.Http.Forwarded
use rxh.Http.Answers.{not_found}
use rxh.Service.{Upstream, FileSystem, Answer, panicked, of_option}
use rxh.Service.Proxy
use rxh.Service.Files.{transfer}

-- `Iterator::find`, with what stands before and behind.
unfoldable pub find {ℓ} : {A : Type ℓ} → (A → Bool) → List A → Option (List A × A × List A)
find f [] = none
find f (x ∷ xs) =
    let rest = find f xs in
    if f x
    then some ([], x, xs)
    else elim rest [ none ↦ none | some (before, y, after) ↦ some (x ∷ before, y, after) ]

-- A leading slash of a path is dropped.
abbrev pub relative : Text → Text
relative [] = []
relative (b ∷ t) = if b == 47 then t else b ∷ t

module _ (web : Web) (version : Text) {Addr Incoming : Type 0} (show : Addr → Text)
    (up : Upstream web Addr Incoming) (fs : FileSystem) where
  -- `Rxh`
  pub record Rxh : Type 0 where
    pub config : Config.Server Addr
    pub client_addr : Addr
    pub server_addr : Addr

  abbrev Out : Type 0
  Out = Answer web Incoming up.Failure × Rxh × up.Net

  -- The scheduler of the pattern in the middle has gone on.
  abbrev pub advanced :
      Rxh
      → List (Pattern Addr)
      → Pattern Addr
      → List (Pattern Addr)
      → Forward Addr
      → Scheduler Addr
      → Rxh
  advanced s before p after f scheduler = record s {
    config = record s.config {
      patterns =
          before ++ record p { action = forward (record f { scheduler = scheduler }) } ∷ after;
    };
  }

  abbrev pub scheduled :
      Rxh
      → Request web Incoming
      → up.Net
      → List (Pattern Addr)
      → Pattern Addr
      → List (Pattern Addr)
      → Forward Addr
      → Option (Addr × Scheduler Addr)
      → Out
  scheduled s request net before p after f none = (panicked, s, net)
  scheduled s request net before p after f (some (to, scheduler)) =
      let by = s.config.name in
      let proxied = Forwarded.new web show request s.client_addr s.server_addr by in
      let (answer, net) = Proxy.forward web version show up proxied to net in
      (answer, advanced s before p after f scheduler, net)

  abbrev pub act :
      Rxh
      → Request web Incoming
      → up.Net
      → List (Pattern Addr)
      → Pattern Addr
      → List (Pattern Addr)
      → Action Addr
      → Out
  act s request net before p after (forward f) =
      scheduled s request net before p after f (next_server f.scheduler)
  act s request net before p after (serve directory) =
      (transfer web version fs (relative (web.uri_path request.uri)) directory, s, net)

  abbrev pub dispatched :
      Rxh
      → Request web Incoming
      → up.Net
      → Option (List (Pattern Addr) × Pattern Addr × List (Pattern Addr))
      → Out
  dispatched s request net none = (of_option (not_found web version), s, net)
  dispatched s request net (some (before, p, after)) = act s request net before p after p.action

  unfoldable pub call : Rxh → Request web Incoming → up.Net → Out
  unfolding find
  call s request net =
      dispatched s request net
        (find (λ p. starts_with (web.uri_text request.uri) p.uri) s.config.patterns)
