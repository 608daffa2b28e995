-- ===== src/Service/Tests.antt =====
-- src/service on a server with one upstream server and one file.
use rxh.Prelude.{sym, some-none, map, ℕ, ◌≡◌, refl, none, some, List, [], ◌∷◌, inr}
use rxh.Prelude.Texts.{Text, bytes, starts_with}
use rxh.Http.{Request}
use rxh.Http.Forwarded
use rxh.Http.Forwarded.{by, Visible-Legal}
use rxh.Http.Plain.{plain}
use rxh.Service.Proxy
use rxh.Service.Files.{transfer}
use rxh.Service.Dispatch.{call}
use rxh.Service.Transfer.{Result, transfer_cases}
use rxh.Service.Routing.{Routed, call_first, configured-AllServe}
use rxh.Service.Exchange.{Sound, forward-Sound}
use rxh.Service.Session.{session}
use rxh.Service.Answered.{IsAnswered, configured_answers}
use rxh.Service.Turns.{configured_turn}
use rxh.Service.Balance.{passed, configured_balance}
use rxh.Sched.Turns.{turn}
use rxh.Sched.Fairness.{count, weight_of}
use native.Mathlib.Decide.{ℕ_discrete}
use rxh.Service.Sample.{
  show, version, network, disk, get_api, proxied, table, both, api, table-configured, service, old,
  assumed,
}

transfer_cases_example :
    Result plain version disk {Incoming = Text} {Failure = Unit} refl
      (bytes "page.html")
      (bytes "/home")
      (transfer plain version disk (bytes "page.html") (bytes "/home"))
transfer_cases_example =
    transfer_cases plain version disk {Incoming = Text} {Failure = Unit} refl (bytes "page.html")
      (bytes "/home")

call_first_example :
    Routed service get_api tt (call plain version show network disk service get_api tt)
call_first_example = call_first service get_api tt (configured-AllServe table table-configured)

-- The third request goes to the first address again, and a request for another uri does not count.
configured_turn_example :
    (to : ℕ) × (turn 2 both.backends ≡ some to)
    × ((
      (call plain version show network disk (session service old tt).0 get_api tt).0,
      (call plain version show network disk (session service old tt).0 get_api tt).2,
    )
        ≡ Proxy.forward plain version show network
            (record { request = get_api; client_addr = 1; server_addr = 2; proxy_id = none })
            to
            tt)
unfolding starts_with session Forwarded.new
configured_turn_example =
    configured_turn service [] api both table [] old get_api tt table-configured refl refl refl

configured_balance_example :
    (sent : List (Request plain Text × ℕ)) × (map (λ x. x.0) sent ≡ get_api ∷ get_api ∷ [])
    × ((session (session service old tt).0 (get_api ∷ get_api ∷ []) (session service old tt).1).1
        ≡ passed service sent (session service old tt).1)
    × ((a : ℕ) → count ℕ_discrete a (map (λ x. x.1) sent) ≡ weight_of ℕ_discrete a both.backends)
unfolding starts_with
configured_balance_example =
    configured_balance service [] api both ℕ_discrete table [] old (get_api ∷ get_api ∷ []) tt
      table-configured refl refl (refl, (refl, tt)) refl (inr refl)

forward-Sound_example :
    Sound assumed proxied (Proxy.forward plain version show network proxied 9000 tt).0
unfolding by
forward-Sound_example =
    forward-Sound assumed proxied (Visible-Legal plain (bytes "rxh") refl) (λ h e. h refl) 9000 tt

configured_answers_example :
    IsAnswered version
      (call plain version show network disk
        (session service old tt).0
        get_api
        (session service old tt).1).0
configured_answers_example =
    configured_answers assumed service table old get_api tt table-configured
      (λ name e. absurd (some-none name (sym e))) (λ h e. h refl)
