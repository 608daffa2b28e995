-- ===== src/Service/Flight/Tests.antt =====
-- src/service: two clients ask for the same path, and the first exchange goes on behind the second request.
use native.Mathlib.Decide.{ℕ_discrete}
use rxh.Prelude.{ℕ, ◌*◌, ◌≤◌, ◌≡◌, refl, sym, some-none, arith, some, List, [], ◌∷◌, map}
use rxh.Prelude.Texts.{starts_with}
use rxh.Sched.Picks.{down}
use rxh.Sched.Fairness.{count, weight_of}
use rxh.Http.Plain.{plain}
use rxh.Service.Sample.{
  show, version, network, disk, get_api, both, api, table, configured, table-configured, service,
  assumed,
}
use rxh.Service.Flight
use rxh.Service.Flight.{begin, resume, Traffic, Flies, quiet, arrive, go_on}
use rxh.Service.Flight.Shares.{sent_to, traffic_turns, traffic_shares}
use rxh.Service.Flight.Answers.{IsOver, thrice, traffic_answers}

abbrev one : Traffic plain version show network disk
one = record {
  config = (begin plain version show network disk service get_api).1.config;
  net = tt;
  flights = (get_api, (begin plain version show network disk service get_api).0) ∷ [];
}

abbrev later : Flight.Flight plain version show network
later =
    (begin plain version show network disk
      (Flight.service_for plain version show network disk one 1 2) get_api).0

abbrev first : Flight.Flight plain version show network
first = (begin plain version show network disk service get_api).0

abbrev two : Traffic plain version show network disk
two = record {
  config =
      (begin plain version show network disk
        (Flight.service_for plain version show network disk one 1 2) get_api).1.config;
  net = (resume plain version show network first tt).1;
  flights = (get_api, later) ∷ (get_api, (resume plain version show network first tt).0) ∷ [];
}

two-Flies : Flies plain version show network disk configured tt two
two-Flies =
    go_on _ ((get_api, later) ∷ []) get_api first []
      (arrive one 1 2 get_api (arrive _ 1 2 get_api quiet)) refl

traffic_turns_example : sent_to service [] api both two ≡ down 2 both.backends
unfolding starts_with
traffic_turns_example =
    traffic_turns service [] api both table [] two table-configured refl refl two-Flies

traffic_shares_example :
    (sent : List ℕ) × (sent_to service [] api both two ≡ map some sent)
    × ((a : ℕ)
        → (1 * weight_of ℕ_discrete a both.backends ≤ count ℕ_discrete a sent)
          × (count ℕ_discrete a sent ≤ 2 * weight_of ℕ_discrete a both.backends))
unfolding starts_with
traffic_shares_example =
    traffic_shares service [] api both ℕ_discrete table [] two 2 1 table-configured refl refl
      two-Flies refl (omega arith) (omega arith) (omega arith)

traffic_answers_example :
    IsOver assumed (thrice assumed (resume plain version show network first tt).0 tt tt tt)
traffic_answers_example =
    traffic_answers assumed service table two ((get_api, later) ∷ []) get_api
      (resume plain version show network first tt).0 [] tt tt tt table-configured
      (λ name e. absurd (some-none name (sym e))) two-Flies refl (λ h e. h refl)
