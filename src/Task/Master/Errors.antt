-- ===== src/Task/Master/Errors.antt =====
-- src/task/master.rs: `Master::run`, from its `select!` on.
use rxh.Prelude.{
  ℕ, ◌<◌, ◌≡◌, refl, ap, ◌∙◌, Bool, true, false, Option, none, some, List, [], ◌∷◌, ◌++◌, ◌⊎◌, inl,
  inr, to_list, zero_or_pos,
}
use rxh.Tokio.{Broadcast}
use rxh.Task.Master.{Outcome, ok, err, panic}

-- What `join_next` gives of a server: what `Server::run` returned, or that its task has panicked.
pub data Joined (Error : Type 0) : Type 0 where
  returned : Joined Error
  failed : Error → Joined Error
  join_error : Joined Error

module _ {Error : Type 0} where
  -- `get_or_insert`
  abbrev pub get_or_insert : Option Error → Error → Option Error
  get_or_insert none e = some e
  get_or_insert (some first) e = some first

  -- `match first_error`
  abbrev pub finish : Option Error → Outcome Error Unit
  finish none = ok tt
  finish (some e) = err e

  -- The servers are joined, in the order in which they end.
  unfoldable pub join_all : Option Error → List (Joined Error) → Outcome Error Unit
  join_all first_error [] = finish first_error
  join_all first_error (returned ∷ set) = join_all first_error set
  join_all first_error (failed e ∷ set) = join_all (get_or_insert first_error e) set
  join_all first_error (join_error ∷ set) = panic

  -- The shutdown signal, whose failure is unwrapped, and what follows. `first_error` is what `select!`
  -- ended with, and `bus` the channel to which the servers that wait for the signal are subscribed.
  abbrev signalled : (sent : Option ℕ) → Option Error → List (Joined Error) → Outcome Error Unit
  signalled none first_error set = panic
  signalled (some n) first_error set = join_all first_error set

  unfoldable pub shut_down :
      (bc : Broadcast Unit) → bc.Bus → Option Error → List (Joined Error) → Outcome Error Unit
  unfolding join_all
  shut_down bc bus first_error set = signalled (bc.send tt bus).0 first_error set

  -- What `select!` ends with, where `join_next` has given `taken` before the signal came: its pattern is
  -- that of an error, and any other result is dropped as the branch is disabled.
  unfoldable pub selected : (taken : Option (Joined Error)) → Option Error
  selected none = none
  selected (some returned) = none
  selected (some (failed e)) = some e
  selected (some join_error) = none

  -- `run` from its `select!` on, where `set` are the servers that are then left.
  unfoldable pub run_end :
      (bc : Broadcast Unit)
      → bc.Bus
      → (taken : Option (Joined Error)) → List (Joined Error)
      → Outcome Error Unit
  unfolding selected shut_down
  run_end bc bus taken set = shut_down bc bus (selected taken) set

  abbrev pub errors : List (Joined Error) → List Error
  errors [] = []
  errors (failed e ∷ set) = e ∷ errors set
  errors (returned ∷ set) = errors set
  errors (join_error ∷ set) = errors set

  abbrev pub head : List Error → Option Error
  head [] = none
  head (e ∷ es) = some e

  abbrev pub calm : List (Joined Error) → Bool
  calm [] = true
  calm (join_error ∷ set) = false
  calm (returned ∷ set) = calm set
  calm (failed e ∷ set) = calm set

  join_all-head :
      (first : Option Error) (set : List (Joined Error))
      → ((calm set ≡ false) × (join_all first set ≡ panic))
        ⊎ ((calm set ≡ true) × (join_all first set ≡ finish (head (to_list first ++ errors set))))
  unfolding join_all
  join_all-head none [] = inr (refl, refl)
  join_all-head (some e) [] = inr (refl, refl)
  join_all-head first (join_error ∷ set) = inl (refl, refl)
  join_all-head first (returned ∷ set) = join_all-head first set
  join_all-head none (failed e ∷ set) = join_all-head (some e) set
  join_all-head (some f) (failed e ∷ set) = join_all-head (some f) set

  shut_down_cases :
      (bc : Broadcast Unit) (bus : bc.Bus) (first : Option Error) (set : List (Joined Error))
      → (((bc.receivers bus ≡ 0) ⊎ (calm set ≡ false)) × (shut_down bc bus first set ≡ panic))
        ⊎ ((0 < bc.receivers bus)
            × (calm set ≡ true)
            × (shut_down bc bus first set ≡ finish (head (to_list first ++ errors set))))
  unfolding shut_down
  shut_down_cases bc bus first set = elim (zero_or_pos (bc.receivers bus)) [
    | inl z ↦ inl (inl z, rw (bc.send-none tt bus z) refl)
    | inr p ↦ elim (join_all-head first set) [
      | inl (c, e) ↦ inl (inr c, rw (bc.send-some tt bus p) e)
      | inr (c, e) ↦ inr (p, c, rw (bc.send-some tt bus p) e)
    ]
  ]

  selected-errors :
      (taken : Option (Joined Error)) → to_list (selected taken) ≡ errors (to_list taken)
  unfolding selected
  selected-errors none = refl
  selected-errors (some returned) = refl
  selected-errors (some (failed e)) = refl
  selected-errors (some join_error) = refl

  -- Whatever server join_next has given in select!, if any: the master then panics if no server waits
  -- for the signal to shut down or one of the servers that are left has panicked; otherwise it waits
  -- for all of these and ends with the first error, one that ended select! ahead of theirs, and well
  -- if there is none. So a server that select! has joined is dropped unless it gave an error, also if
  -- it has panicked.
  pub run_end_cases :
      (bc : Broadcast Unit) (bus : bc.Bus) (taken : Option (Joined Error))
      (set : List (Joined Error))
      → (((bc.receivers bus ≡ 0) ⊎ (calm set ≡ false)) × (run_end bc bus taken set ≡ panic))
        ⊎ ((0 < bc.receivers bus)
            × (calm set ≡ true)
            × (run_end bc bus taken set ≡ finish (head (errors (to_list taken) ++ errors set))))
  unfolding run_end
  run_end_cases bc bus taken set = elim (shut_down_cases bc bus (selected taken) set) [
    | inl h ↦ inl h
    | inr (p, c, e) ↦
        inr (p, c, e ∙ ap (λ l. finish (head (l ++ errors set))) (selected-errors taken))
  ]
