-- ===== src/Ring.antt =====
-- src/sync/ring.rs: circular read-only access to a vector, with an atomic index.
-- A panic is `none`. `Ordering::Relaxed` and `fetch_add` make each call one atomic step.
pub mod Bounds
pub mod Cycle
pub mod Rotation
pub mod Rounds
pub mod Wrap
pub mod Threads
mod Tests
use rxh.Prelude.Options.{◌>>=◌}
use rxh.Prelude.{
  ℕ, ◌+◌, ◌%◌, ◌^◌, Option, none, some, List, ltb, ◌==◌, if◌then◌else◌, length, get_elem?,
}

pub record Ring {ℓ} (A : Type ℓ) : Type ℓ where
  pub values : List A
  pub next : ℕ

-- `usize` on a 64-bit target
abbrev pub usize_mod : ℕ
usize_mod = 2 ^ 64

module _ {ℓ} {A : Type ℓ} where
  unfoldable pub new : List A → Option (Ring A)
  new values = if ltb 0 (length values) then some (record { values = values; next = 0 }) else none

  -- `AtomicUsize::fetch_add(1)`: the old value, and the counter wraps.
  abbrev pub fetch_add : Ring A → ℕ × Ring A
  fetch_add r = (r.next, record r { next = (r.next + 1) % usize_mod })

  -- `%` by zero panics.
  unfoldable pub next_index : Ring A → Option (ℕ × Ring A)
  next_index r =
      if length r.values == 1
      then some (0, r)
      else (let (i, r') = fetch_add r in
          if length r.values == 0 then none else some (i % length r.values, r'))

  -- An index out of range panics.
  unfoldable pub next_as_ref : Ring A → Option (A × Ring A)
  next_as_ref r = do (i, r') ← next_index r; a ← get_elem? r.values i; some (a, r')

  unfoldable pub next_as_owned : Ring A → Option (A × Ring A)
  next_as_owned r = next_as_ref r

  unfoldable pub next_as_cloned : Ring A → Option (A × Ring A)
  next_as_cloned r = next_as_ref r
