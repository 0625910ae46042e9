-- ===== src/Singleton.antt =====
-- Singleton<T>::Instance of src/common/singleton.h, called any number of times by any threads: each call
-- is a state machine whose turns read or write one shared variable, and the turns of the calls interleave.
-- The object is a value of `A`, and `none` is the null pointer. Both overloads of Instance have this body.
pub mod Invariant
pub mod Turns
pub mod Once
pub mod Returns
use grpc_push_sdk.Common.{
  ℕ, Bool, true, false, List, [], ◌∷◌, Option, none, some, if◌then◌else◌, ◌+◌, update,
}

-- The static members.
pub record Shared {ℓ} (A : Type ℓ) : Type ℓ where
  pub instantiated : Bool
  pub initializing : Bool
  pub instance_ptr : Option A

-- Where a call is: before test_and_set, before `new T`, before each of the two assignments, in the loop,
-- before it reads the pointer, at its end, or left with an exception.
pub data Pc {ℓ} (A : Type ℓ) : Type ℓ where
  enters constructs : Pc A
  assigns : A → Pc A
  clears spins reads : Pc A
  returned : Option A → Pc A
  thrown : Pc A

pub record Calls {ℓ} (A : Type ℓ) : Type ℓ where
  pub shared : Shared A
  pub pc : ℕ → Pc A

-- The static members before the first call.
abbrev pub fresh_members {ℓ} : {A : Type ℓ} → Shared A
fresh_members = record { instantiated = false; initializing = true; instance_ptr = none }

abbrev pub no_calls {ℓ} : {A : Type ℓ} → Calls A
no_calls = record { shared = fresh_members; pc = λ i. enters }

-- The next turn of a call; `made` is what the constructor gives, if it is run: `none` if it throws.
unfoldable pub advance {ℓ} : {A : Type ℓ} → Option A → Shared A → Pc A → Shared A × Pc A
advance made m enters =
    if m.instantiated then (m, spins) else (record m { instantiated = true }, constructs)
advance none m constructs = (m, thrown)
advance (some a) m constructs = (m, assigns a)
advance made m (assigns a) = (record m { instance_ptr = some a }, clears)
advance made m clears = (record m { initializing = false }, spins)
advance made m spins = if m.initializing then (m, spins) else (m, reads)
advance made m reads = (m, returned m.instance_ptr)
advance made m (returned p) = (m, returned p)
advance made m thrown = (m, thrown)

abbrev pub put {ℓ} : {A : Type ℓ} → ℕ → Calls A → Shared A × Pc A → Calls A
put i s (m, p) = record { shared = m; pc = update s.pc i p }

-- The call `i` makes its next turn.
unfoldable pub turn {ℓ} : {A : Type ℓ} → ℕ → Option A → Calls A → Calls A
turn i made s = put i s (advance made s.shared (s.pc i))

-- The turns of a schedule.
unfoldable pub turns {ℓ} : {A : Type ℓ} → List (ℕ × Option A) → Calls A → Calls A
turns [] s = s
turns ((i, made) ∷ ts) s = turns ts (turn i made s)

abbrev pub constructs_now {ℓ} : {A : Type ℓ} → Pc A → ℕ
constructs_now constructs = 1
constructs_now p = 0

-- How often a constructor is run.
unfoldable pub constructions {ℓ} : {A : Type ℓ} → List (ℕ × Option A) → Calls A → ℕ
constructions [] s = 0
constructions ((i, made) ∷ ts) s = constructs_now (s.pc i) + constructions ts (turn i made s)
