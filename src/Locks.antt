-- ===== src/Locks.antt =====
-- The mutexes of the SDK, as what each function locks and unlocks in the order of its statements, and
-- threads that run such sequences. A wait on a condition variable unlocks its mutex and locks it again.
pub mod Order
pub mod Progress
pub mod Finish
pub mod Methods
pub mod Rounds
pub mod Bodies
pub mod Safe
pub mod Stuck
use grpc_push_sdk.Common.{
  ℕ, zero, suc, ◌+◌, Bool, true, false, not, ◌&&◌, List, [], ◌∷◌, ◌++◌, Option, none, some, ◌==◌,
  if◌then◌else◌,
}

-- Client::stream_mux_, PushSDK::hdls_mux_, _mux of push_sdk.cpp, PushSDK::user_mux_, cb_map_mux_ and
-- event_cb_mux_, Client::msg_queue_mux_, the mutexes of the uploader and of its HTTP client, and that of
-- the call context at an address.
pub data Lock : Type 0 where
  stream hdls api user cb_map event_cb msg_queue elk http : Lock
  ctx : ℕ → Lock

-- An order in which all functions lock, if they lock one mutex while they hold another.
abbrev pub rank : Lock → ℕ
rank stream = 0
rank hdls = 1
rank api = 2
rank user = 3
rank cb_map = 4
rank event_cb = 5
rank msg_queue = 6
rank elk = 7
rank http = 8
rank (ctx a) = 9 + a

pub data Act : Type 0 where
  acquire : Lock → Act
  release : Lock → Act

-- A critical section.
unfoldable pub locked : Lock → List Act → List Act
locked m body = acquire m ∷ body ++ release m ∷ []

-- What a thread holds, the latest first, and what it has still to do.
pub record Thread : Type 0 where
  pub held : List Lock
  pub todo : List Act

unfoldable pub holds : Lock → List Lock → Bool
holds m [] = false
holds m (h ∷ hs) = if rank m == rank h then true else holds m hs

unfoldable pub is_free : Lock → List Thread → Bool
is_free m [] = true
is_free m (t ∷ ts) = not (holds m t.held) && is_free m ts

unfoldable pub without : Lock → List Lock → List Lock
without m [] = []
without m (h ∷ hs) = if rank m == rank h then hs else h ∷ without m hs

-- The next act of a thread among all threads; `none` if it has none or must wait.
unfoldable pub act : List Thread → List Lock → List Act → Option Thread
act all held [] = none
act all held (acquire m ∷ rest) =
    if is_free m all then some (record { held = m ∷ held; todo = rest }) else none
act all held (release m ∷ rest) = some (record { held = without m held; todo = rest })

unfoldable pub thread_at : ℕ → List Thread → Option Thread
thread_at i [] = none
thread_at zero (t ∷ ts) = some t
thread_at (suc i) (t ∷ ts) = thread_at i ts

unfoldable pub with_thread : ℕ → Thread → List Thread → List Thread
with_thread i u [] = []
with_thread zero u (t ∷ ts) = u ∷ ts
with_thread (suc i) u (t ∷ ts) = t ∷ with_thread i u ts

abbrev pub moved : ℕ → List Thread → Option Thread → Option (List Thread)
moved i all none = none
moved i all (some u) = some (with_thread i u all)

abbrev pub turn_of : ℕ → List Thread → Option Thread → Option (List Thread)
turn_of i all none = none
turn_of i all (some t) = moved i all (act all t.held t.todo)

-- The thread with the number `i` makes its next act.
unfoldable pub turn : ℕ → List Thread → Option (List Thread)
turn i all = turn_of i all (thread_at i all)

-- A schedule.
unfoldable pub turns : List ℕ → List Thread → Option (List Thread)
turns [] all = some all
turns (i ∷ is) all = elim (turn i all) [ none ↦ none | some all' ↦ turns is all' ]
