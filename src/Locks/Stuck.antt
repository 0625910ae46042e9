-- ===== src/Locks/Stuck.antt =====
-- A thread that locks a mutex that it holds.
use grpc_push_sdk.Common.{
  ℕ, zero, suc, ◌≡◌, refl, Bool, true, false, List, [], ◌∷◌, ◌++◌, none, some, ap, ◌∙◌, sym, subst,
  arith, Bool-cases, Option-cases, inl, inr, ◌⊎◌, if◌then◌else◌, is_some,
}
use grpc_push_sdk.Locks.{
  Lock, stream, hdls, user, cb_map, event_cb, msg_queue, Act, acquire, release, Thread, holds,
  without, is_free, act, thread_at, with_thread, turn, turns, locked,
}
use grpc_push_sdk.Locks.Rounds.{handler_locks, destroy_locks, client_locks, handles, user_message}
use grpc_push_sdk.Packet.{World}
use grpc_push_sdk.Sdk.State.{PushSdk}
use mathlib.Core.Option.{some-injective}

holds-is_free :
    (m : Lock) (i : ℕ) (t : Thread) (all : List Thread)
    → thread_at i all ≡ some t
    → holds m t.held ≡ true
    → is_free m all ≡ false
unfolding thread_at is_free
holds-is_free m i t [] e h = cc
holds-is_free m zero t (u ∷ us) e h =
    let same = some-injective u t e in ground (arith, ap (λ (x : Thread). holds m x.held) same, h)
holds-is_free m (suc i) t (u ∷ us) e h =
    let there = holds-is_free m i t us e h in
    elim (Bool-cases (holds m u.held)) [
      | inl here ↦ ground (arith, here)
      | inr free ↦ ground (arith, free, there)
    ]

with_thread-thread_at :
    (j i : ℕ) (u t : Thread) (all : List Thread)
    → thread_at i all ≡ some t
    → (j ≡ i) ⊎ (thread_at i (with_thread j u all) ≡ some t)
unfolding thread_at with_thread
with_thread-thread_at j i u t [] e = cc
with_thread-thread_at zero zero u t (v ∷ vs) e = inl refl
with_thread-thread_at zero (suc i) u t (v ∷ vs) e = inr e
with_thread-thread_at (suc j) zero u t (v ∷ vs) e = inr e
with_thread-thread_at (suc j) (suc i) u t (v ∷ vs) e = elim (with_thread-thread_at j i u t vs e) [
  | inl same ↦ inl (ap suc same)
  | inr kept ↦ inr kept
]

-- The mutexes that a thread holds after a sequence of acts.
abbrev held_after : List Act → List Lock → List Lock
held_after [] held = held
held_after (acquire m ∷ acts) held = held_after acts (m ∷ held)
held_after (release m ∷ acts) held = held_after acts (without m held)

-- The thread has still to lock the mutex, and will hold it already when it comes to that.
pub record Doomed (m : Lock) (rest : List Act) (t : Thread) : Type 0 where
  pub before : List Act
  pub comes_to : t.todo ≡ before ++ acquire m ∷ rest
  pub holds_it : holds m (held_after before t.held) ≡ true

acquire-waits :
    (m : Lock) (held : List Lock) (rest : List Act) (i : ℕ) (t : Thread) (all : List Thread)
    → thread_at i all ≡ some t
    → t.held ≡ held
    → holds m held ≡ true
    → act all held (acquire m ∷ rest) ≡ none
unfolding act
acquire-waits m held rest i t all at same h = rw (holds-is_free m i t all at (rw same h)) refl

-- The thread's own next act leaves it doomed.
act-Doomed :
    (before : List Act) (m : Lock) (rest : List Act) (i : ℕ) (t u : Thread) (all : List Thread)
    → thread_at i all ≡ some t
    → t.todo ≡ before ++ acquire m ∷ rest
    → holds m (held_after before t.held) ≡ true
    → act all t.held t.todo ≡ some u
    → Doomed m rest u
unfolding act
act-Doomed [] m rest i t u all at e h moves =
    let waits = acquire-waits m t.held rest i t all at refl h in
    absurd (ground (arith, e, waits, moves))
act-Doomed (acquire x ∷ before) m rest i t u all at e h moves =
    let acts : act all t.held (acquire x ∷ before ++ acquire m ∷ rest) ≡ some u =
      ap (act all t.held) (sym e) ∙ moves in
    elim (Bool-cases (is_free x all)) [
      | inl free ↦
          let ends : record { held = x ∷ t.held; todo = before ++ acquire m ∷ rest } ≡ u =
            some-injective _ u (rw free at acts) in
          subst (Doomed m rest) ends (record { before = before; comes_to = refl; holds_it = h })
      | inr taken ↦ absurd (ground (arith, taken, acts))
    ]
act-Doomed (release x ∷ before) m rest i t u all at e h moves =
    let acts : act all t.held (release x ∷ before ++ acquire m ∷ rest) ≡ some u =
      ap (act all t.held) (sym e) ∙ moves in
    subst (Doomed m rest) (some-injective _ u acts)
      (record { before = before; comes_to = refl; holds_it = h })

-- The thread with the number `i` is doomed.
abbrev pub DoomedAt : Lock → List Act → ℕ → List Thread → Type 0
DoomedAt m rest i all = (t : Thread) × (thread_at i all ≡ some t) × Doomed m rest t

with_thread-here :
    (i : ℕ) (u t : Thread) (all : List Thread)
    → thread_at i all ≡ some t
    → thread_at i (with_thread i u all) ≡ some u
unfolding thread_at with_thread
with_thread-here i u t [] e = cc
with_thread-here zero u t (v ∷ vs) e = refl
with_thread-here (suc i) u t (v ∷ vs) e = with_thread-here i u t vs e

turn-DoomedAt :
    (j : ℕ) (m : Lock) (rest : List Act) (i : ℕ) (all all' : List Thread)
    → DoomedAt m rest i all
    → turn j all ≡ some all'
    → DoomedAt m rest i all'
unfolding turn
turn-DoomedAt j m rest i all all' (t, at, d) e = elim (Option-cases (thread_at j all)) [
  | inl missing ↦ absurd (ground (arith, e, missing))
  | inr (v, there) ↦ elim (Option-cases (act all v.held v.todo)) [
    | inl stays ↦ absurd (ground (arith, e, there, stays))
    | inr (u, acts) ↦
        let moves : with_thread j u all ≡ all' =
          some-injective (with_thread j u all) all' (ground (arith, e, there, acts)) in
        elim (with_thread-thread_at j i u t all at) [
          | inr kept ↦ (t, subst (λ x. thread_at i x ≡ some t) moves kept, d)
          | inl same ↦
              let here : v ≡ t =
                some-injective v t (sym there ∙ ap (λ k. thread_at k all) same ∙ at) in
              let own : act all t.held t.todo ≡ some u =
                ap (λ (x : Thread). act all x.held x.todo) (sym here) ∙ acts in
              let put : thread_at i (with_thread j u all) ≡ some u =
                ap (λ k. thread_at i (with_thread k u all)) same ∙ with_thread-here i u t all at in
              (
                u,
                subst (λ x. thread_at i x ≡ some u) moves put,
                act-Doomed d.before m rest i t u all at d.comes_to d.holds_it own,
              )
        ]
  ]
]

pub turns-DoomedAt :
    (is : List ℕ) (m : Lock) (rest : List Act) (i : ℕ) (all all' : List Thread)
    → DoomedAt m rest i all
    → turns is all ≡ some all'
    → DoomedAt m rest i all'
unfolding turns
turns-DoomedAt [] m rest i all all' d e = subst (DoomedAt m rest i) (some-injective all all' e) d
turns-DoomedAt (j ∷ is) m rest i all all' d e = elim (Option-cases (turn j all)) [
  | inl stuck ↦ absurd (ground (arith, e, stuck))
  | inr (mid, step) ↦
      turns-DoomedAt is m rest i mid all' (turn-DoomedAt j m rest i all mid d step)
        (ground (arith, e, step))
]

-- A function of the application that calls a handler function, or PushSDK::Destroy, first.
abbrev pub app_acts : List Act → List Act
app_acts acts = acts

module _ (w : World) (s : PushSdk) (logged : is_some s.user ≡ true) (more after : List Act)
    (others : List (List Act)) where
  -- The client's thread before a round in which it hands a message for the user to the functions of
  -- the application, of which the first one starts with `first`.
  abbrev pub receiver : Bool → List Act → Thread
  receiver sends first = record {
    held = [];
    todo =
        client_locks w app_acts [] (handles sends (user_message ((first ++ more) ∷ others))) s
        ++ after;
  }

  up_to : Bool → List Act
  up_to sends =
      acquire stream ∷ (if sends then locked msg_queue [] else [])
      ++ locked user []
      ++ acquire hdls ∷ []

  handler-Doomed :
      (sends : Bool) → (rest : List Act) × Doomed hdls rest (receiver sends handler_locks)
  unfolding locked holds without up_to
  handler-Doomed true =
      rw logged (_, record { before = up_to true; comes_to = refl; holds_it = refl })
  handler-Doomed false =
      rw logged (_, record { before = up_to false; comes_to = refl; holds_it = refl })

  until_stream : Bool → List Act
  until_stream sends = up_to sends ++ locked event_cb [] ++ locked cb_map []

  destroy-Doomed :
      (sends : Bool) → (rest : List Act) × Doomed stream rest (receiver sends destroy_locks)
  unfolding locked holds without up_to until_stream
  destroy-Doomed true =
      rw logged (_, record { before = until_stream true; comes_to = refl; holds_it = refl })
  destroy-Doomed false =
      rw logged (_, record { before = until_stream false; comes_to = refl; holds_it = refl })

  -- The client's thread, while a user is logged in, in a round in which it hands a message for the user to
  -- functions of which the first one calls CreateHandler, DestroyHandler or a function that adds a
  -- callback, or PushSDK::Destroy, never ends the round: after any turns of it and of any other threads it
  -- has still to lock hdls_mux_, or stream_mux_ for PushSDK::Destroy, and holds that mutex when it comes
  -- to it.
  pub callback-stuck :
      (sends : Bool) (i : ℕ) (is : List ℕ) (first : List Act) (m : Lock) (all all' : List Thread)
      → ((first ≡ handler_locks) × (m ≡ hdls)) ⊎ ((first ≡ destroy_locks) × (m ≡ stream))
      → thread_at i all ≡ some (receiver sends first)
      → turns is all ≡ some all'
      → (rest : List Act) × DoomedAt m rest i all'
  callback-stuck sends i is first m all all' (inl (f, l)) at e =
      let (rest, d) = handler-Doomed sends in
      (rest, turns-DoomedAt is m rest i all all' (receiver sends first, at, rw (f, l) d) e)
  callback-stuck sends i is first m all all' (inr (f, l)) at e =
      let (rest, d) = destroy-Doomed sends in
      (rest, turns-DoomedAt is m rest i all all' (receiver sends first, at, rw (f, l) d) e)
