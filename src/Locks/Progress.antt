-- ===== src/Locks/Progress.antt =====
-- Threads whose sequences lock upwards, under any schedule.
use grpc_push_sdk.Common.{
  ℕ, zero, suc, ◌+◌, ◌≤◌, ◌<◌, ◌≡◌, refl, true, false, List, [], ◌∷◌, some, subst, All, arith,
  Bool-cases, inl, inr, ◌⊎◌,
}
use grpc_push_sdk.Locks.{
  Lock, rank, Act, acquire, release, Thread, holds, is_free, without, act, thread_at, with_thread,
  turn,
}
use grpc_push_sdk.Locks.Order.{Below, Ordered, Below-weaken}

abbrev pub AllOrdered : List Thread → Type 0
AllOrdered all = All (λ t. Ordered t.held t.todo) all

holds-lt : (m : Lock) (k : ℕ) (held : List Lock) → Below k held → holds m held ≡ true → rank m < k
unfolding holds
holds-lt m k [] b h = cc
holds-lt m k (x ∷ held) b h = ground (arith, holds-lt m k held b.1)

find_holder :
    (m : Lock) (all : List Thread)
    → is_free m all ≡ false
    → (i : ℕ) × (t : Thread) × (thread_at i all ≡ some t) × (holds m t.held ≡ true)
unfolding is_free thread_at
find_holder m [] h = cc
find_holder m (t ∷ ts) h = elim (Bool-cases (holds m t.held)) [
  | inl here ↦ (0, t, refl, here)
  | inr there ↦ let (i, u, e, k) = find_holder m ts (ground arith) in (suc i, u, e, k)
]

pub All-thread_at {ℓ} :
    (P : Thread → Type ℓ) (i : ℕ) (t : Thread) (all : List Thread)
    → All P all
    → thread_at i all ≡ some t
    → P t
unfolding thread_at
All-thread_at P i t [] h e = cc
All-thread_at P zero t (u ∷ us) h e = subst P (ground arith) h.0
All-thread_at P (suc i) t (u ∷ us) h e = All-thread_at P i t us h.1 e

-- A thread that holds a lock can go on, or waits for a higher one.
holder-acts :
    (all : List Thread) (m : Lock) (held : List Lock) (todo : List Act)
    → Ordered held todo
    → holds m held ≡ true
    → ((u : Thread) × (act all held todo ≡ some u))
      ⊎ ((m' : Lock) × (rank m < rank m') × (is_free m' all ≡ false))
unfolding act holds
holder-acts all m held [] o h = cc
holder-acts all m held (release n ∷ rest) o h =
    inl (record { held = without n held; todo = rest }, refl)
holder-acts all m held (acquire n ∷ rest) o h = elim (Bool-cases (is_free n all)) [
  | inl free ↦ inl (record { held = n ∷ held; todo = rest }, rw free refl)
  | inr taken ↦ inr (n, holds-lt m (rank n) held o.0 h, taken)
]

turn-act :
    (i : ℕ) (t u : Thread) (all : List Thread)
    → thread_at i all ≡ some t
    → act all t.held t.todo ≡ some u
    → turn i all ≡ some (with_thread i u all)
unfolding turn
turn-act i t u all e f = ground (arith, e, f)

All-Below-weaken :
    (k k' : ℕ) (all : List Thread)
    → k ≤ k'
    → All (λ t. Below k t.held) all
    → All (λ t. Below k' t.held) all
All-Below-weaken k k' [] le b = tt
All-Below-weaken k k' (t ∷ ts) le b =
    (Below-weaken k k' t.held le b.0, All-Below-weaken k k' ts le b.1)

-- A bound of the locks that are held.
height : List Lock → ℕ
height [] = 0
height (h ∷ hs) = suc (rank h) + height hs

bound : List Thread → ℕ
bound [] = 0
bound (t ∷ ts) = height t.held + bound ts

height-Below : (held : List Lock) → Below (height held) held
unfolding height
height-Below [] = tt
height-Below (h ∷ hs) = (
  omega arith,
  Below-weaken (height hs) (suc (rank h) + height hs) hs (omega arith) (height-Below hs),
)

bound-Below : (all : List Thread) → All (λ t. Below (bound all) t.held) all
unfolding bound
bound-Below [] = tt
bound-Below (t ∷ ts) = (
  Below-weaken (height t.held) (height t.held + bound ts) t.held (omega arith)
      (height-Below t.held),
  All-Below-weaken (bound ts) (height t.held + bound ts) ts (omega arith) (bound-Below ts),
)

-- Where a lock is taken, some thread can go on: its holder, or the end of a chain of waits that climbs
-- to the highest lock that is held.
climb :
    (k : ℕ) (all : List Thread) (m : Lock)
    → AllOrdered all
    → All (λ t. Below (rank m + k) t.held) all
    → is_free m all ≡ false
    → (i : ℕ) × (all' : List Thread) × (turn i all ≡ some all')
climb zero all m o b taken =
    let (i, t, e, held) = find_holder m all taken in
    absurd (
      omega (
        arith,
        holds-lt m (rank m + 0) t.held (All-thread_at (λ u. Below (rank m + 0) u.held) i t all b e)
            held,
      ))
climb (suc k) all m o b taken =
    let (i, t, e, held) = find_holder m all taken in
    let ordered = All-thread_at (λ u. Ordered u.held u.todo) i t all o e in
    elim (holder-acts all m t.held t.todo ordered held) [
      | inl (u, acts) ↦ (i, with_thread i u all, turn-act i t u all e acts)
      | inr (m', higher, taken') ↦
          climb k all m' o (All-Below-weaken (rank m + suc k) (rank m' + k) all (omega arith) b)
            taken'
    ]

-- A thread that is not done can go on, or another can.
pub progress :
    (all : List Thread) (i : ℕ) (t : Thread) (a : Act) (rest : List Act)
    → AllOrdered all
    → thread_at i all ≡ some t
    → t.todo ≡ a ∷ rest
    → (j : ℕ) × (all' : List Thread) × (turn j all ≡ some all')
unfolding act
progress all i t (release m) rest o e f = (
  i,
  with_thread i (record { held = without m t.held; todo = rest }) all,
  turn-act i t (record { held = without m t.held; todo = rest }) all e (ground (arith, f)),
)
progress all i t (acquire m) rest o e f = elim (Bool-cases (is_free m all)) [
  | inl free ↦ (
    i,
    with_thread i (record { held = m ∷ t.held; todo = rest }) all,
    turn-act i t (record { held = m ∷ t.held; todo = rest }) all e (ground (arith, f, free)),
  )
  | inr taken ↦
      climb (bound all) all m o
        (All-Below-weaken (bound all) (rank m + bound all) all (omega arith) (bound-Below all))
        taken
]
