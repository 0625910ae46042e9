-- ===== src/Locks/Finish.antt =====
-- Every schedule can be continued until all threads have come to their end.
use grpc_push_sdk.Common.{
  ℕ, zero, suc, ◌+◌, ◌≤◌, ◌≡◌, refl, true, List, [], ◌∷◌, some, ◌==◌, ap, subst, All, arith,
  Bool-cases, Option-cases, inl, inr, ◌⊎◌, length,
}
use grpc_push_sdk.Locks.{
  Lock, rank, Act, acquire, release, Thread, is_free, without, act, thread_at, with_thread, turn,
  turns,
}
use mathlib.Core.Option.{some-injective}
use grpc_push_sdk.Locks.Order.{Ordered}
use grpc_push_sdk.Locks.Progress.{AllOrdered, All-thread_at, progress}

act-Ordered :
    (all : List Thread) (held : List Lock) (todo : List Act) (u : Thread)
    → Ordered held todo
    → act all held todo ≡ some u
    → Ordered u.held u.todo × (suc (length u.todo) ≡ length todo)
unfolding act without
act-Ordered all held [] u o e = cc
act-Ordered all held (acquire m ∷ rest) u o e = elim (Bool-cases (is_free m all)) [
  | inl free ↦
      let v : Thread = record { held = m ∷ held; todo = rest } in
      let same : v ≡ u = some-injective v u (ground (arith, e, free)) in
      subst (λ (x : Thread). Ordered x.held x.todo × (suc (length x.todo) ≡ suc (length rest))) same
        (o.1, refl)
  | inr taken ↦ ground (arith, e, taken)
]
act-Ordered all [] (release m ∷ rest) u o e = absurd o
act-Ordered all (h ∷ held) (release m ∷ rest) u o e =
    let v : Thread = record { held = held; todo = rest } in
    let latest : (rank m == rank h) ≡ true = ground (arith, ap rank o.0) in
    let same : v ≡ u = some-injective v u (ground (arith, e, latest)) in
    subst (λ (x : Thread). Ordered x.held x.todo × (suc (length x.todo) ≡ suc (length rest))) same
      (o.1, refl)

-- All that is still to do.
size : List Thread → ℕ
size [] = 0
size (t ∷ ts) = length t.todo + size ts

with_thread-AllOrdered :
    (i : ℕ) (t u : Thread) (all : List Thread)
    → AllOrdered all
    → thread_at i all ≡ some t
    → Ordered u.held u.todo × (suc (length u.todo) ≡ length t.todo)
    → AllOrdered (with_thread i u all) × (suc (size (with_thread i u all)) ≡ size all)
unfolding with_thread thread_at size
with_thread-AllOrdered i t u [] o e h = cc
with_thread-AllOrdered zero t u (v ∷ vs) o e h =
    let same : v ≡ t = some-injective v t e in
    ((h.0, o.1), omega (arith, ap (λ (x : Thread). length x.todo) same, h.1))
with_thread-AllOrdered (suc i) t u (v ∷ vs) o e h =
    let (kept, less) = with_thread-AllOrdered i t u vs o.1 e h in ((o.0, kept), omega (arith, less))

-- A turn keeps the order, and leaves less to do.
turn-AllOrdered :
    (i : ℕ) (all all' : List Thread)
    → AllOrdered all
    → turn i all ≡ some all'
    → AllOrdered all' × (suc (size all') ≡ size all)
unfolding turn
turn-AllOrdered i all all' o e = elim (Option-cases (thread_at i all)) [
  | inl missing ↦ ground (arith, e, missing)
  | inr (t, at) ↦ elim (Option-cases (act all t.held t.todo)) [
    | inl waits ↦ ground (arith, e, at, waits)
    | inr (u, acts) ↦
        let ordered = All-thread_at (λ x. Ordered x.held x.todo) i t all o at in
        subst (λ x. AllOrdered x × (suc (size x) ≡ size all))
          (some-injective (with_thread i u all) all' (ground (arith, e, at, acts)))
          (with_thread-AllOrdered i t u all o at (act-Ordered all t.held t.todo u ordered acts))
  ]
]

abbrev pub AllDone : List Thread → Type 0
AllDone all = All (λ t. (t.held ≡ []) × (t.todo ≡ [])) all

undone_or_done :
    (held : List Lock) (todo : List Act)
    → Ordered held todo
    → ((held ≡ []) × (todo ≡ [])) ⊎ ((a : Act) × (rest : List Act) × (todo ≡ a ∷ rest))
undone_or_done held [] o = inl (o, refl)
undone_or_done held (a ∷ rest) o = inr (a, rest, refl)

find_undone :
    (all : List Thread)
    → AllOrdered all
    → AllDone all
      ⊎ ((i : ℕ) × (t : Thread) × (a : Act) × (rest : List Act) × (thread_at i all ≡ some t)
          × (t.todo ≡ a ∷ rest))
unfolding thread_at
find_undone [] o = inl tt
find_undone (t ∷ ts) o = elim (undone_or_done t.held t.todo o.0) [
  | inr (a, rest, e) ↦ inr (0, t, a, rest, refl, e)
  | inl here ↦ elim (find_undone ts o.1) [
    | inl there ↦ inl (here, there)
    | inr (i, u, a, rest, e, f) ↦ inr (suc i, u, a, rest, e, f)
  ]
]

turns-cons :
    (j : ℕ) (is : List ℕ) (all mid all' : List Thread)
    → turn j all ≡ some mid
    → turns is mid ≡ some all'
    → turns (j ∷ is) all ≡ some all'
unfolding turns
turns-cons j is all mid all' step ran = ground (arith, step, ran)

finish :
    (n : ℕ) (all : List Thread)
    → size all ≤ n
    → AllOrdered all
    → (is : List ℕ) × (all' : List Thread) × (turns is all ≡ some all') × AllDone all'
unfolding turns
finish zero all le o = elim (find_undone all o) [
  | inl done ↦ ([], all, refl, done)
  | inr (i, t, a, rest, e, f) ↦
      let (j, mid, step) = progress all i t a rest o e f in
      absurd (omega (arith, (turn-AllOrdered j all mid o step).1))
]
finish (suc n) all le o = elim (find_undone all o) [
  | inl done ↦ ([], all, refl, done)
  | inr (i, t, a, rest, e, f) ↦
      let (j, mid, step) = progress all i t a rest o e f in
      let (kept, less) = turn-AllOrdered j all mid o step in
      let (is, all', ran, done) = finish n mid (omega (arith, less)) kept in
      (j ∷ is, all', turns-cons j is all mid all' step ran, done)
]

turns-AllOrdered :
    (is : List ℕ) (all all' : List Thread)
    → AllOrdered all
    → turns is all ≡ some all'
    → AllOrdered all'
unfolding turns
turns-AllOrdered [] all all' o e = subst AllOrdered (some-injective all all' e) o
turns-AllOrdered (i ∷ is) all all' o e = elim (Option-cases (turn i all)) [
  | inl stuck ↦ ground (arith, e, stuck)
  | inr (mid, step) ↦
      turns-AllOrdered is mid all' (turn-AllOrdered i all mid o step).0 (ground (arith, e, step))
]

-- From threads that lock upwards, whatever was run so far, a schedule leads to the end of all of them.
pub turns-finish :
    (is : List ℕ) (all mid : List Thread)
    → AllOrdered all
    → turns is all ≡ some mid
    → (js : List ℕ) × (all' : List Thread) × (turns js mid ≡ some all') × AllDone all'
unfolding size
turns-finish is all mid o e = finish (size mid) mid (omega arith) (turns-AllOrdered is all mid o e)
