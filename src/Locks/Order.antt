-- ===== src/Locks/Order.antt =====
-- Sequences that lock upwards only, and how they are put together.
use grpc_push_sdk.Common.{
  ℕ, suc, ◌≤◌, ◌<◌, ◌≡◌, refl, List, [], ◌∷◌, ◌++◌, append_assoc, append-nil, subst, sym, All,
  arith, Bool, true, false, if◌then◌else◌,
}
use grpc_push_sdk.Locks.{Lock, rank, Act, acquire, release, locked}

abbrev pub Below : ℕ → List Lock → Type 0
Below r held = All (λ h. rank h < r) held

-- From what is held on, each lock is above all that are held then, each unlock is of the latest lock,
-- and nothing is held at the end.
abbrev pub Ordered : List Lock → List Act → Type 0
Ordered held [] = held ≡ []
Ordered held (acquire m ∷ rest) = Below (rank m) held × Ordered (m ∷ held) rest
Ordered [] (release m ∷ rest) = ⊥
Ordered (h ∷ held) (release m ∷ rest) = (h ≡ m) × Ordered held rest

-- A sequence that may stand wherever only locks below `r` are held.
pub record Runs (r : ℕ) (body : List Act) : Type 0 where
  pub placed :
      (held : List Lock) (rest : List Act)
      → Below r held
      → Ordered held rest
      → Ordered held (body ++ rest)

pub Below-weaken : (r r' : ℕ) (held : List Lock) → r ≤ r' → Below r held → Below r' held
Below-weaken r r' [] le b = tt
Below-weaken r r' (h ∷ held) le b = (omega (arith, b.0), Below-weaken r r' held le b.1)

pub Runs-weaken : {r r' : ℕ} {body : List Act} → r' ≤ r → Runs r body → Runs r' body
Runs-weaken {r} {r'} le h = record {
  placed = λ held rest b. h.placed held rest (Below-weaken r' r held le b);
}

pub Runs-nil : {r : ℕ} → Runs r []
Runs-nil = record { placed = λ held rest b o. o }

pub Runs-append : {r : ℕ} {xs ys : List Act} → Runs r xs → Runs r ys → Runs r (xs ++ ys)
Runs-append {xs} {ys} h k = record {
  placed = λ held rest b o.
      subst (Ordered held) (sym (append_assoc xs ys rest))
        (h.placed held (ys ++ rest) b (k.placed held rest b o));
}

pub Runs-if :
    {r : ℕ} (b : Bool) {xs ys : List Act} → Runs r xs → Runs r ys → Runs r (if b then xs else ys)
Runs-if true h k = h
Runs-if false h k = k

-- A critical section whose body locks above its mutex.
pub Runs-locked :
    {r : ℕ} (m : Lock) {body : List Act}
    → r ≤ rank m
    → Runs (suc (rank m)) body
    → Runs r (locked m body)
unfolding locked
Runs-locked {r} m {body} le h = record {
  placed = λ held rest b o. (
    Below-weaken r (rank m) held le b,
    subst (Ordered (m ∷ held)) (sym (append_assoc body (release m ∷ []) rest)) (
        h.placed (m ∷ held) (release m ∷ rest)
          (omega arith, Below-weaken r (suc (rank m)) held (omega arith) b) (refl, o)),
  );
}

-- What a thread that holds nothing runs, in order.
pub Runs-Ordered : {body : List Act} → Runs 0 body → Ordered [] body
Runs-Ordered {body} h = subst (Ordered []) (append-nil body) (h.placed [] [] tt refl)
