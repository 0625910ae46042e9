-- ===== src/Singleton/Invariant.antt =====
-- How far the first call of Instance is, and what the members and all calls look like then.
use grpc_push_sdk.Common.{
  ℕ, ◌≡◌, refl, Bool, true, false, Option, none, some, ◌==◌, update, inl, inr, Bool-cases, arith,
  sym, ap, ◌∙◌, subst, ◌≢◌, ==_iff, ==_refl,
}
use grpc_push_sdk.Singleton.{
  Shared, Pc, enters, constructs, assigns, clears, spins, reads, returned, thrown, Calls,
  fresh_members, no_calls,
}

-- No call yet; the call `o` constructs, assigns or clears; the object is there; the constructor threw.
pub data Phase {ℓ} (A : Type ℓ) : Type ℓ where
  untouched : Phase A
  building : ℕ → Phase A
  built published : ℕ → A → Phase A
  ready : A → Phase A
  failed : Phase A

abbrev pub members {ℓ} : {A : Type ℓ} → Phase A → Shared A
members untouched = fresh_members
members (building o) = record { instantiated = true; initializing = true; instance_ptr = none }
members (built o a) = record { instantiated = true; initializing = true; instance_ptr = none }
members (published o a) = record { instantiated = true; initializing = true; instance_ptr = some a }
members (ready a) = record { instantiated = true; initializing = false; instance_ptr = some a }
members failed = record { instantiated = true; initializing = true; instance_ptr = none }

abbrev pub is_started {ℓ} : {A : Type ℓ} → Phase A → Bool
is_started untouched = false
is_started ph = true

-- Is it a place of the call that constructs?
abbrev pub constructing {ℓ} : {A : Type ℓ} → Pc A → Bool
constructing constructs = true
constructing (assigns a) = true
constructing clears = true
constructing p = false

-- Where the call `j` may be: the three first are those of the call that constructs.
pub data Fits {ℓ} {A : Type ℓ} : Phase A → ℕ → Pc A → Type ℓ where
  at_new : {o : ℕ} → Fits (building o) o constructs
  at_pointer : {o : ℕ} {a : A} → Fits (built o a) o (assigns a)
  at_flag : {o : ℕ} {a : A} → Fits (published o a) o clears
  at_entry : {ph : Phase A} {j : ℕ} → Fits ph j enters
  in_loop : {ph : Phase A} {j : ℕ} → is_started ph ≡ true → Fits ph j spins
  past_loop : {a : A} {j : ℕ} → Fits (ready a) j reads
  with_object : {a : A} {j : ℕ} → Fits (ready a) j (returned (some a))
  with_exception : {j : ℕ} → Fits failed j thrown

-- The call that constructs is there.
pub data Owned {ℓ} {A : Type ℓ} : Phase A → (ℕ → Pc A) → Type ℓ where
  builds : {o : ℕ} {pc : ℕ → Pc A} → pc o ≡ constructs → Owned (building o) pc
  stores : {o : ℕ} {a : A} {pc : ℕ → Pc A} → pc o ≡ assigns a → Owned (built o a) pc
  opens : {o : ℕ} {a : A} {pc : ℕ → Pc A} → pc o ≡ clears → Owned (published o a) pc
  unowned : {pc : ℕ → Pc A} → Owned untouched pc
  done : {a : A} {pc : ℕ → Pc A} → Owned (ready a) pc
  lost : {pc : ℕ → Pc A} → Owned failed pc

pub record Inv {ℓ} {A : Type ℓ} (ph : Phase A) (s : Calls A) : Type ℓ where
  pub shared_ok : s.shared ≡ members ph
  pub calls_ok : (j : ℕ) → Fits ph j (s.pc j)
  pub owned : Owned ph s.pc

-- What a turn of the call `i` at a place makes of the phase.
pub data Next {ℓ} {A : Type ℓ} : Option A → ℕ → Phase A → Pc A → Phase A → Type ℓ where
  starts : {made : Option A} {i : ℕ} → Next made i untouched enters (building i)
  throws : {o : ℕ} → Next none o (building o) constructs failed
  makes : {o : ℕ} {a : A} → Next (some a) o (building o) constructs (built o a)
  assigned : {made : Option A} {o : ℕ} {a : A} → Next made o (built o a) (assigns a) (published o a)
  cleared : {made : Option A} {o : ℕ} {a : A} → Next made o (published o a) clears (ready a)
  stays :
      {made : Option A} {i : ℕ} {ph : Phase A} {p : Pc A}
      → is_started ph ≡ true
      → constructing p ≡ false
      → Next made i ph p ph

module _ {ℓ} {A : Type ℓ} where
  pub no_calls-Inv : Inv {A = A} untouched no_calls
  no_calls-Inv = record { shared_ok = refl; calls_ok = λ j. at_entry; owned = unowned }

  pub update-same : (f : ℕ → Pc A) (i : ℕ) (p : Pc A) → update f i p i ≡ p
  update-same f i p = rw (==_refl i) refl

  pub update-Fits :
      (ph : Phase A) (f : ℕ → Pc A) (i : ℕ) (p : Pc A)
      → Fits ph i p
      → ((j : ℕ) → j ≢ i → Fits ph j (f j))
      → (j : ℕ) → Fits ph j (update f i p j)
  update-Fits ph f i p here there j = elim (Bool-cases (j == i)) [
    | inl same ↦ rw same (subst (λ k. Fits ph k p) (sym ((==_iff j i).0 same)) here)
    | inr other ↦ rw other (there j (λ e. ground (arith, e, other)))
  ]

  update-other :
      (f : ℕ → Pc A) (i o : ℕ) (p q : Pc A)
      → constructing (f i) ≡ false
      → constructing q ≡ true
      → f o ≡ q
      → update f i p o ≡ q
  update-other f i o p q h k e = elim (Bool-cases (o == i)) [
    | inl same ↦
        let at_i : f i ≡ q = ap f (sym ((==_iff o i).0 same)) ∙ e in
        let both : constructing (f i) ≡ constructing q = ap constructing at_i in cc
    | inr other ↦ rw other e
  ]

  pub update-Owned :
      (ph : Phase A) (f : ℕ → Pc A) (i : ℕ) (p : Pc A)
      → constructing (f i) ≡ false
      → Owned ph f
      → Owned ph (update f i p)
  update-Owned ph f i p h (builds {o} e) = builds (update-other f i o p constructs h refl e)
  update-Owned ph f i p h (stores {o} {a} e) = stores (update-other f i o p (assigns a) h refl e)
  update-Owned ph f i p h (opens {o} e) = opens (update-other f i o p clears h refl e)
  update-Owned ph f i p h unowned = unowned
  update-Owned ph f i p h done = done
  update-Owned ph f i p h lost = lost

  -- The calls that do not construct stay where they may be when the phase moves on.
  pub started-Fits : {j o : ℕ} {p : Pc A} → Fits untouched j p → Fits (building o) j p
  started-Fits at_entry = at_entry
  started-Fits (in_loop h) = cc

  pub thrown-Fits : {j o : ℕ} {p : Pc A} → j ≢ o → Fits (building o) j p → Fits failed j p
  thrown-Fits ne at_new = absurd (ne refl)
  thrown-Fits ne at_entry = at_entry
  thrown-Fits ne (in_loop h) = in_loop refl

  pub built-Fits :
      {j o : ℕ} {a : A} {p : Pc A} → j ≢ o → Fits (building o) j p → Fits (built o a) j p
  built-Fits ne at_new = absurd (ne refl)
  built-Fits ne at_entry = at_entry
  built-Fits ne (in_loop h) = in_loop refl

  pub published-Fits :
      {j o : ℕ} {a : A} {p : Pc A} → j ≢ o → Fits (built o a) j p → Fits (published o a) j p
  published-Fits ne at_pointer = absurd (ne refl)
  published-Fits ne at_entry = at_entry
  published-Fits ne (in_loop h) = in_loop refl

  pub ready-Fits :
      {j o : ℕ} {a : A} {p : Pc A} → j ≢ o → Fits (published o a) j p → Fits (ready a) j p
  ready-Fits ne at_flag = absurd (ne refl)
  ready-Fits ne at_entry = at_entry
  ready-Fits ne (in_loop h) = in_loop refl
