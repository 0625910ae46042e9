-- ===== src/Singleton/Once.antt =====
-- What all calls of Instance get.
use grpc_push_sdk.Common.{
  ℕ, ◌≡◌, refl, Bool, true, false, List, [], ◌∷◌, Option, some, arith, sym, ap, ◌∙◌, subst, ◌+◌,
  ◌≤◌, ◌≢◌, is_some,
}
use grpc_push_sdk.Singleton.{
  Pc, enters, constructs, assigns, clears, spins, reads, returned, thrown, Calls, no_calls, turn,
  turns, constructs_now, constructions,
}
use grpc_push_sdk.Singleton.Invariant.{
  Phase, untouched, building, ready, failed, constructing, Fits, with_object, with_exception, Inv,
  Next, starts, throws, makes, assigned, cleared, stays, no_calls-Inv,
}
use grpc_push_sdk.Singleton.Turns.{turn-Inv, turns-Inv}

module _ {ℓ} {A : Type ℓ} where
  -- How many constructions may still come.
  abbrev left : Phase A → ℕ
  left untouched = 1
  left (building o) = 1
  left ph = 0

  constructing-constructs_now : (p : Pc A) → constructing p ≡ false → constructs_now p ≡ 0
  constructing-constructs_now constructs h = cc
  constructing-constructs_now enters h = refl
  constructing-constructs_now (assigns a) h = refl
  constructing-constructs_now clears h = refl
  constructing-constructs_now spins h = refl
  constructing-constructs_now reads h = refl
  constructing-constructs_now (returned p) h = refl
  constructing-constructs_now thrown h = refl

  Next-left :
      {made : Option A} {i : ℕ} {ph ph' : Phase A} {p : Pc A}
      → Next made i ph p ph'
      → constructs_now p + left ph' ≤ left ph
  Next-left starts = omega arith
  Next-left throws = omega arith
  Next-left makes = omega arith
  Next-left assigned = omega arith
  Next-left cleared = omega arith
  Next-left (stays {p} begun waits) = omega (arith, constructing-constructs_now p waits)

  constructions-le :
      (ts : List (ℕ × Option A)) (s : Calls A) (ph : Phase A)
      → Inv ph s
      → constructions ts s ≤ left ph
  unfolding constructions
  constructions-le [] s ph h = omega arith
  constructions-le ((i, made) ∷ ts) s ph h =
      let (ph', next, kept) = turn-Inv made i s ph h in
      omega (arith, Next-left next, constructions-le ts (turn i made s) ph' kept)

  returned-ready :
      {ph : Phase A} {i : ℕ} {p : Option A}
      → Fits ph i (returned p)
      → (a : A) × (ph ≡ ready a) × (p ≡ some a)
  returned-ready (with_object {a}) = (a, refl, refl)

  ready-injective : {a b : A} → Path (Phase A) (ready a) (ready b) → a ≡ b
  ready-injective {a} e = ap (λ ph. elim ph [ ready x ↦ x | _ ↦ a ]) e

  -- Whatever the order of the turns of all calls, and whether or not a constructor throws: two calls that
  -- have returned have the same pointer, which is not null, and the constructor was run at most once.
  pub one_object :
      (ts : List (ℕ × Option A)) (i j : ℕ) (p q : Option A)
      → (turns ts no_calls).pc i ≡ returned p
      → (turns ts no_calls).pc j ≡ returned q
      → (p ≡ q) × (is_some p ≡ true) × (constructions ts (no_calls {A = A}) ≤ 1)
  one_object ts i j p q at_i at_j =
      let (ph, kept) = turns-Inv ts no_calls untouched no_calls-Inv in
      let (a, e, f) = returned-ready (subst (Fits ph i) at_i (kept.calls_ok i)) in
      let (b, g, h) = returned-ready (subst (Fits ph j) at_j (kept.calls_ok j)) in
      (
        f ∙ ap some (ready-injective (sym e ∙ g)) ∙ sym h,
        rw f refl,
        constructions-le ts no_calls untouched no_calls-Inv,
      )

  abbrev pub is_failed : Phase A → Bool
  is_failed failed = true
  is_failed ph = false

  thrown-is_failed : {ph : Phase A} {i : ℕ} → Fits ph i thrown → is_failed ph ≡ true
  thrown-is_failed with_exception = refl

  returned-is_failed :
      {ph : Phase A} {i : ℕ} {p : Option A} → Fits ph i (returned p) → is_failed ph ≡ false
  returned-is_failed with_object = refl

  Next-is_failed :
      {made : Option A} {i : ℕ} {ph ph' : Phase A} {p : Pc A}
      → Next made i ph p ph'
      → is_failed ph ≡ true
      → is_failed ph' ≡ true
  Next-is_failed starts h = cc
  Next-is_failed throws h = refl
  Next-is_failed makes h = cc
  Next-is_failed assigned h = cc
  Next-is_failed cleared h = cc
  Next-is_failed (stays begun waits) h = h

  turns-is_failed :
      (ts : List (ℕ × Option A)) (s : Calls A) (ph : Phase A)
      → Inv ph s
      → is_failed ph ≡ true
      → (ph' : Phase A) × Inv ph' (turns ts s) × (is_failed ph' ≡ true)
  unfolding turns
  turns-is_failed [] s ph h over = (ph, h, over)
  turns-is_failed ((i, made) ∷ ts) s ph h over =
      let (ph', next, kept) = turn-Inv made i s ph h in
      turns-is_failed ts (turn i made s) ph' kept (Next-is_failed next over)

  -- Once the constructor has thrown in one call, no call ever returns, whatever runs then.
  pub thrown-unreturned :
      (ts us : List (ℕ × Option A)) (i j : ℕ) (p : Option A)
      → (turns ts no_calls).pc j ≡ thrown
      → (turns us (turns ts no_calls)).pc i ≢ returned p
  thrown-unreturned ts us i j p at_j at_i =
      let (ph, kept) = turns-Inv ts no_calls untouched no_calls-Inv in
      let over = thrown-is_failed (subst (Fits ph j) at_j (kept.calls_ok j)) in
      let (ph', kept', over') = turns-is_failed us (turns ts no_calls) ph kept over in
      let found = returned-is_failed (subst (Fits ph' i) at_i (kept'.calls_ok i)) in cc
