-- ===== src/Singleton/Returns.antt =====
-- A call of Instance can always be brought to its end, if no constructor throws.
use grpc_push_sdk.Common.{
  ℕ, ◌≡◌, refl, true, false, List, [], ◌∷◌, Option, none, some, ap, All, ◌∙◌, subst, is_some,
}
use grpc_push_sdk.Singleton.{
  Pc, enters, constructs, assigns, clears, spins, reads, returned, Calls, no_calls, advance, turn,
  turns,
}
use grpc_push_sdk.Singleton.Invariant.{
  Phase, untouched, building, built, published, ready, failed, members, Fits, at_entry, in_loop,
  past_loop, with_object, Owned, builds, stores, opens, Inv, Next, starts, throws, makes, assigned,
  cleared, stays, no_calls-Inv, update-same,
}
use grpc_push_sdk.Singleton.Turns.{turn-Inv}
use grpc_push_sdk.Singleton.Once.{is_failed}

module _ {ℓ} {A : Type ℓ} where
  -- Some turns bring the call `i` to its end.
  Returns : Calls A → ℕ → Type ℓ
  Returns s i = (us : List (ℕ × Option A)) × (a : A) × ((turns us s).pc i ≡ returned (some a))

  turn-Returns : (j i : ℕ) (made : Option A) (s : Calls A) → Returns (turn j made s) i → Returns s i
  unfolding Returns turns
  turn-Returns j i made s (us, a, e) = ((j, made) ∷ us, a, e)

  turn-pc :
      (i : ℕ) (made : Option A) (s : Calls A) (ph : Phase A) (p : Pc A)
      → Inv ph s
      → s.pc i ≡ p
      → (turn i made s).pc i ≡ (advance made (members ph) p).1
  unfolding turn
  turn-pc i made s ph p h at =
      update-same s.pc i ((advance made s.shared (s.pc i)).1)
      ∙ ap (λ m. (advance made m (s.pc i)).1) h.shared_ok
      ∙ ap (λ q. (advance made (members ph) q).1) at

  ready-Next :
      {made : Option A} {i : ℕ} {a : A} {p : Pc A} {ph : Phase A} {s : Calls A}
      → Next made i (ready a) p ph
      → Inv ph s
      → Inv (ready a) s
  ready-Next (stays begun waits) h = h

  -- A turn of the call `i` when the object is there.
  ready-turn :
      (i : ℕ) (s : Calls A) (a : A) (p : Pc A)
      → Inv (ready a) s
      → s.pc i ≡ p
      → Inv (ready a) (turn i none s)
        × ((turn i none s).pc i ≡ (advance none (members (ready a)) p).1)
  ready-turn i s a p h at =
      let (ph, next, kept) = turn-Inv none i s (ready a) h in
      (ready-Next next kept, turn-pc i none s (ready a) p h at)

  reads-Returns : (i : ℕ) (s : Calls A) (a : A) → Inv (ready a) s → s.pc i ≡ reads → Returns s i
  unfolding Returns turns advance
  reads-Returns i s a h at =
      let (kept, at') = ready-turn i s a reads h at in ((i, none) ∷ [], a, at')

  spins-Returns : (i : ℕ) (s : Calls A) (a : A) → Inv (ready a) s → s.pc i ≡ spins → Returns s i
  unfolding advance
  spins-Returns i s a h at =
      let (kept, at') = ready-turn i s a spins h at in
      turn-Returns i i none s (reads-Returns i (turn i none s) a kept at')

  enters-Returns : (i : ℕ) (s : Calls A) (a : A) → Inv (ready a) s → s.pc i ≡ enters → Returns s i
  unfolding advance
  enters-Returns i s a h at =
      let (kept, at') = ready-turn i s a enters h at in
      turn-Returns i i none s (spins-Returns i (turn i none s) a kept at')

  place-Returns :
      (i : ℕ) (s : Calls A) (a : A) (p : Pc A)
      → Inv (ready a) s
      → s.pc i ≡ p
      → Fits (ready a) i p
      → Returns s i
  unfolding Returns turns
  place-Returns i s a p h at at_entry = enters-Returns i s a h at
  place-Returns i s a p h at (in_loop begun) = spins-Returns i s a h at
  place-Returns i s a p h at past_loop = reads-Returns i s a h at
  place-Returns i s a p h at with_object = ([], a, at)

  ready-Returns : (i : ℕ) (s : Calls A) (a : A) → Inv (ready a) s → Returns s i
  ready-Returns i s a h = place-Returns i s a (s.pc i) h refl (h.calls_ok i)

  -- The turn of the call that constructs, in each of its places.
  cleared-Inv :
      {made : Option A} {i o : ℕ} {a : A} {ph : Phase A} {s : Calls A}
      → Next made i (published o a) clears ph
      → Inv ph s
      → Inv (ready a) s
  cleared-Inv cleared h = h
  cleared-Inv (stays begun waits) h = cc

  assigned-Inv :
      {made : Option A} {i o : ℕ} {a b : A} {ph : Phase A} {s : Calls A}
      → Next made i (built o a) (assigns b) ph
      → Inv ph s
      → Inv (published o a) s
  assigned-Inv assigned h = h
  assigned-Inv (stays begun waits) h = cc

  makes-Inv :
      {i o : ℕ} {a : A} {ph : Phase A} {s : Calls A}
      → Next (some a) i (building o) constructs ph
      → Inv ph s
      → Inv (built o a) s
  makes-Inv makes h = h
  makes-Inv (stays begun waits) h = cc

  starts-Inv :
      {made : Option A} {i : ℕ} {p : Pc A} {ph : Phase A} {s : Calls A}
      → Next made i untouched p ph
      → Inv ph s
      → Inv (building i) s
  starts-Inv starts h = h
  starts-Inv (stays begun waits) h = cc

  published-Returns :
      (i o : ℕ) (s : Calls A) (a : A)
      → Inv (published o a) s
      → Owned (published o a) s.pc
      → Returns s i
  published-Returns i o s a h (opens at) =
      let (ph, next, kept) = turn-Inv none o s (published o a) h in
      turn-Returns o i none s (
        ready-Returns i (turn o none s) a
          (cleared-Inv (subst (λ p. Next none o (published o a) p ph) at next) kept))

  built-Returns :
      (i o : ℕ) (s : Calls A) (a : A) → Inv (built o a) s → Owned (built o a) s.pc → Returns s i
  built-Returns i o s a h (stores at) =
      let (ph, next, kept) = turn-Inv none o s (built o a) h in
      let moved = assigned-Inv (subst (λ p. Next none o (built o a) p ph) at next) kept in
      turn-Returns o i none s (published-Returns i o (turn o none s) a moved moved.owned)

  building-Returns :
      (i o : ℕ) (s : Calls A) (a : A) → Inv (building o) s → Owned (building o) s.pc → Returns s i
  building-Returns i o s a h (builds at) =
      let (ph, next, kept) = turn-Inv (some a) o s (building o) h in
      let moved = makes-Inv (subst (λ p. Next (some a) o (building o) p ph) at next) kept in
      turn-Returns o i (some a) s (built-Returns i o (turn o (some a) s) a moved moved.owned)

  phase-Returns :
      (i : ℕ) (s : Calls A) (ph : Phase A) (a : A) → Inv ph s → is_failed ph ≡ false → Returns s i
  phase-Returns i s untouched a h ok =
      let (ph, next, kept) = turn-Inv none i s untouched h in
      let moved = starts-Inv next kept in
      turn-Returns i i none s (building-Returns i i (turn i none s) a moved moved.owned)
  phase-Returns i s (building o) a h ok = building-Returns i o s a h h.owned
  phase-Returns i s (built o b) a h ok = built-Returns i o s b h h.owned
  phase-Returns i s (published o b) a h ok = published-Returns i o s b h h.owned
  phase-Returns i s (ready b) a h ok = ready-Returns i s b h
  phase-Returns i s failed a h ok = cc

  Next-is_some :
      {made : Option A} {i : ℕ} {ph ph' : Phase A} {p : Pc A}
      → Next made i ph p ph'
      → is_some made ≡ true
      → is_failed ph ≡ false
      → is_failed ph' ≡ false
  Next-is_some starts m h = refl
  Next-is_some throws m h = cc
  Next-is_some makes m h = refl
  Next-is_some assigned m h = refl
  Next-is_some cleared m h = refl
  Next-is_some (stays begun waits) m h = h

  turns-is_some :
      (ts : List (ℕ × Option A)) (s : Calls A) (ph : Phase A)
      → Inv ph s
      → is_failed ph ≡ false
      → All (λ t. is_some t.1 ≡ true) ts
      → (ph' : Phase A) × Inv ph' (turns ts s) × (is_failed ph' ≡ false)
  unfolding turns
  turns-is_some [] s ph h ok all = (ph, h, ok)
  turns-is_some ((i, made) ∷ ts) s ph h ok all =
      let (ph', next, kept) = turn-Inv made i s ph h in
      turns-is_some ts (turn i made s) ph' kept (Next-is_some next all.0 ok) all.1

  -- If no constructor has thrown, then from wherever the turns of the calls have led, further turns bring
  -- any call to its end, with an object.
  pub calls-return :
      (ts : List (ℕ × Option A)) (i : ℕ) (a : A)
      → All (λ t. is_some t.1 ≡ true) ts
      → (us : List (ℕ × Option A)) × (b : A) × ((turns us (turns ts no_calls)).pc i
          ≡ returned (some b))
  unfolding Returns
  calls-return ts i a all =
      let (ph, kept, ok) = turns-is_some ts no_calls untouched no_calls-Inv refl all in
      phase-Returns i (turns ts no_calls) ph a kept ok
