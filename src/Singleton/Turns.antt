-- ===== src/Singleton/Turns.antt =====
-- A turn of any call keeps the invariant and moves the phase as `Next` says.
use grpc_push_sdk.Common.{
  ℕ, ◌≡◌, refl, true, false, List, [], ◌∷◌, Option, none, some, sym, ap, ◌∙◌, subst,
}
use grpc_push_sdk.Singleton.{
  Pc, enters, constructs, assigns, clears, spins, reads, returned, thrown, Calls, advance, put,
  turn, turns,
}
use grpc_push_sdk.Singleton.Invariant.{
  Phase, untouched, building, built, published, ready, failed, members, is_started, constructing,
  Fits, at_new, at_pointer, at_flag, at_entry, in_loop, past_loop, with_object, with_exception,
  builds, stores, opens, done, lost, Inv, Next, starts, throws, makes, assigned, cleared, stays,
  update-same, update-Fits, update-Owned, started-Fits, thrown-Fits, built-Fits, published-Fits,
  ready-Fits,
}

module _ {ℓ} {A : Type ℓ} where
  -- A turn, with the members and the place that it finds.
  Turned : Option A → ℕ → Calls A → Phase A → Pc A → Type ℓ
  Turned made i s ph p =
      (ph' : Phase A) × Next made i ph p ph' × Inv ph' (put i s (advance made (members ph) p))

  stay :
      (made : Option A) (i : ℕ) (s : Calls A) (ph : Phase A) (p q : Pc A)
      → Inv ph s
      → s.pc i ≡ p
      → is_started ph ≡ true
      → constructing p ≡ false
      → advance made (members ph) p ≡ (members ph, q)
      → Fits ph i q
      → Turned made i s ph p
  unfolding Turned
  stay made i s ph p q h at begun waits e fits = (
    ph,
    stays begun waits,
    subst (λ r. Inv ph (put i s r)) (sym e)
        (record {
          shared_ok = refl;
          calls_ok = update-Fits ph s.pc i q fits (λ j ne. h.calls_ok j);
          owned = update-Owned ph s.pc i q (ap constructing at ∙ waits) h.owned;
        }),
  )

  at_entry-Turned :
      (made : Option A) (i : ℕ) (s : Calls A) (ph : Phase A)
      → Inv ph s
      → s.pc i ≡ enters
      → Turned made i s ph enters
  unfolding Turned advance
  at_entry-Turned made i s untouched h at = (
    building i,
    starts,
    record {
      shared_ok = refl;
      calls_ok =
          update-Fits (building i) s.pc i constructs at_new (λ j ne. started-Fits (h.calls_ok j));
      owned = builds (update-same s.pc i constructs);
    },
  )
  at_entry-Turned made i s (building o) h at =
      stay made i s (building o) enters spins h at refl refl refl (in_loop refl)
  at_entry-Turned made i s (built o a) h at =
      stay made i s (built o a) enters spins h at refl refl refl (in_loop refl)
  at_entry-Turned made i s (published o a) h at =
      stay made i s (published o a) enters spins h at refl refl refl (in_loop refl)
  at_entry-Turned made i s (ready a) h at =
      stay made i s (ready a) enters spins h at refl refl refl (in_loop refl)
  at_entry-Turned made i s failed h at =
      stay made i s failed enters spins h at refl refl refl (in_loop refl)

  in_loop-Turned :
      (made : Option A) (i : ℕ) (s : Calls A) (ph : Phase A)
      → Inv ph s
      → is_started ph ≡ true
      → s.pc i ≡ spins
      → Turned made i s ph spins
  unfolding advance
  in_loop-Turned made i s (ready a) h begun at =
      stay made i s (ready a) spins reads h at refl refl refl past_loop
  in_loop-Turned made i s untouched h begun at = cc
  in_loop-Turned made i s (building o) h begun at =
      stay made i s (building o) spins spins h at refl refl refl (in_loop refl)
  in_loop-Turned made i s (built o a) h begun at =
      stay made i s (built o a) spins spins h at refl refl refl (in_loop refl)
  in_loop-Turned made i s (published o a) h begun at =
      stay made i s (published o a) spins spins h at refl refl refl (in_loop refl)
  in_loop-Turned made i s failed h begun at =
      stay made i s failed spins spins h at refl refl refl (in_loop refl)

  place-Turned :
      (made : Option A) (i : ℕ) (s : Calls A) (ph : Phase A) (p : Pc A)
      → Inv ph s
      → s.pc i ≡ p
      → Fits ph i p
      → Turned made i s ph p
  unfolding Turned advance
  place-Turned made i s ph p h at at_entry = at_entry-Turned made i s ph h at
  place-Turned made i s ph p h at (in_loop begun) = in_loop-Turned made i s ph h begun at
  place-Turned none i s ph p h at at_new = (
    failed,
    throws,
    record {
      shared_ok = refl;
      calls_ok =
          update-Fits failed s.pc i thrown with_exception (λ j ne. thrown-Fits ne (h.calls_ok j));
      owned = lost;
    },
  )
  place-Turned (some a) i s ph p h at at_new = (
    built i a,
    makes,
    record {
      shared_ok = refl;
      calls_ok =
          update-Fits (built i a) s.pc i (assigns a) at_pointer
            (λ j ne. built-Fits ne (h.calls_ok j));
      owned = stores (update-same s.pc i (assigns a));
    },
  )
  place-Turned made i s ph p h at (at_pointer {a}) = (
    published i a,
    assigned,
    record {
      shared_ok = refl;
      calls_ok =
          update-Fits (published i a) s.pc i clears at_flag
            (λ j ne. published-Fits ne (h.calls_ok j));
      owned = opens (update-same s.pc i clears);
    },
  )
  place-Turned made i s ph p h at (at_flag {a}) = (
    ready a,
    cleared,
    record {
      shared_ok = refl;
      calls_ok =
          update-Fits (ready a) s.pc i spins (in_loop refl) (λ j ne. ready-Fits ne (h.calls_ok j));
      owned = done;
    },
  )
  place-Turned made i s ph p h at (past_loop {a}) =
      stay made i s (ready a) reads (returned (some a)) h at refl refl refl with_object
  place-Turned made i s ph p h at (with_object {a}) =
      stay made i s (ready a) (returned (some a)) (returned (some a)) h at refl refl refl
        with_object
  place-Turned made i s ph p h at with_exception =
      stay made i s failed thrown thrown h at refl refl refl with_exception

  pub turn-Inv :
      (made : Option A) (i : ℕ) (s : Calls A) (ph : Phase A)
      → Inv ph s
      → (ph' : Phase A) × Next made i ph (s.pc i) ph' × Inv ph' (turn i made s)
  unfolding turn Turned
  turn-Inv made i s ph h =
      let (ph', next, kept) = place-Turned made i s ph (s.pc i) h refl (h.calls_ok i) in
      (ph', next, subst (λ m. Inv ph' (put i s (advance made m (s.pc i)))) (sym h.shared_ok) kept)

  pub turns-Inv :
      (ts : List (ℕ × Option A)) (s : Calls A) (ph : Phase A)
      → Inv ph s
      → (ph' : Phase A) × Inv ph' (turns ts s)
  unfolding turns
  turns-Inv [] s ph h = (ph, h)
  turns-Inv ((i, made) ∷ ts) s ph h =
      let (ph', next, kept) = turn-Inv made i s ph h in turns-Inv ts (turn i made s) ph' kept
