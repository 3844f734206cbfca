-- ===== src/Store/Retry.antt =====
-- The loop of retryOnBusy (internal/store/store.go:31).
use sandkasten.Base.{
  ℕ, zero, suc, ◌*◌, ◌≤◌, ◌<◌, ◌≡◌, refl, true, false, ◌⊎◌, inl, inr, ◌∷◌, arith, Bool-cases,
}
use sandkasten.Base.Int.{millisecond}
use sandkasten.World.{World, slept, Result}
use sandkasten.World.Action.{Action}
use sandkasten.Store.{is_retried, retry, retry_on_busy}

module _ {A : Type 0} where
  -- The world in which attempt number `k` starts, when all before it were made and slept after.
  pub tried : ℕ → ℕ → Action A → World → World
  tried zero backoff fn w = w
  tried (suc k) backoff fn w =
      let w' = (fn w).1 in
      tried k (backoff * 2) fn (record w' { history = slept backoff ∷ w'.history })

  pub record Retried (left backoff : ℕ) (fn : Action A) (w : World) (r : Result A × World)
      : Type 0 where
    pub rounds : ℕ
    pub within : rounds ≤ left
    pub last : r ≡ fn (tried rounds backoff fn w)
    pub busy : (i : ℕ) → i < rounds → is_retried (fn (tried i backoff fn w)).0 ≡ true
    pub settled : (rounds ≡ left) ⊎ (is_retried (fn (tried rounds backoff fn w)).0 ≡ false)

  later_busy :
      (fn : Action A) (w : World) (backoff k : ℕ)
      → is_retried (fn w).0 ≡ true
      → ((i : ℕ)
          → i < k
          → is_retried
              (fn (
                tried i
                  (backoff * 2)
                  fn
                  (record (fn w).1 { history = slept backoff ∷ (fn w).1.history }))).0
            ≡ true)
      → (i : ℕ) → i < suc k
      → is_retried (fn (tried i backoff fn w)).0 ≡ true
  unfolding tried
  later_busy fn w backoff k h all zero lt = h
  later_busy fn w backoff k h all (suc i) lt = all i (omega arith)

  retry-Retried :
      (left backoff : ℕ) (fn : Action A) (w : World)
      → Retried left backoff fn w (retry left backoff fn w)
  unfolding retry tried
  retry-Retried zero backoff fn w = record {
    rounds = 0;
    within = omega arith;
    last = refl;
    busy = λ i lt. absurd (omega arith);
    settled = inl refl;
  }
  retry-Retried (suc left) backoff fn w = elim (Bool-cases (is_retried (fn w).0)) [
    | inl h ↦
        let next : World = record (fn w).1 { history = slept backoff ∷ (fn w).1.history } in
        let ih = retry-Retried left (backoff * 2) fn next in
        rw h (record {
          rounds = suc ih.rounds;
          within = omega (arith, ih.within);
          last = ih.last;
          busy = later_busy fn w backoff ih.rounds h ih.busy;
          settled = elim ih.settled [ inl e ↦ inl (omega (arith, e)) | inr e ↦ inr e ];
        })
    | inr h ↦ rw h (record {
      rounds = 0;
      within = omega arith;
      last = refl;
      busy = λ i lt. absurd (omega arith);
      settled = inr h;
    })
  ]

  -- retryOnBusy makes at most four attempts: every one before the last met a locked database, its
  -- result is the last one's, and it stops early only at a result that is no lock.
  pub retry_on_busy_attempts :
      (fn : Action A) (w : World) → Retried 3 (25 * millisecond) fn w (retry_on_busy fn w)
  unfolding retry_on_busy
  retry_on_busy_attempts fn w = retry-Retried 3 (25 * millisecond) fn w
