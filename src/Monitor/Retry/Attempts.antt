-- ===== src/Monitor/Retry/Attempts.antt =====
-- Which of its calls `retry_busy` of src/monitor/ownership.rs returns.
use damon_rs.Common.{
  ℕ, zero, suc, ◌+◌, ◌*◌, ◌-◌, ◌^◌, ◌≤◌, ◌<◌, ◌≡◌, ◌⊎◌, inl, inr, refl, ap, sym, ◌∙◌, true, false,
  arith, Bool-cases, subst, ltb,
}
use damon_rs.Error.{Result}
use damon_rs.Sysfs.{Sysfs}
use damon_rs.Sysfs.Actions.{Action}
use damon_rs.Monitor.Retry.{is_busy, delay_ms, retry, retry_busy, max_retries}

module _ {W : Type 0} (sys : Sysfs W) {A : Type 0} (operation : Action W A) where
  -- The state before a call: each earlier call ran, and then a delay, doubled each time.
  abbrev pub attempted : ℕ → W → W
  attempted zero w = w
  attempted (suc n) w = sys.sleep (10 * 2 ^ n) (operation (attempted n w)).1

  abbrev pub IsBusyAt : ℕ → W → Type 0
  IsBusyAt n w = is_busy (operation (attempted n w)).0 ≡ true

  -- The first call that is not busy, or the last that is allowed.
  abbrev pub Returned : W → Result A × W → Type 0
  Returned w out =
      (k : ℕ) × (k ≤ max_retries)
      × (out ≡ operation (attempted k w))
      × ((k ≡ max_retries) ⊎ (is_busy (operation (attempted k w)).0 ≡ false))
      × ((j : ℕ) → j < k → IsBusyAt j w)

  retry-Returned :
      (left n : ℕ) (w : W)
      → left + n ≡ max_retries
      → ((j : ℕ) → j < n → IsBusyAt j w)
      → Returned w (retry sys left operation (attempted n w))
  unfolding retry delay_ms
  retry-Returned zero n w sum busy = (n, omega arith, refl, inl (omega arith), busy)
  retry-Returned (suc left) n w sum busy =
      elim (Bool-cases (is_busy (operation (attempted n w)).0)) [
        | inr calm ↦ (n, omega arith, rw (calm, retry) refl, inr calm, busy)
        | inl again ↦
            let shift : max_retries - suc left ≡ n = omega arith in
            let step =
              ap
                (λ (k : ℕ).
                  retry sys left operation (sys.sleep (10 * 2 ^ k) (operation (attempted n w)).1))
                shift in
            let next = retry-Returned left (suc n) w (omega arith) λ j below.
              elim (Bool-cases (ltb j n)) [
                | inl earlier ↦ busy j (ground arith)
                | inr other ↦ let same : j ≡ n = ground arith in rw same again
              ] in
            (next.0, next.1, rw (again, retry) step ∙ next.2, next.3, next.4)
      ]

  -- The operation is called at most six times, each time after the first with a delay of 10 ms,
  -- doubled from call to call, and the result is that of the first call that does not report a
  -- busy resource, or else of the sixth.
  pub retry_busy-Returned : (w : W) → Returned w (retry_busy sys operation w)
  unfolding retry_busy
  retry_busy-Returned w = retry-Returned max_retries 0 w refl (λ j h. absurd (omega arith))

  -- What every call returns, the loop returns.
  pub retry_keeps :
      (P : Result A → Type 0)
      → ((w : W) → P (operation w).0)
      → (w : W) → P (retry_busy sys operation w).0
  retry_keeps P h w =
      let r = retry_busy-Returned w in
      subst (λ (x : Result A × W). P x.0) (sym r.2) (h (attempted r.0 w))
