-- ===== src/Enricher/Retry.antt =====
-- `retry` of internal/kube.go.
use lumigo_kubernetes_operat.Prelude.{
  ℕ, zero, suc, ◌+◌, ◌-◌, ◌≤◌, Bool, true, false, [], ◌∷◌, ◌≡◌, refl, arith, wrapf,
}
use lumigo_kubernetes_operat.K8s.{ApiResult, found, not_found, failed}

abbrev retry_attempts : ℕ
retry_attempts = 5

-- 100 * time.Millisecond
abbrev retry_attempt_step : ℕ
retry_attempt_step = 100_000_000

-- `fmt.Errorf("failed after %d attempts, last error: %w", maxAttempts, err)` for the five attempts of
-- every call; `apierrors.IsNotFound` sees through the wrapping.
abbrev pub give_up {ℓ} : {W : Type ℓ} {A : Type 0} → W × ApiResult A → W × ApiResult A
give_up (w, found a) = (w, found a)
give_up (w, not_found e) =
    (w, not_found (wrapf "failed after %d attempts, last error: %w" ("5" ∷ []) e))
give_up (w, failed e) = (w, failed (wrapf "failed after %d attempts, last error: %w" ("5" ∷ []) e))

abbrev unless_found {ℓ} :
    {W : Type ℓ} {A : Type 0} → (W → W × ApiResult A) → W × ApiResult A → W × ApiResult A
unless_found again (w, found a) = (w, found a)
unless_found again (w, not_found e) = again w
unless_found again (w, failed e) = again w

module _ {W : Type 0} {A : Type 0} (sleep : ℕ → W → W) (f : W → W × ApiResult A) where
  -- The iterations of the loop after the first; the number says how many remain after the next.
  unfoldable pub retry_again : ℕ → ℕ → W → W × ApiResult A
  retry_again zero pause w = f (sleep pause w)
  retry_again (suc n) pause w = unless_found (retry_again n (pause + pause)) (f (sleep pause w))

  -- With `retry_attempts` attempts.
  unfoldable pub retry : W → W × ApiResult A
  retry w = give_up (unless_found (retry_again (retry_attempts - 2) retry_attempt_step) (f w))

abbrev is_failure : {A : Type 0} → ApiResult A → Bool
is_failure (found a) = false
is_failure (not_found e) = true
is_failure (failed e) = true

-- From the world `w` on, up to `n` calls are made, at least one, and up to `nanos` nanoseconds are
-- slept; where the result is a failure, it is exactly so many.
pub record Spends {W A : Type 0} (calls time : W → ℕ) (w : W) (n nanos : ℕ) (r : W × ApiResult A)
    : Type 0 where
  calls_at_least : calls w + 1 ≤ calls r.0
  calls_at_most : calls r.0 ≤ calls w + n
  time_at_most : time r.0 ≤ time w + nanos
  calls_of_failure : is_failure r.1 ≡ true → calls r.0 ≡ calls w + n
  time_of_failure : is_failure r.1 ≡ true → time r.0 ≡ time w + nanos

-- the sleeps before `n` calls and one
abbrev total : ℕ → ℕ → ℕ
total zero pause = pause
total (suc n) pause = pause + total n (pause + pause)

module _ {W A : Type 0} (calls time : W → ℕ) (w : W) (n nanos pause : ℕ) where
  Spends-failure :
      (u : W) (r : W × ApiResult A)
      → calls u ≡ calls w + 1
      → time u ≡ time w + pause
      → Spends calls time u n nanos r
      → Spends calls time w (suc n) (pause + nanos) r
  Spends-failure u r c t s = record {
    calls_at_least = omega (arith, s.calls_at_least, c);
    calls_at_most = omega (arith, s.calls_at_most, c);
    time_at_most = omega (arith, s.time_at_most, t);
    calls_of_failure = λ h. omega (arith, s.calls_of_failure h, c);
    time_of_failure = λ h. omega (arith, s.time_of_failure h, t);
  }

  Spends-unless_found :
      (again : W → W × ApiResult A) (r : W × ApiResult A)
      → calls r.0 ≡ calls w + 1
      → time r.0 ≡ time w + pause
      → ((v : W) → Spends calls time v n nanos (again v))
      → Spends calls time w (suc n) (pause + nanos) (unless_found again r)
  Spends-unless_found again (u, found a) c t s = record {
    calls_at_least = omega (arith, c);
    calls_at_most = omega (arith, c);
    time_at_most = omega (arith, t);
    calls_of_failure = λ h. cc h;
    time_of_failure = λ h. cc h;
  }
  Spends-unless_found again (u, not_found e) c t s = Spends-failure u (again u) c t (s u)
  Spends-unless_found again (u, failed e) c t s = Spends-failure u (again u) c t (s u)

module _ {W A : Type 0} (sleep : ℕ → W → W) (f : W → W × ApiResult A) (calls time : W → ℕ)
    (sleep_calls : (n : ℕ) (w : W) → calls (sleep n w) ≡ calls w)
    (sleep_time : (n : ℕ) (w : W) → time (sleep n w) ≡ time w + n)
    (f_calls : (w : W) → calls (f w).0 ≡ calls w + 1)
    (f_time : (w : W) → time (f w).0 ≡ time w) where
  calls-f_sleep : (n : ℕ) (w : W) → calls (f (sleep n w)).0 ≡ calls w + 1
  calls-f_sleep n w = omega (arith, f_calls (sleep n w), sleep_calls n w)

  time-f_sleep : (n : ℕ) (w : W) → time (f (sleep n w)).0 ≡ time w + n
  time-f_sleep n w = omega (arith, f_time (sleep n w), sleep_time n w)

  retry_again-Spends :
      (n pause : ℕ) (w : W)
      → Spends calls time w (suc n) (total n pause) (retry_again sleep f n pause w)
  unfolding retry_again
  retry_again-Spends zero pause w = record {
    calls_at_least = omega (arith, calls-f_sleep pause w);
    calls_at_most = omega (arith, calls-f_sleep pause w);
    time_at_most = omega (arith, time-f_sleep pause w);
    calls_of_failure = λ h. calls-f_sleep pause w;
    time_of_failure = λ h. time-f_sleep pause w;
  }
  retry_again-Spends (suc n) pause w =
      Spends-unless_found calls time w (suc n) (total n (pause + pause)) pause
        (retry_again sleep f n (pause + pause)) (f (sleep pause w)) (calls-f_sleep pause w)
        (time-f_sleep pause w) (retry_again-Spends n (pause + pause))

  Spends-give_up :
      (w : W) (n nanos : ℕ) (r : W × ApiResult A)
      → Spends calls time w n nanos r
      → Spends calls time w n nanos (give_up r)
  Spends-give_up w n nanos (u, found a) s = s
  Spends-give_up w n nanos (u, not_found e) s = record {
    calls_at_least = s.calls_at_least;
    calls_at_most = s.calls_at_most;
    time_at_most = s.time_at_most;
    calls_of_failure = λ h. s.calls_of_failure refl;
    time_of_failure = λ h. s.time_of_failure refl;
  }
  Spends-give_up w n nanos (u, failed e) s = record {
    calls_at_least = s.calls_at_least;
    calls_at_most = s.calls_at_most;
    time_at_most = s.time_at_most;
    calls_of_failure = λ h. s.calls_of_failure refl;
    time_of_failure = λ h. s.time_of_failure refl;
  }

  -- Where a sleep takes the time it is told to and the call itself takes none: a retried call is made
  -- once at least and five times at most, and sleeps 1.5 seconds at most; a call that fails in the
  -- end was made exactly five times, and slept exactly 1.5 seconds.
  pub retry-Spends : (w : W) → Spends calls time w 5 1_500_000_000 (retry sleep f w)
  unfolding retry
  retry-Spends w =
      Spends-give_up w 5 1_500_000_000
        (unless_found (retry_again sleep f 3 retry_attempt_step) (f w))
        (Spends-unless_found calls time w 4 1_500_000_000 0
          (retry_again sleep f 3 retry_attempt_step) (f w) (f_calls w) (omega (arith, f_time w))
          (retry_again-Spends 3 retry_attempt_step))

module _ {W A : Type 0} (sleep : ℕ → W → W) (f : W → W × ApiResult A) where
  answer-unless_found :
      (again : W → W × ApiResult A) (r : W × ApiResult A)
      → (v : W) × ((f v).1 ≡ r.1)
      → ((w : W) → (v : W) × ((f v).1 ≡ (again w).1))
      → (v : W) × ((f v).1 ≡ (unless_found again r).1)
  answer-unless_found again (u, found a) here later = here
  answer-unless_found again (u, not_found e) here later = later u
  answer-unless_found again (u, failed e) here later = later u

  answer-retry_again :
      (n pause : ℕ) (w : W) → (v : W) × ((f v).1 ≡ (retry_again sleep f n pause w).1)
  unfolding retry_again
  answer-retry_again zero pause w = (sleep pause w, refl)
  answer-retry_again (suc n) pause w =
      answer-unless_found (retry_again sleep f n (pause + pause)) (f (sleep pause w))
        (sleep pause w, refl) (answer-retry_again n (pause + pause))

  -- the last answer of a retried call, before it is wrapped
  pub retry_answer :
      (w : W)
      → (u : W) × ((v : W) × ((r : ApiResult A) × (((f v).1 ≡ r)
              × (retry sleep f w ≡ give_up (u, r)))))
  unfolding retry
  retry_answer w =
      let (v, e) =
        answer-unless_found (retry_again sleep f 3 retry_attempt_step) (f w) (w, refl)
          (answer-retry_again 3 retry_attempt_step) in
      let r = unless_found (retry_again sleep f 3 retry_attempt_step) (f w) in
      (r.0, (v, (r.1, (e, refl))))
