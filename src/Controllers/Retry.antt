-- ===== src/Controllers/Retry.antt =====
-- `retry` of controllers/lumigo_controller.go:826-846 and its loop: five attempts at most.
use lumigo_kubernetes_operat.Prelude.{
  ℕ, zero, suc, ◌+◌, ◌≤◌, ◌<◌, Bool, true, false, ◌≡◌, refl, arith, Error, ltb, if◌then◌else◌,
}
use lumigo_kubernetes_operat.K8s.{Workload}
use lumigo_kubernetes_operat.Controllers.Cluster.{
  Verdict, completed, erred, crashed, Cluster, Tries, succeeds, panics, gives_up, retries, IsTryDo,
}

abbrev pub max_mutation_retry_attempts : ℕ
max_mutation_retry_attempts = 5

unfoldable pub retry_on_mutation_error_matcher : Error → Bool
retry_on_mutation_error_matcher e = true

abbrev wants_retry : ℕ → ℕ → (Error → Bool) → Verdict → Bool
wants_retry current_attempt max_attempts matcher completed = false
wants_retry current_attempt max_attempts matcher crashed = false
wants_retry current_attempt max_attempts matcher (erred e) =
    if matcher e then ltb current_attempt max_attempts else false

-- The function that `retry` hands to `try.Do`: it answers whether to retry, with the error.
unfoldable pub retried :
    {S : Type 0} → (S → S × Verdict) → ℕ → (Error → Bool) → ℕ → S → S × (Bool × Verdict)
retried function max_attempts matcher current_attempt s =
    let (s', v) = function s in (s', (wants_retry current_attempt max_attempts matcher v, v))

unfoldable pub retry :
    {W : Type 0}
    → Cluster W
    → (W × Workload → (W × Workload) × Verdict)
    → ℕ
    → (Error → Bool)
    → W × Workload
    → (W × Workload) × Verdict
retry cluster function max_attempts matcher s =
    cluster.try_do (retried function max_attempts matcher) s

abbrev pub unless_done : {S : Type 0} → (S → S × Verdict) → S × Verdict → S × Verdict
unless_done again (s, completed) = (s, completed)
unless_done again (s, crashed) = (s, crashed)
unless_done again (s, erred e) = again s

-- A function is run until it does not fail, and again at most as many times as the number says.
unfoldable pub up_to_times : {S : Type 0} → ℕ → (S → S × Verdict) → S → S × Verdict
up_to_times zero f s = f s
up_to_times (suc n) f s = unless_done (up_to_times n f) (f s)

ltb-true : (a b : ℕ) → a < b → ltb a b ≡ true
ltb-true a b l = ground arith

module _ {S : Type 0} (f : S → S × Verdict) where
  Tries-last :
      (j n : ℕ) (s : S) (r : S × Verdict)
      → n ≡ 5
      → f s ≡ r
      → Tries (retried f 5 retry_on_mutation_error_matcher) (suc j) n s r.0 r.1
  unfolding retried retry_on_mutation_error_matcher
  Tries-last j n s (s', completed) l h = succeeds {b = false} (rw h)
  Tries-last j n s (s', crashed) l h = panics {b = false} (rw h)
  Tries-last j n s (s', erred e) l h = gives_up (rw (h, l))

  Tries-step :
      (j n : ℕ) (s : S) (r : S × Verdict) (again : S → S × Verdict)
      → n < 5
      → f s ≡ r
      → ((s' : S)
          → Tries
              (retried f 5 retry_on_mutation_error_matcher)
              (suc j)
              (suc n)
              s'
              (again s').0
              (again s').1)
      → Tries
          (retried f 5 retry_on_mutation_error_matcher)
          (suc (suc j))
          n
          s
          (unless_done again r).0
          (unless_done again r).1
  unfolding retried retry_on_mutation_error_matcher
  Tries-step j n s (s', completed) again l h t = succeeds {b = false} (rw h)
  Tries-step j n s (s', crashed) again l h t = panics {b = false} (rw h)
  Tries-step j n s (s', erred e) again l h t = retries {e = e} (rw (h, ltb-true n 5 l)) (t s')

  -- From attempt number n on, with k + 1 attempts up to the fifth.
  Tries-of_loop :
      (k n j : ℕ) (s : S)
      → n + k ≡ 5
      → k ≤ j
      → Tries
          (retried f 5 retry_on_mutation_error_matcher)
          (suc j)
          n
          s
          (up_to_times k f s).0
          (up_to_times k f s).1
  unfolding up_to_times
  Tries-of_loop zero n j s h l = Tries-last j n s (f s) (omega arith) refl
  Tries-of_loop (suc k) n zero s h l = absurd (omega arith)
  Tries-of_loop (suc k) n (suc j) s h l =
      Tries-step j n s (f s) (up_to_times k f) (omega arith) refl
        (λ s'. Tries-of_loop k (suc n) j s' (omega arith) (omega arith))

module _ {W : Type 0} (cluster : Cluster W) (is_try_do : IsTryDo cluster) where
  -- Where `try.Do` behaves as documented, a mutation is attempted until it does not return an error,
  -- and at most five times; its last result is the result.
  pub retry_lem :
      (f : W × Workload → (W × Workload) × Verdict) (s : W × Workload)
      → retry cluster f max_mutation_retry_attempts retry_on_mutation_error_matcher s
        ≡ up_to_times 4 f s
  unfolding retry IsTryDo
  retry_lem f s =
      is_try_do (retried f 5 retry_on_mutation_error_matcher) s (up_to_times 4 f s).0
        (up_to_times 4 f s).1 (Tries-of_loop f 4 1 9 s refl (omega arith))
