-- ===== src/Controllers/Cluster.antt =====
-- What the controller calls outside of the repository: the clients of the Kubernetes API, the event
-- recorder and `try.Do` of gopkg.in/matryer/try.v1. They act on a world `W`, of which the program
-- sees nothing else.
use lumigo_kubernetes_operat.Prelude.{
  ℕ, suc, String, Bool, true, false, Option, List, ◌≡◌, Fallible, Error,
}
use lumigo_kubernetes_operat.K8s.{Workload, WorkloadKind, Libs}
use lumigo_kubernetes_operat.Api.Events.{Event}

-- How a call that returns only an error ends.
pub data Verdict : Type 0 where
  completed : Verdict
  erred : Error → Verdict
  crashed : Verdict

-- The label selectors of the controller: "!lumigo.auto-trace", and
-- "lumigo.auto-trace,lumigo.auto-trace != false".
pub data Selector : Type 0 where
  not_autotraced autotraced : Selector

pub record Cluster (W : Type 0) : Type 0 where
  pub libs : Libs
  -- `Clientset….List` of a kind, a namespace and a selector
  pub list_workloads : WorkloadKind → String → Selector → W → W × Fallible (List Workload)
  -- `Client.Get` by kind, namespace and name, into the object that is given
  pub get : WorkloadKind → String → String → W × Workload → (W × Workload) × Option Error
  pub update : WorkloadKind → Workload → W → W × Option Error
  pub record_event : Event → W → W
  -- `Namespaces().List`: their names
  pub list_namespaces : W → W × Fallible (List String)
  -- `labels.NewRequirement(key, selection.NotIn, values)`
  pub new_requirement : String → List String → Option Error
  -- `try.Do`: the function is given the number of the attempt, and answers whether to retry
  pub try_do :
      (ℕ → W × Workload → (W × Workload) × (Bool × Verdict))
      → W × Workload
      → (W × Workload) × Verdict

-- The documented behaviour of `try.Do`: it keeps trying the function until that answers false or
-- returns no error, and panics with it. `Tries f k n s s' v`: from attempt number `n` on, with at
-- most `k` attempts, it ends in `s'` with `v`.
pub data Tries {S : Type 0} (f : ℕ → S → S × (Bool × Verdict))
    : ℕ → ℕ → S → S → Verdict → Type 0 where
  succeeds :
      {k n : ℕ} {s s' : S} {b : Bool}
      → f n s ≡ (s', (b, completed))
      → Tries f (suc k) n s s' completed
  panics :
      {k n : ℕ} {s s' : S} {b : Bool} → f n s ≡ (s', (b, crashed)) → Tries f (suc k) n s s' crashed
  gives_up :
      {k n : ℕ} {s s' : S} {e : Error}
      → f n s ≡ (s', (false, erred e))
      → Tries f (suc k) n s s' (erred e)
  retries :
      {k n : ℕ} {s s' s'' : S} {e : Error} {v : Verdict}
      → f n s ≡ (s', (true, erred e))
      → Tries f k (suc n) s' s'' v
      → Tries f (suc k) n s s'' v

-- `try.Do` does so within its limit of ten retries (`try.MaxRetries`).
unfoldable pub IsTryDo : {W : Type 0} → Cluster W → Type 0
IsTryDo {W} cluster =
    (f : ℕ → W × Workload → (W × Workload) × (Bool × Verdict)) (s s' : W × Workload) (v : Verdict)
    → Tries f 10 1 s s' v
    → cluster.try_do f s ≡ (s', v)
