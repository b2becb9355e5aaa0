-- ===== src/Enricher/Processing/AllLogs.antt =====
-- The processing of a batch of logs ends, and keeps the caches of the enricher faithful.
use lumigo_kubernetes_operat.Prelude.{ℕ, ◌<◌, Option}
use lumigo_kubernetes_operat.Enricher.Objects.{KubeObject, ObjectReference}
use lumigo_kubernetes_operat.Enricher.External.{Libraries, Cluster, IsCache}
use lumigo_kubernetes_operat.Enricher.Client.{KubeClient}
use lumigo_kubernetes_operat.Enricher.Attributes.{Attributes}
use lumigo_kubernetes_operat.Enricher.Faithful.{IsFaithful, IsHonest}
use lumigo_kubernetes_operat.Enricher.Roots.{IsAcyclic}
use lumigo_kubernetes_operat.Enricher.Processing.LogRecords.{IsLogged, Ends}

module _ (libs : Libraries) {W : Type 0} (cluster : Cluster W) (Seen : KubeObject → Type 0)
    (is_cache : IsCache libs) (honest : IsHonest Seen cluster) (logged : IsLogged libs Seen)
    (fuel : ℕ) (rank : ObjectReference → ℕ) (acyclic : IsAcyclic libs Seen rank)
    (bounded : (r : ObjectReference) → rank r < fuel) where
  abbrev State : Type 0
  State = W × KubeClient libs

  abbrev Fine : State → Type 0
  Fine s = IsFaithful libs Seen s.1

  abbrev Ended : {A : Type 0} → Option (State × A) → Type 0
  Ended = Ends libs cluster Seen is_cache honest logged
