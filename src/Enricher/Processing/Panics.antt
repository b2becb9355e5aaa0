-- ===== src/Enricher/Processing/Panics.antt =====
-- When the processing of metrics panics (processMetrics of processor.go).
use lumigo_kubernetes_operat.Prelude.{
  String, Bool, true, false, ◌&&◌, ◌||◌, List, [], ◌∷◌, ◌≡◌, ◌↔◌, refl, some, none, Option, Outcome,
  ok, panicked, if◌then◌else◌,
}
use lumigo_kubernetes_operat.Enricher.External.{Libraries, Cluster}
use lumigo_kubernetes_operat.Enricher.Client.{KubeClient}
use lumigo_kubernetes_operat.Enricher.Attributes.{Attributes, add_resource_cluster_attributes}
use lumigo_kubernetes_operat.Enricher.Metrics.{
  Metric, ResourceMetrics, is_owner_metric, enrich_gauge, enrich_metric, enrich_all, then_rest,
  prepend, with_scopes, add_owner_uid_attribute_to_owner_metrics, enrich_resource_metrics,
  process_metrics,
}

-- Some element of a list passes a test.
unfoldable pub any_of : {A : Type 0} → (A → Bool) → List A → Bool
any_of test [] = false
any_of test (x ∷ rest) = test x || any_of test rest

abbrev has_gauge : Option (List Attributes) → Bool
has_gauge none = false
has_gauge (some points) = true

abbrev negate : Bool → Bool
negate true = false
negate false = true

-- An owner metric that is not a gauge.
unfoldable pub is_ungauged : Metric → Bool
is_ungauged m = is_owner_metric m.name && negate (has_gauge m.gauge)

-- in any scope
abbrev pub has_ungauged : ResourceMetrics → Bool
has_ungauged rm = any_of (any_of is_ungauged) rm.scope_metrics

module _ (libs : Libraries) {W : Type 0} (cluster : Cluster W) where
  -- It panics, where the Boolean is true, and otherwise it ends without an error.
  data Panics {A : Type 0} : Bool → Outcome ((W × KubeClient libs) × A) → Type 0 where
    panics : Panics true panicked
    completes : {s : W × KubeClient libs} {a : A} → Panics false (ok (s, a))

  Panics-iff :
      {A : Type 0} (b : Bool) (r : Outcome ((W × KubeClient libs) × A))
      → Panics b r
      → (r ≡ panicked) ↔ (b ≡ true)
  Panics-iff _ _ panics = (λ h. refl, λ h. refl)
  Panics-iff _ _ completes = (λ h. absurd (cc h), λ h. absurd (cc h))

  module _ {A : Type 0} (enrich : A → W × KubeClient libs → Outcome ((W × KubeClient libs) × A))
      (bad : A → Bool)
      (step : (x : A) (s : W × KubeClient libs) → Panics (bad x) (enrich x s)) where
    Panics-prepend :
        (x : A) (b : Bool) (r : Outcome ((W × KubeClient libs) × List A))
        → Panics b r
        → Panics b (prepend libs cluster enrich x r)
    Panics-prepend x _ _ panics = panics
    Panics-prepend x _ _ completes = completes

    Panics-then_rest :
        (b later : Bool) (rest : W × KubeClient libs → Outcome ((W × KubeClient libs) × List A))
        (r : Outcome ((W × KubeClient libs) × A))
        → ((s : W × KubeClient libs) → Panics later (rest s))
        → Panics b r
        → Panics (b || later) (then_rest libs cluster enrich rest r)
    Panics-then_rest _ later rest _ h panics = panics
    Panics-then_rest _ later rest _ h (completes {s = s} {a = x}) =
        Panics-prepend x later (rest s) (h s)

    Panics-enrich_all :
        (xs : List A) (s : W × KubeClient libs)
        → Panics (any_of bad xs) (enrich_all libs cluster enrich xs s)
    unfolding any_of
    Panics-enrich_all [] s = completes
    Panics-enrich_all (x ∷ rest) s =
        Panics-then_rest (bad x) (any_of bad rest) (enrich_all libs cluster enrich rest)
          (enrich x s) (Panics-enrich_all rest) (step x s)

  Panics-if :
      (test : Bool) (m : Metric) (g : Option (List Attributes)) (s : W × KubeClient libs)
      → Panics
          (test && negate (has_gauge g))
          (if test then enrich_gauge libs cluster m g s else ok (s, m))
  Panics-if true m none s = panics
  Panics-if true m (some points) s = completes
  Panics-if false m none s = completes
  Panics-if false m (some points) s = completes

  Panics-enrich_metric :
      (m : Metric) (s : W × KubeClient libs)
      → Panics (is_ungauged m) (enrich_metric libs cluster m s)
  unfolding enrich_metric is_ungauged
  Panics-enrich_metric m s = Panics-if (is_owner_metric m.name) m m.gauge s

  Panics-with_scopes :
      (l : Attributes) (b : Bool) (r : Outcome ((W × KubeClient libs) × List (List Metric)))
      → Panics b r
      → Panics b (with_scopes libs cluster l r)
  Panics-with_scopes l _ _ panics = panics
  Panics-with_scopes l _ _ completes = completes

  Panics-enrich_resource_metrics :
      (cluster_uid : String) (rm : ResourceMetrics) (s : W × KubeClient libs)
      → Panics (has_ungauged rm) (enrich_resource_metrics libs cluster cluster_uid rm s)
  unfolding enrich_resource_metrics add_owner_uid_attribute_to_owner_metrics
  Panics-enrich_resource_metrics cluster_uid rm (w, c) =
      Panics-with_scopes (add_resource_cluster_attributes c.provider_id cluster_uid rm.attributes)
        (any_of (any_of is_ungauged) rm.scope_metrics) _
        (Panics-enrich_all (enrich_all libs cluster (enrich_metric libs cluster))
          (any_of is_ungauged)
          (Panics-enrich_all (enrich_metric libs cluster) is_ungauged Panics-enrich_metric)
          rm.scope_metrics (w, c))

  -- The processing of metrics panics exactly if there is a metric among them with the name of an owner
  -- metric that is not a gauge.
  pub process_metrics_panics_iff :
      (cluster_uid : String) (metrics : List ResourceMetrics) (s : W × KubeClient libs)
      → (process_metrics libs cluster cluster_uid metrics s ≡ panicked)
        ↔ (any_of has_ungauged metrics ≡ true)
  unfolding process_metrics
  process_metrics_panics_iff cluster_uid metrics s =
      Panics-iff (any_of has_ungauged metrics) (process_metrics libs cluster cluster_uid metrics s)
        (Panics-enrich_all (enrich_resource_metrics libs cluster cluster_uid) has_ungauged
          (Panics-enrich_resource_metrics cluster_uid) metrics s)
