-- ===== src/Controllers/Reconciler/Consistency.antt =====
-- What a reconciliation writes to the status of instances
-- (controllers/lumigo_controller.go:146-353, 501-524).
use lumigo_kubernetes_operat.Prelude.{
  ℕ, String, Bool, true, false, Option, none, some, List, ◌≡◌, refl, inl, inr, Fallible, Error,
  arith, if◌then◌else◌, Bool-cases, ◌==◌, Slice,
}
use lumigo_kubernetes_operat.K8s.{Workload, WorkloadKind}
use lumigo_kubernetes_operat.Api.{Lumigo, ObjectReference}
use lumigo_kubernetes_operat.Conditions.{
  is_active, has_error, clear_error_condition, set_error_and_active_conditions,
  get_lumigo_condition_by_type,
}
use lumigo_kubernetes_operat.Conditions.Meaning.{
  set_error_and_active_conditions_lem, clear_error_condition_lem,
}
use lumigo_kubernetes_operat.Controllers.Writes.{IsKept}
use lumigo_kubernetes_operat.Controllers.NamespaceConfigs.{
  NamespaceMonitoringConfig, Files, update_read, write_if_changed, after_write, read_namespaces,
  update_telemetry_proxy_monitoring_of_namespace,
}
use lumigo_kubernetes_operat.Controllers.Requests.{with_resources}
use lumigo_kubernetes_operat.Controllers.Reconciler.{Services, DanglingEvent, with_references}

-- An instance does not show an error while it is active.
unfoldable pub is_consistent : Lumigo → Bool
is_consistent lumigo =
    if (has_error lumigo).0 then (if is_active lumigo then false else true) else true

pub failure_consistent :
    (text : Error → String) (lumigo : Lumigo) (now : ℕ) (e : Error)
    → is_consistent (with_resources (set_error_and_active_conditions text lumigo now e)) ≡ true
unfolding is_consistent is_active has_error get_lumigo_condition_by_type
failure_consistent text lumigo now e =
    rw (set_error_and_active_conditions_lem text lumigo now e).0 (ground arith)

pub cleared_consistent :
    (lumigo : Lumigo) (now : ℕ)
    → is_consistent (with_resources (clear_error_condition lumigo now)) ≡ true
unfolding is_consistent has_error get_lumigo_condition_by_type
cleared_consistent lumigo now = rw (clear_error_condition_lem lumigo now) refl

pub collected_consistent :
    (lumigo : Lumigo) (now : ℕ) (references : List ObjectReference)
    → is_consistent (with_resources (with_references (clear_error_condition lumigo now) references))
      ≡ true
unfolding is_consistent has_error get_lumigo_condition_by_type
collected_consistent lumigo now references = rw (clear_error_condition_lem lumigo now) refl

-- A property of the world that everything keeps which a reconciliation may do, where the statuses
-- that it writes are consistent.
pub record IsKeptByConsistent {W : Type 0} (services : Services W) (P : W → Type 0) : Type 0 where
  pub cluster_kept : IsKept services.cluster (λ kind w. Unit) P
  pub file_written :
      (bytes : String) (world : W) → P world → P (services.files.write_file bytes world).0
  pub lumigo_updated :
      (lumigo : Lumigo) (world : W) → P world → P (services.update_lumigo lumigo world).0.0
  pub status_updated :
      (lumigo : Lumigo) (world : W)
      → is_consistent lumigo ≡ true
      → P world
      → P (services.update_status lumigo world).0.0
  pub event_updated :
      (event : DanglingEvent) (world : W) → P world → P (services.update_event event world).0

pub narrowed :
    {W : Type 0} {services : Services W} {P : W → Type 0}
    (IsWrite : WorkloadKind → Workload → Type 0)
    → IsKeptByConsistent services P
    → IsKept services.cluster IsWrite P
narrowed IsWrite kept = record {
  listing = kept.cluster_kept.listing;
  getting = kept.cluster_kept.getting;
  updating = λ kind w world is p. kept.cluster_kept.updating kind w world tt p;
  recording = kept.cluster_kept.recording;
  listing_namespaces = kept.cluster_kept.listing_namespaces;
}

module _ {W : Type 0} (files : Files W) (path : String) {P : W → Type 0}
    (written : (bytes : String) (world : W) → P world → P (files.write_file bytes world).0) where
  after_write-keeps : (r : W × Option Error) → P r.0 → P (after_write files path r).0
  after_write-keeps (world, none) p = p
  after_write-keeps (world, some e) p = p

  write_if_changed-keeps :
      (bytes : String) (marshalled : Fallible String) (world : W)
      → P world
      → P (write_if_changed files path bytes marshalled world).0
  unfolding write_if_changed
  write_if_changed-keeps bytes (inl e) world p = p
  write_if_changed-keeps bytes (inr updated) world p = elim (Bool-cases (bytes == updated)) [
    | inl same ↦ rw same p
    | inr other ↦
        rw other (after_write-keeps (files.write_file updated world) (written updated world p))
  ]

  update_read-keeps :
      (c : NamespaceMonitoringConfig) (r : Fallible (String × Slice NamespaceMonitoringConfig))
      (world : W)
      → P world
      → P (update_read files path c r world).0
  update_read-keeps c (inl e) world p = p
  update_read-keeps c (inr (bytes, namespaces)) world p = write_if_changed-keeps bytes _ world p

  pub update_file-keeps :
      (c : NamespaceMonitoringConfig) (world : W)
      → P world
      → P (update_telemetry_proxy_monitoring_of_namespace files path c world).0
  unfolding update_telemetry_proxy_monitoring_of_namespace
  update_file-keeps c world p = update_read-keeps c (read_namespaces files path world) world p
