-- ===== src/Examples/Controlling.antt =====
-- The theorems on the controller at a concrete cluster, whose world is the list of the objects
-- written to it, the last one first.
use lumigo_kubernetes_operat.Prelude.{
  ℕ, zero, suc, String, Bool, true, false, none, some, List, [], ◌∷◌, items, ◌≡◌, ◌↔◌, refl, inr,
  errorf, ◌==◌, if◌then◌else◌, Slice, assign_label, put_entry, delete_label, drop_entry,
}
use lumigo_kubernetes_operat.K8s.{Workload, WorkloadKind, deployment, PodSpec, found, object}
use lumigo_kubernetes_operat.K8s.Equality.{deep_equal, deep_equal_env, deep_equal_mounts}
use lumigo_kubernetes_operat.Mutation.Mutator.{new_injecting_mutator_from_spec}
use lumigo_kubernetes_operat.Mutation.PodSpecs.{
  remove_lumigo_from_pod_spec, remove_where, clean_container, is_injected_env, contains,
}
use lumigo_kubernetes_operat.Mutation.Workloads.{
  remove_lumigo_from, remove_lumigo_from_kind, remove_auto_trace_label,
}
use lumigo_kubernetes_operat.Admission.{Request, update, patched}
use lumigo_kubernetes_operat.Injector
use lumigo_kubernetes_operat.Injector.{
  new_resource_adapter, adapted_kind, s_gvk, handle, is_disabled, answered, without_label,
}
use lumigo_kubernetes_operat.Api.{Lumigo}
use lumigo_kubernetes_operat.Conditions.{is_active}
use lumigo_kubernetes_operat.Controllers.Cluster.{
  Verdict, completed, erred, crashed, Cluster, Tries, succeeds, panics, gives_up, retries, IsTryDo,
}
use lumigo_kubernetes_operat.Controllers.Retry.{
  retry, retry_lem, up_to_times, max_mutation_retry_attempts, retry_on_mutation_error_matcher,
}
use lumigo_kubernetes_operat.Controllers.Resources.{
  add_auto_trace_skip_next_injector_label, remove_attempt, remove_lumigo_from_resources,
  remove_lumigo_from_all_namespaces, inject_lumigo_into_resources,
}
use lumigo_kubernetes_operat.Controllers.Writes.{IsKept, IsRemoval, removed, IsInjection}
use lumigo_kubernetes_operat.Controllers.Removing.{
  removal_writes_only_removals, removal_from_all_namespaces_writes_only_removals,
}
use lumigo_kubernetes_operat.Controllers.Injecting.{injection_writes_only_injections}
use lumigo_kubernetes_operat.Controllers.Skipping.{IsPassedOn, removal_is_not_reinjected}
use lumigo_kubernetes_operat.Controllers.NamespaceConfigs.{
  NamespaceMonitoringConfig, Files, content, updated_namespaces, is_upsert,
  update_telemetry_proxy_monitoring_of_namespace,
}
use lumigo_kubernetes_operat.Controllers.NamespaceConfigs.Entries.{
  entries_of, updated_entries, is_sorted, IsRead, update_true_iff,
}
use mathlib.Core.List.{Permᴰ}
use lumigo_kubernetes_operat.Examples.NameSort.{insertion_sort, insertion_sort-IsNameSort}
use lumigo_kubernetes_operat.Examples.{
  libs, config, spec, web, web_container, meta, pod_spec, new_lumigo, active_lumigo,
}

abbrev continue_with : {S : Type 0} → (S → S × Verdict) → S × (Bool × Verdict) → S × Verdict
continue_with again (s, (true, erred e)) = again s
continue_with again (s, (false, erred e)) = (s, erred e)
continue_with again (s, (b, completed)) = (s, completed)
continue_with again (s, (b, crashed)) = (s, crashed)

-- A `try.Do` of at most `k` attempts, from attempt number `n` on.
unfoldable pub try_from : {S : Type 0} → ℕ → ℕ → (ℕ → S → S × (Bool × Verdict)) → S → S × Verdict
try_from zero n f s = (s, erred (errorf "exceeded retry limit" []))
try_from (suc k) n f s = continue_with (try_from k (suc n) f) (f n s)

pub try_from-Tries :
    {S : Type 0} (f : ℕ → S → S × (Bool × Verdict)) {k n : ℕ} {s s' : S} {v : Verdict}
    → Tries f k n s s' v
    → try_from k n f s ≡ (s', v)
unfolding try_from
try_from-Tries f (succeeds h) = rw h
try_from-Tries f (panics h) = rw h
try_from-Tries f (gives_up h) = rw h
try_from-Tries f (retries h t) = rw (h, try_from-Tries f t)

abbrev Writes : Type 0
Writes = List (WorkloadKind × Workload)

abbrev instrumented_pod : PodSpec
instrumented_pod = record pod_spec {
  containers = some (
      record web_container {
        env = some (record { name = "LUMIGO_TRACER_TOKEN"; value = "t"; value_from = none } ∷ []);
      }
      ∷ []);
}

abbrev instrumented_web : Workload
instrumented_web = record web {
  meta = record meta { labels = some (("lumigo.auto-trace", "lumigo-operator.v1.2.3") ∷ []) };
  template = record { meta = meta; spec = instrumented_pod };
}

-- A cluster with one deployment in every namespace, of which there is one.
abbrev cluster : Cluster Writes
cluster = record {
  libs = libs;
  list_workloads = λ kind namespace selector world.
      (world, inr (elim kind [ deployment ↦ instrumented_web ∷ [] | _ ↦ [] ]));
  get = λ kind namespace name s. ((s.0, instrumented_web), none);
  update = λ kind w world. ((kind, w) ∷ world, none);
  record_event = λ event world. world;
  list_namespaces = λ world. (world, inr ("shop" ∷ []));
  new_requirement = λ key values. none;
  try_do = try_from 10 1;
}

cluster-IsTryDo : IsTryDo cluster
unfolding IsTryDo
cluster-IsTryDo f s s' v t = try_from-Tries f t

AllWrites : (WorkloadKind → Workload → Type 0) → Writes → Type 0
AllWrites IsWrite [] = Unit
AllWrites IsWrite ((kind, w) ∷ ws) = IsWrite kind w × AllWrites IsWrite ws

AllWrites-IsKept :
    (IsWrite : WorkloadKind → Workload → Type 0) → IsKept cluster IsWrite (AllWrites IsWrite)
unfolding AllWrites
AllWrites-IsKept IsWrite = record {
  listing = λ kind namespace selector world p. p;
  getting = λ kind namespace name s p. p;
  updating = λ kind w world is p. (is, p);
  recording = λ event world p. p;
  listing_namespaces = λ world p. p;
}

no_writes : (IsWrite : WorkloadKind → Workload → Type 0) → AllWrites IsWrite []
unfolding AllWrites
no_writes IsWrite = tt

retry_lem_example :
    retry cluster
      (remove_attempt cluster deployment)
      max_mutation_retry_attempts
      retry_on_mutation_error_matcher
      ([], instrumented_web)
    ≡ up_to_times 4 (remove_attempt cluster deployment) ([], instrumented_web)
retry_lem_example =
    retry_lem cluster cluster-IsTryDo (remove_attempt cluster deployment) ([], instrumented_web)

removal_writes_only_removals_example :
    AllWrites (IsRemoval libs) (remove_lumigo_from_resources cluster "shop" "a test" []).0
removal_writes_only_removals_example =
    removal_writes_only_removals cluster cluster-IsTryDo {P = AllWrites (IsRemoval libs)}
      (AllWrites-IsKept (IsRemoval libs)) "shop" "a test" [] (no_writes (IsRemoval libs))

removal_from_all_namespaces_writes_only_removals_example :
    AllWrites (IsRemoval libs) (remove_lumigo_from_all_namespaces cluster "a test" []).0
removal_from_all_namespaces_writes_only_removals_example =
    removal_from_all_namespaces_writes_only_removals cluster cluster-IsTryDo
      {P = AllWrites (IsRemoval libs)} (AllWrites-IsKept (IsRemoval libs)) "a test" []
      (no_writes (IsRemoval libs))

injection_writes_only_injections_example :
    AllWrites
      (IsInjection libs (new_injecting_mutator_from_spec config (some spec)))
      (inject_lumigo_into_resources cluster config new_lumigo []).0
injection_writes_only_injections_example =
    injection_writes_only_injections cluster config
      (AllWrites (IsInjection libs (new_injecting_mutator_from_spec config (some spec))))
      cluster-IsTryDo new_lumigo []
      (AllWrites-IsKept (IsInjection libs (new_injecting_mutator_from_spec config (some spec))))
      (no_writes (IsInjection libs (new_injecting_mutator_from_spec config (some spec))))

abbrev cleaned_web : Workload
cleaned_web = (remove_lumigo_from_kind libs deployment instrumented_web).0

abbrev marked_web : Workload
marked_web = record cleaned_web {
  meta = record cleaned_web.meta {
    labels = some (("lumigo.auto-trace", "skip-next-injector") ∷ []);
  };
}

marked_web-IsRemoval : IsRemoval libs deployment marked_web
unfolding remove_lumigo_from_kind remove_lumigo_from remove_lumigo_from_pod_spec remove_where
    clean_container is_injected_env contains deep_equal deep_equal_env deep_equal_mounts
    remove_auto_trace_label delete_label drop_entry add_auto_trace_skip_next_injector_label
    assign_label put_entry
marked_web-IsRemoval = removed instrumented_web cleaned_web (λ e. cc e) refl refl

abbrev injecting : Injector.Services
injecting = record {
  libs = libs;
  decode = λ kind raw. inr marked_web;
  marshal = λ resource. inr "patched";
  list = λ namespace. found (active_lumigo ∷ []);
}

abbrev deployment_update : Request
deployment_update = record {
  operation = update;
  kind = record { group = "apps"; version = "v1"; kind = "Deployment" };
  raw = "sent";
}

update_adapted :
    new_resource_adapter injecting deployment_update.kind deployment_update.raw
    ≡ inr (some (deployment, marked_web))
unfolding new_resource_adapter adapted_kind s_gvk
update_adapted = refl

removal_is_not_reinjected_example :
    IsPassedOn injecting deployment_update deployment marked_web
      (handle injecting config deployment_update)
    × ((lumigo : Lumigo) (others : List Lumigo) (out : String)
        → injecting.list "shop" ≡ found (lumigo ∷ others)
        → is_disabled lumigo.spec.tracing.injection.enabled ≡ false
        → is_active lumigo ≡ true
        → injecting.marshal (object deployment (without_label marked_web)) ≡ inr out
        → handle injecting config deployment_update ≡ answered (patched "sent" out) [])
removal_is_not_reinjected_example =
    removal_is_not_reinjected injecting deployment_update libs config deployment marked_web
      marked_web-IsRemoval (λ e. cc e) update_adapted

abbrev shop_config : NamespaceMonitoringConfig
shop_config = record { token = "t_1"; name = "shop"; uid = "u1" }

abbrev bank_config : NamespaceMonitoringConfig
bank_config = record { token = "t_2"; name = "bank"; uid = "u2" }

-- After the shop's namespace is added, the bank's has the entry that it had.
updated_entries_example :
    ((n : String)
      → Permᴰ
          (entries_of n (items (updated_namespaces insertion_sort shop_config (bank_config ∷ []))))
          (if "shop" == n
            then (if is_upsert shop_config then shop_config ∷ [] else [])
            else (if "shop" == "" then [] else entries_of n (bank_config ∷ []))))
    × (is_sorted (items (updated_namespaces insertion_sort shop_config (bank_config ∷ []))) ≡ true)
updated_entries_example =
    updated_entries insertion_sort insertion_sort-IsNameSort shop_config (bank_config ∷ [])

-- The world is the content of the file; the coding knows three contents.
abbrev files : Files String
files = record {
  read_file = λ world. content world;
  write_file = λ bytes world. (bytes, none);
  unmarshal = λ bytes. inr (if bytes == "bank" then some (bank_config ∷ []) else none);
  marshal = λ namespaces. inr "both";
  sort_by_name = insertion_sort;
}

update_true_iff_example :
    (update_telemetry_proxy_monitoring_of_namespace files "/config" shop_config "bank"
      ≡ ("both", inr true))
    ↔ ((bytes out : String) × (namespaces : Slice NamespaceMonitoringConfig) × IsRead files "bank"
          bytes namespaces
        × (files.marshal (updated_namespaces files.sort_by_name shop_config (items namespaces))
            ≡ inr out)
        × ((bytes == out) ≡ false)
        × (files.write_file out "bank" ≡ ("both", none)))
update_true_iff_example = update_true_iff files "/config" shop_config "bank" "both"
