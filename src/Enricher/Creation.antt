-- ===== src/Enricher/Creation.antt =====
-- `New` of internal/kube.go: a client with empty caches.
use lumigo_kubernetes_operat.Prelude.{ℕ, ◌*◌, false, [], Fallible, inl, inr}
use lumigo_kubernetes_operat.Enricher.External.{Libraries}
use lumigo_kubernetes_operat.Enricher.Client.{KubeClient}

abbrev pub default_cache_max_entries : ℕ
default_cache_max_entries = 1000

-- a call, and what follows it if it returns no error
abbrev pub and_then : {A B : Type 0} → Fallible A → (A → Fallible B) → Fallible B
and_then (inl e) rest = inl e
and_then (inr a) rest = rest a

-- the client with the caches that are created for it, or the first error
abbrev pub client_with :
    (libs : Libraries) (u p ds d rs ss cj j : Fallible libs.Cache) → Fallible (KubeClient libs)
client_with libs u p ds d rs ss cj j = and_then u λ pod_uids. and_then p λ pods.
    and_then ds λ daemon_sets. and_then d λ deployments. and_then rs λ replica_sets.
      and_then ss λ stateful_sets. and_then cj λ cron_jobs. and_then j λ jobs. inr (record {
        provider_id = "";
        namespaces = libs.empty_store;
        pod_uid_cache = pod_uids;
        pod_cache = pods;
        daemon_set_cache = daemon_sets;
        deployment_cache = deployments;
        replica_set_cache = replica_sets;
        stateful_set_cache = stateful_sets;
        cron_job_cache = cron_jobs;
        job_cache = jobs;
        object_resource_versions = [];
        is_started = false;
      })

unfoldable pub new_kube_client : (libs : Libraries) → Fallible (KubeClient libs)
new_kube_client libs =
    client_with libs (libs.new_cache (default_cache_max_entries * 15))
      (libs.new_cache (default_cache_max_entries * 10)) (libs.new_cache default_cache_max_entries)
      (libs.new_cache default_cache_max_entries) (libs.new_cache default_cache_max_entries)
      (libs.new_cache default_cache_max_entries) (libs.new_cache default_cache_max_entries)
      (libs.new_cache default_cache_max_entries)
