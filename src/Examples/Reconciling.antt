-- ===== src/Examples/Reconciling.antt =====
-- The theorems on reconciliations, for a cluster whose world is the list of
-- the statuses written, the last one first.
use lumigo_kubernetes_operat.Prelude.{true, false, none, List, [], ◌∷◌, ◌≡◌, refl, inl, inr, errorf}
use lumigo_kubernetes_operat.K8s.{found}
use lumigo_kubernetes_operat.Api.{Lumigo}
use lumigo_kubernetes_operat.Controllers.Cluster.{Cluster, IsTryDo}
use lumigo_kubernetes_operat.Controllers.NamespaceConfigs.{not_exist}
use lumigo_kubernetes_operat.Controllers.Reconciler.{Services}
use lumigo_kubernetes_operat.Controllers.Reconciler.Steps.{reconcile}
use lumigo_kubernetes_operat.Controllers.Reconciler.Consistency.{is_consistent, IsKeptByConsistent}
use lumigo_kubernetes_operat.Controllers.Reconciler.Statuses.{reconcile_writes_consistent_statuses}
use lumigo_kubernetes_operat.Controllers.Reconciler.{has_other, is_superseded}
use lumigo_kubernetes_operat.Controllers.Reconciler.Precedence.{none_before, only_oldest_proceeds}
use mathlib.Core.List.{Memᴰ}
use lumigo_kubernetes_operat.Examples.TimeSort.{sort_by, sort_by-IsTimeSort}
use lumigo_kubernetes_operat.Examples.NameSort.{insertion_sort}
use lumigo_kubernetes_operat.Examples.{libs, config, web, new_lumigo}
use lumigo_kubernetes_operat.Examples.Controlling.{try_from, try_from-Tries}
use lumigo_kubernetes_operat.Examples.Requesting.{reads}

abbrev Statuses : Type 0
Statuses = List Lumigo

abbrev cluster : Cluster Statuses
cluster = record {
  libs = libs;
  list_workloads = λ kind namespace selector world. (world, inr (web ∷ []));
  get = λ kind namespace name s. (s, none);
  update = λ kind w world. (world, none);
  record_event = λ event world. world;
  list_namespaces = λ world. (world, inr ("shop" ∷ []));
  new_requirement = λ key values. none;
  try_do = try_from 10 1;
}

cluster-IsTryDo : IsTryDo cluster
unfolding IsTryDo
cluster-IsTryDo f s s' v t = try_from-Tries f t

abbrev services : Services Statuses
services = record {
  cluster = cluster;
  files = record {
    read_file = λ world. not_exist;
    write_file = λ bytes world. (world, none);
    unmarshal = λ bytes. inr none;
    marshal = λ namespaces. inr "namespaces";
    sort_by_name = insertion_sort;
  };
  reads = λ world. reads;
  get_namespace = λ namespace world. found "u1";
  get_lumigo = λ namespace name world. found new_lumigo;
  update_lumigo = λ lumigo world. ((world, lumigo), none);
  update_status = λ lumigo world. ((lumigo ∷ world, lumigo), none);
  contains_finalizer = λ finalizer finalizers. false;
  add_finalizer = λ finalizer finalizers. finalizer ∷ finalizers;
  remove_finalizer = λ finalizer finalizers. [];
  list_dangling_events = λ namespace world. inr [];
  update_event = λ event world. (world, none);
  get_object = λ group_version resource namespace name world. inl (errorf "not found" []);
  to_lower = λ s. s;
  get_reference = λ kind w. inr (record {
    api_version = "apps/v1";
    kind = "Deployment";
    namespace = w.meta.namespace;
    name = w.meta.name;
    uid = w.meta.uid;
    resource_version = "1";
  });
  sort_lumigoes = sort_by;
  sort_workloads = sort_by;
  text = λ e. "an error";
}

AreConsistent : Statuses → Type 0
AreConsistent [] = Unit
AreConsistent (lumigo ∷ statuses) = (is_consistent lumigo ≡ true) × AreConsistent statuses

AreConsistent-IsKeptByConsistent : IsKeptByConsistent services AreConsistent
unfolding AreConsistent
AreConsistent-IsKeptByConsistent = record {
  cluster_kept = record {
    listing = λ kind namespace selector world p. p;
    getting = λ kind namespace name s p. p;
    updating = λ kind w world is p. p;
    recording = λ event world p. p;
    listing_namespaces = λ world p. p;
  };
  file_written = λ bytes world p. p;
  lumigo_updated = λ lumigo world p. p;
  status_updated = λ lumigo world c p. (c, p);
  event_updated = λ event world p. p;
}

none_written : AreConsistent []
unfolding AreConsistent
none_written = tt

reconcile_writes_consistent_statuses_example :
    AreConsistent (reconcile services config "/config" 2 "shop" "lumigo" []).0
reconcile_writes_consistent_statuses_example =
    reconcile_writes_consistent_statuses services config "/config" 2 cluster-IsTryDo
      AreConsistent-IsKeptByConsistent "shop" "lumigo" [] none_written

abbrev second_lumigo : Lumigo
second_lumigo = record new_lumigo {
  meta = record new_lumigo.meta { name = "second"; uid = "3"; creation_timestamp = 5 };
}

second_is_other : has_other "lumigo" (second_lumigo ∷ new_lumigo ∷ []) ≡ true
unfolding has_other
second_is_other = refl

new_lumigo_proceeds : is_superseded sort_by new_lumigo (second_lumigo ∷ new_lumigo ∷ []) ≡ false
unfolding is_superseded has_other
new_lumigo_proceeds = refl

only_oldest_proceeds_example :
    (first : Lumigo) × Memᴰ first (second_lumigo ∷ new_lumigo ∷ [])
    × (first.meta.uid ≡ new_lumigo.meta.uid)
    × (none_before first.meta.creation_timestamp (second_lumigo ∷ new_lumigo ∷ []) ≡ true)
only_oldest_proceeds_example =
    only_oldest_proceeds sort_by sort_by-IsTimeSort new_lumigo (second_lumigo ∷ new_lumigo ∷ [])
      second_is_other new_lumigo_proceeds
