-- ===== src/Mutation/Removal.antt =====
-- Removing what was injected, for a whole object: its pod spec and the labels of its metadata
-- (mutation/mutate.go, removeLumigoFrom after injectLumigoInto).
use lumigo_kubernetes_operat.Prelude.{
  String, true, none, some, List, [], ◌∷◌, ◌++◌, ◌≡◌, ◌≢◌, refl, sym, inl, inr, ap, ◌∙◌, arith,
  ◌==◌, items, ok, Option-cases, Bool-cases, label, label-delete_label, find_entry,
  find_entry-put_entry, if◌then◌else◌,
}
use lumigo_kubernetes_operat.K8s.{PodSpec, ObjectMeta, Workload, Libs}
use lumigo_kubernetes_operat.K8s.Equality.{deep_equal, deep_equal_iff}
use lumigo_kubernetes_operat.Mutation.Names.{auto_trace_label_key}
use lumigo_kubernetes_operat.Mutation.Mutator.{InjectingMutator}
use lumigo_kubernetes_operat.Mutation.PodSpecs.{
  injected_pod_spec, inject_lumigo_into_pod_spec, volume_named, injector_volume, replace_or_append,
  remove_lumigo_from_pod_spec,
}
use lumigo_kubernetes_operat.Mutation.Replace.{replace_or_append-NoneOf}
use lumigo_kubernetes_operat.Mutation.Workloads.{
  inject_lumigo_into, inject_lumigo_into_template, remove_lumigo_from, add_auto_trace_label,
  remove_auto_trace_label, with_pod_spec, with_metas,
}
use lumigo_kubernetes_operat.Mutation.Idempotent.{inject-eq-ok, inject-cases}
use lumigo_kubernetes_operat.Mutation.RoundTrip.{IsFresh, normalized, remove-inject_pod_spec}

append_one-ne {ℓ} : {A : Type ℓ} (xs : List A) (v : A) → xs ++ v ∷ [] ≢ xs
append_one-ne [] v e = cc
append_one-ne (x ∷ xs) v e = append_one-ne xs v (cc)

-- An injection into a fresh pod spec shows: the volume is there.
injected-ne-normalized :
    (libs : Libs) (m : InjectingMutator) (s t : PodSpec)
    → IsFresh s
    → inject_lumigo_into_pod_spec libs m s ≡ ok t
    → t ≢ normalized s
unfolding injected_pod_spec
injected-ne-normalized libs m s t h e same =
    let (context, _, p) = inject-eq-ok libs m s t e in
    let volumes : some (replace_or_append volume_named (injector_volume libs) (items s.volumes))
        ≡ some (items s.volumes) =
      ap (λ (r : PodSpec). r.volumes) (p ∙ same) in
    append_one-ne (items s.volumes) (injector_volume libs) (
      sym
        (replace_or_append-NoneOf volume_named (injector_volume libs) (items s.volumes) h.no_volume)
      ∙ (cc))

label-add_auto_trace_label :
    (meta : ObjectMeta) (value k : String)
    → label (add_auto_trace_label meta value).labels k
      ≡ (if auto_trace_label_key == k then some value else label meta.labels k)
unfolding add_auto_trace_label label find_entry
label-add_auto_trace_label meta value k = elim (Option-cases meta.labels) [
  | inl e ↦ rw (e, add_auto_trace_label, label)
  | inr (l, e) ↦ rw (e, label) (find_entry-put_entry auto_trace_label_key k value l)
]

label-remove_auto_trace_label :
    (meta : ObjectMeta) (k : String)
    → label (remove_auto_trace_label meta).labels k
      ≡ (if auto_trace_label_key == k then none else label meta.labels k)
unfolding remove_auto_trace_label
label-remove_auto_trace_label meta k = label-delete_label auto_trace_label_key k meta.labels

-- The labels after the injection and the removal are those of before, without the operator's own.
label-remove-add :
    (meta : ObjectMeta) (value k : String)
    → label (remove_auto_trace_label (add_auto_trace_label meta value)).labels k
      ≡ (if auto_trace_label_key == k then none else label meta.labels k)
label-remove-add meta value k = ground (
  arith,
  label-remove_auto_trace_label (add_auto_trace_label meta value) k,
  label-add_auto_trace_label meta value k,
)

inject_template_true :
    (libs : Libs) (m : InjectingMutator) (w w' : Workload)
    → inject_lumigo_into_template libs m w ≡ (w', ok true)
    → (s : PodSpec) × (inject_lumigo_into_pod_spec libs m w.template.spec ≡ ok s)
      × (with_metas (λ meta. add_auto_trace_label meta m.autotrace_label_value) (with_pod_spec w s)
          ≡ w')
unfolding inject_lumigo_into_template
inject_template_true libs m w w' h = ground arith

remove_changes :
    (w : Workload) (s : PodSpec)
    → remove_lumigo_from_pod_spec w.template.spec ≡ s
    → w.template.spec ≢ s
    → remove_lumigo_from w ≡ (with_metas remove_auto_trace_label (with_pod_spec w s), ok true)
unfolding remove_lumigo_from
remove_changes w s e n = rw e (elim (Bool-cases (deep_equal w.template.spec s)) [
  | inl same ↦ absurd (n ((deep_equal_iff w.template.spec s).0 same))
  | inr differs ↦ rw differs
])

-- The labels of `new` are those of `old`, without the operator's own.
abbrev pub LosesLabel : ObjectMeta → ObjectMeta → Type 0
LosesLabel old new =
    (k : String)
    → label new.labels k ≡ (if auto_trace_label_key == k then none else label old.labels k)

-- An object whose pod spec has no trace of the injection, and which the injection changes, is given
-- back by the removal: the removal succeeds and reports a change, the pod spec is the original
-- one, with nil slices made empty, and object and pod template have their original labels, without
-- the operator's own.
pub remove-inject :
    (libs : Libs) (m : InjectingMutator) (w w' : Workload)
    → IsFresh w.template.spec
    → inject_lumigo_into libs m w ≡ (w', ok true)
    → (v : Workload) × (remove_lumigo_from w' ≡ (v, ok true))
      × (v.template.spec ≡ normalized w.template.spec)
      × LosesLabel w.meta v.meta
      × LosesLabel w.template.meta v.template.meta
remove-inject libs m w w' fresh h =
    let (s, e, p) = inject_template_true libs m w w' (inject-cases libs m w w' true h).1 in
    let changed =
      remove_changes (labelled s) (normalized w.template.spec)
        (remove-inject_pod_spec libs m w.template.spec s fresh e)
        (injected-ne-normalized libs m w.template.spec s fresh e) in
    (
      with_metas remove_auto_trace_label (with_pod_spec (labelled s) (normalized w.template.spec)),
      rw (← p) changed,
      refl,
      label-remove-add w.meta m.autotrace_label_value,
      label-remove-add w.template.meta m.autotrace_label_value,
    )
  where
    labelled : PodSpec → Workload
    labelled s =
        with_metas (λ meta. add_auto_trace_label meta m.autotrace_label_value) (with_pod_spec w s)
