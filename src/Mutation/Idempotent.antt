-- ===== src/Mutation/Idempotent.antt =====
-- Injecting twice is injecting once (mutation/mutate.go, injectLumigoInto and what it calls).
use text.Mathlib.TextLemmas.{cons-append}
use lumigo_kubernetes_operat.Prelude.{
  String, Bool, false, some, List, [], ◌∷◌, map, ◌≡◌, refl, ◌⊎◌, inl, inr, ap, ◌∙◌, arith, items,
  ok, Option-cases, label_or_empty, lower_is, find_entry-put_entry,
}
use lumigo_kubernetes_operat.K8s.{
  Container, PodSpec, PodSecurityContext, Workload, Libs, ObjectMeta,
}
use lumigo_kubernetes_operat.K8s.Equality.{deep_equal_iff}
use lumigo_kubernetes_operat.Mutation.Names.{auto_trace_label_key}
use lumigo_kubernetes_operat.Mutation.Mutator.{
  InjectingMutator, version_label_value, truncate_version,
}
use lumigo_kubernetes_operat.Mutation.PodSpecs.{
  lumigo_env, patch_container, injector_volume, injector_volume_mount, injector_container,
  injected_pod_spec, inject_lumigo_into_pod_spec, mounted_at_target, volume_named, container_named,
}
use lumigo_kubernetes_operat.Mutation.Workloads.{
  inject_lumigo_into, inject_lumigo_into_template, opts_out, add_auto_trace_label,
}
use lumigo_kubernetes_operat.Mutation.Replace.{replace_or_append_idem}
use lumigo_kubernetes_operat.Mutation.Env.{set_all_env_idem, lumigo_env-HasDistinctNames}

patch_container_idem :
    (m : InjectingMutator) (c : Container)
    → patch_container m (patch_container m c) ≡ patch_container m c
unfolding patch_container injector_volume_mount
patch_container_idem m c = cc (
  set_all_env_idem (lumigo_env m c.name) (items c.env) (lumigo_env-HasDistinctNames m c.name),
  replace_or_append_idem mounted_at_target injector_volume_mount (items c.volume_mounts) refl,
)

map-patch_container_idem :
    (m : InjectingMutator) (cs : List Container)
    → map (patch_container m) (map (patch_container m) cs) ≡ map (patch_container m) cs
map-patch_container_idem m [] = refl
map-patch_container_idem m (c ∷ cs) = cc (patch_container_idem m c, map-patch_container_idem m cs)

injected_pod_spec_idem :
    (libs : Libs) (m : InjectingMutator) (context : PodSecurityContext) (s : PodSpec)
    → injected_pod_spec libs m context (injected_pod_spec libs m context s)
      ≡ injected_pod_spec libs m context s
unfolding injected_pod_spec injector_volume injector_container
injected_pod_spec_idem libs m context s = cc (
  replace_or_append_idem volume_named (injector_volume libs) (items s.volumes) refl,
  replace_or_append_idem container_named (injector_container m context) (items s.init_containers)
      refl,
  map-patch_container_idem m (items s.containers),
)

security_context-injected_pod_spec :
    (libs : Libs) (m : InjectingMutator) (context : PodSecurityContext) (s : PodSpec)
    → (injected_pod_spec libs m context s).security_context ≡ s.security_context
unfolding injected_pod_spec
security_context-injected_pod_spec libs m context s = refl

pub inject-eq-ok :
    (libs : Libs) (m : InjectingMutator) (s t : PodSpec)
    → inject_lumigo_into_pod_spec libs m s ≡ ok t
    → (context : PodSecurityContext) × (s.security_context ≡ some context)
      × (injected_pod_spec libs m context s ≡ t)
unfolding inject_lumigo_into_pod_spec
inject-eq-ok libs m s t h = ground arith

inject-eq-injected_pod_spec :
    (libs : Libs) (m : InjectingMutator) (s : PodSpec) (context : PodSecurityContext)
    → s.security_context ≡ some context
    → inject_lumigo_into_pod_spec libs m s ≡ ok (injected_pod_spec libs m context s)
unfolding inject_lumigo_into_pod_spec
inject-eq-injected_pod_spec libs m s context h = ground arith

-- Injecting an injected pod spec leaves it as it is.
inject_lumigo_into_pod_spec_idem :
    (libs : Libs) (m : InjectingMutator) (s t : PodSpec)
    → inject_lumigo_into_pod_spec libs m s ≡ ok t
    → inject_lumigo_into_pod_spec libs m t ≡ ok t
inject_lumigo_into_pod_spec_idem libs m s t h =
    let (context, e, p) = inject-eq-ok libs m s t h in
    rw (← p) (
      inject-eq-injected_pod_spec libs m (injected_pod_spec libs m context s) context
        (security_context-injected_pod_spec libs m context s ∙ e)
      ∙ ap ok (injected_pod_spec_idem libs m context s))

-- The label that the operator writes is never the one by which an object opts out.
version_label-not_opt_out :
    (version : String) → lower_is (version_label_value version) "false" ≡ false
unfolding version_label_value lower_is
version_label-not_opt_out version =
    ap (λ s. lower_is s "false") (cons-append "l" "umigo-operator.v" (truncate_version version))

label-add_auto_trace_label :
    (meta : ObjectMeta) (value : String)
    → label_or_empty (add_auto_trace_label meta value).labels auto_trace_label_key ≡ value
unfolding add_auto_trace_label label_or_empty
label-add_auto_trace_label meta value = elim (Option-cases meta.labels) [
  | inl e ↦ rw (e, add_auto_trace_label)
  | inr (l, e) ↦ rw (e, find_entry-put_entry auto_trace_label_key auto_trace_label_key value l) refl
]

pub inject_template-cases :
    (libs : Libs) (m : InjectingMutator) (w w' : Workload) (b : Bool)
    → inject_lumigo_into_template libs m w ≡ (w', ok b)
    → (inject_lumigo_into_pod_spec libs m w.template.spec ≡ ok w'.template.spec)
      × ((w'.meta ≡ w.meta) ⊎ (w'.meta ≡ add_auto_trace_label w.meta m.autotrace_label_value))
unfolding inject_lumigo_into_template
inject_template-cases libs m w w' b h = ground arith

inject_template_unchanged :
    (libs : Libs) (m : InjectingMutator) (w : Workload)
    → inject_lumigo_into_pod_spec libs m w.template.spec ≡ ok w.template.spec
    → inject_lumigo_into_template libs m w ≡ (w, ok false)
unfolding inject_lumigo_into_template
inject_template_unchanged libs m w h =
    ground (arith, (deep_equal_iff w.template.spec w.template.spec).1 refl)

pub inject-cases :
    (libs : Libs) (m : InjectingMutator) (w w' : Workload) (b : Bool)
    → inject_lumigo_into libs m w ≡ (w', ok b)
    → (opts_out w.meta ≡ false) × (inject_lumigo_into_template libs m w ≡ (w', ok b))
unfolding inject_lumigo_into
inject-cases libs m w w' b h = ground arith

opts_out-add_auto_trace_label :
    (meta : ObjectMeta) (version : String)
    → opts_out (add_auto_trace_label meta (version_label_value version)) ≡ false
unfolding opts_out
opts_out-add_auto_trace_label meta version =
    rw (label-add_auto_trace_label meta (version_label_value version))
      (version_label-not_opt_out version)

-- A second injection by the same mutator, labelled for an operator version as all mutators are,
-- succeeds, reports that nothing changed, and leaves the object as the first one left it.
pub inject_lumigo_into_idem :
    (libs : Libs) (m : InjectingMutator) (version : String) (w w' : Workload) (b : Bool)
    → m.autotrace_label_value ≡ version_label_value version
    → inject_lumigo_into libs m w ≡ (w', ok b)
    → inject_lumigo_into libs m w' ≡ (w', ok false)
inject_lumigo_into_idem libs m version w w' b v h =
    let (stays, first) = inject-cases libs m w w' b h in
    let (spec, metas) = inject_template-cases libs m w w' b first in
    let again =
      inject_template_unchanged libs m w'
        (inject_lumigo_into_pod_spec_idem libs m w.template.spec w'.template.spec spec) in
    let enabled : opts_out w'.meta ≡ false = elim metas [
      | inl same ↦ rw same stays
      | inr added ↦ rw (added, v) (opts_out-add_auto_trace_label w.meta version)
    ] in
    unfold inject_lumigo_into in rw enabled again
