-- ===== src/Mutation/RoundTrip.antt =====
-- Removing what was injected (mutation/mutate.go, removeLumigoFrom after injectLumigoInto).

use lumigo_kubernetes_operat.Prelude.{
  String, true, some, List, [], ◌∷◌, map, ◌≡◌, refl, ap, ◌∙◌, arith, eq_iff, items, ok,
}
use lumigo_kubernetes_operat.K8s.{EnvVar, Volume, Container, PodSpec, PodSecurityContext, Libs}
use lumigo_kubernetes_operat.K8s.Equality.{deep_equal_env, deep_equal_mounts}
use lumigo_kubernetes_operat.Mutation.Mutator.{InjectingMutator}
use lumigo_kubernetes_operat.Mutation.Matchers.{injector_container_match, injector_volume_match}
use lumigo_kubernetes_operat.Mutation.PodSpecs.{
  remove_where, replace_or_append, set_all_env, env_named, lumigo_env, patch_container,
  injector_volume, injector_volume_mount, injector_container, injected_pod_spec,
  inject_lumigo_into_pod_spec, mounted_at_target, volume_named, container_named, is_injected_env,
  mounts_injector_volume, clean_container, is_injector_container, is_injector_volume,
  remove_lumigo_from_pod_spec,
}
use lumigo_kubernetes_operat.Mutation.Replace.{
  NoneOf, replace_or_append-NoneOf, remove_where-NoneOf, remove_where-append_one,
  remove_where-replace_or_append, NoneOf-of_imp,
}
use lumigo_kubernetes_operat.Mutation.Idempotent.{inject-eq-ok}

-- A container shows no trace of the injection.
pub record IsFreshContainer (c : Container) : Type 0 where
  pub no_target_mount : NoneOf mounted_at_target (items c.volume_mounts)
  pub no_injector_mount : NoneOf mounts_injector_volume (items c.volume_mounts)
  pub no_injected_env : NoneOf is_injected_env (items c.env)

abbrev pub AreFresh : List Container → Type 0
AreFresh [] = Unit
AreFresh (c ∷ cs) = IsFreshContainer c × AreFresh cs

-- A pod spec shows no trace of the injection.
pub record IsFresh (s : PodSpec) : Type 0 where
  pub no_volume : NoneOf volume_named (items s.volumes)
  pub no_init_container : NoneOf container_named (items s.init_containers)
  pub fresh_containers : AreFresh (items s.containers)

-- The slices that the injection makes non-nil.
abbrev with_slices : Container → Container
with_slices c = record c { env = some (items c.env); volume_mounts = some (items c.volume_mounts) }

abbrev pub normalized : PodSpec → PodSpec
normalized s = record s {
  volumes = some (items s.volumes);
  init_containers = some (items s.init_containers);
  containers = some (map with_slices (items s.containers));
}

abbrev pub AllRemoved : List EnvVar → Type 0
AllRemoved [] = Unit
AllRemoved (e ∷ es) = (is_injected_env e ≡ true) × AllRemoved es

pub same_name_removed :
    (e x : EnvVar) → is_injected_env e ≡ true → env_named e.name x ≡ true → is_injected_env x ≡ true
unfolding is_injected_env
same_name_removed e x h n = rw ((eq_iff x.name e.name).0 n) h

remove-set_all_env :
    (es env : List EnvVar)
    → AllRemoved es
    → remove_where is_injected_env (set_all_env es env) ≡ remove_where is_injected_env env
unfolding set_all_env
remove-set_all_env [] env h = refl
remove-set_all_env (e ∷ es) env h =
    remove-set_all_env es _ h.1
    ∙ remove_where-replace_or_append (env_named e.name) is_injected_env e env
        (λ x. same_name_removed e x h.0) h.0

pub AllRemoved-lumigo_env : (m : InjectingMutator) (name : String) → AllRemoved (lumigo_env m name)
unfolding lumigo_env is_injected_env
AllRemoved-lumigo_env m name = (refl, (refl, (refl, (refl, (refl, (refl, (refl, tt)))))))

clean-patch_container :
    (m : InjectingMutator) (c : Container)
    → IsFreshContainer c
    → clean_container (patch_container m c) ≡ with_slices c
unfolding clean_container patch_container injector_volume_mount
clean-patch_container m c h = cc (
  remove-set_all_env (lumigo_env m c.name) (items c.env) (AllRemoved-lumigo_env m c.name),
  remove_where-NoneOf is_injected_env (items c.env) h.no_injected_env,
  replace_or_append-NoneOf mounted_at_target injector_volume_mount (items c.volume_mounts)
      h.no_target_mount,
  remove_where-append_one mounts_injector_volume (items c.volume_mounts) injector_volume_mount
      h.no_injector_mount refl,
)

map-clean-patch :
    (m : InjectingMutator) (cs : List Container)
    → AreFresh cs
    → map clean_container (map (patch_container m) cs) ≡ map with_slices cs
map-clean-patch m [] h = refl
map-clean-patch m (c ∷ cs) h = cc (clean-patch_container m c h.0, map-clean-patch m cs h.1)

injector_volume_named : (v : Volume) → is_injector_volume v ≡ true → volume_named v ≡ true
unfolding injector_volume_match
injector_volume_named v h = ground arith

injector_container_named :
    (c : Container) → is_injector_container c ≡ true → container_named c ≡ true
unfolding injector_container_match
injector_container_named c h = ground arith

is_injector_container_self :
    (m : InjectingMutator) (context : PodSecurityContext)
    → is_injector_container (injector_container m context) ≡ true
unfolding injector_container injector_container_match deep_equal_env deep_equal_mounts
is_injector_container_self m context = refl

is_injector_volume_self : (libs : Libs) → is_injector_volume (injector_volume libs) ≡ true
unfolding injector_volume injector_volume_match
is_injector_volume_self libs = refl

volumes-restored :
    (libs : Libs) (vs : List Volume)
    → NoneOf volume_named vs
    → remove_where is_injector_volume (replace_or_append volume_named (injector_volume libs) vs)
      ≡ vs
volumes-restored libs vs h =
    ap (remove_where is_injector_volume)
      (replace_or_append-NoneOf volume_named (injector_volume libs) vs h)
    ∙ remove_where-append_one is_injector_volume vs (injector_volume libs)
        (NoneOf-of_imp is_injector_volume volume_named vs injector_volume_named h)
        (is_injector_volume_self libs)

init_containers-restored :
    (m : InjectingMutator) (context : PodSecurityContext) (cs : List Container)
    → NoneOf container_named cs
    → remove_where is_injector_container
        (replace_or_append container_named (injector_container m context) cs)
      ≡ cs
init_containers-restored m context cs h =
    ap (remove_where is_injector_container)
      (replace_or_append-NoneOf container_named (injector_container m context) cs h)
    ∙ remove_where-append_one is_injector_container cs (injector_container m context)
        (NoneOf-of_imp is_injector_container container_named cs injector_container_named h)
        (is_injector_container_self m context)

remove-injected_pod_spec :
    (libs : Libs) (m : InjectingMutator) (context : PodSecurityContext) (s : PodSpec)
    → IsFresh s
    → remove_lumigo_from_pod_spec (injected_pod_spec libs m context s) ≡ normalized s
unfolding remove_lumigo_from_pod_spec injected_pod_spec
remove-injected_pod_spec libs m context s h = cc (
  volumes-restored libs (items s.volumes) h.no_volume,
  init_containers-restored m context (items s.init_containers) h.no_init_container,
  map-clean-patch m (items s.containers) h.fresh_containers,
)

-- What the injection makes of a pod spec without traces of it, the removal turns back into that
-- spec, with its nil slices of volumes, containers, variables and mounts become empty ones.
pub remove-inject_pod_spec :
    (libs : Libs) (m : InjectingMutator) (s t : PodSpec)
    → IsFresh s
    → inject_lumigo_into_pod_spec libs m s ≡ ok t
    → remove_lumigo_from_pod_spec t ≡ normalized s
remove-inject_pod_spec libs m s t h e =
    let (context, _, p) = inject-eq-ok libs m s t e in
    rw (← p) (remove-injected_pod_spec libs m context s h)
