-- ===== src/Mutation/Recognised.antt =====
-- What the matchers make of injected objects (mutation/matchers.go against mutation/mutate.go).
use mathlib.Core.List.{append-nil, append_assoc}
use lumigo_kubernetes_operat.Prelude.{
  String, Bool, true, false, none, List, [], ◌∷◌, ◌++◌, map, ◌≡◌, refl, sym, ap, ◌∙◌, arith, eq_iff,
  eq_refl, items, ok,
}
use lumigo_kubernetes_operat.K8s.{
  EnvVar, VolumeMount, Container, ObjectMeta, PodSecurityContext, Workload, Libs,
}
use lumigo_kubernetes_operat.K8s.Equality.{deep_equal_env, deep_equal_mounts}
use lumigo_kubernetes_operat.Mutation.Names.{
  endpoint_env_var_name, logs_endpoint_env_var_name, enable_logs_env_var_name,
  enable_traces_env_var_name, container_name_env_var_name,
}
use lumigo_kubernetes_operat.Mutation.Mutator.{InjectingMutator}
use lumigo_kubernetes_operat.Mutation.Matchers.{Match, injector_container_match}
use lumigo_kubernetes_operat.Mutation.PodSpecs.{
  replace_or_append, set_all_env, env_named, lumigo_env, patch_container, injector_volume_mount,
  injector_container, injected_pod_spec, mounted_at_target, container_named, is_injected_env,
  mounts_injector_volume, format_bool, plain_env,
}
use lumigo_kubernetes_operat.Mutation.Replace.{NoneOf, replace_or_append-NoneOf, NoneOf-of_imp}
use lumigo_kubernetes_operat.Mutation.Workloads.{inject_lumigo_into}
use lumigo_kubernetes_operat.Mutation.Idempotent.{inject-eq-ok, inject-cases, inject_template-cases}
use lumigo_kubernetes_operat.Mutation.RoundTrip.{
  IsFresh, IsFreshContainer, AreFresh, AllRemoved, AllRemoved-lumigo_env, same_name_removed,
}
use lumigo_kubernetes_operat.Mutation.Instrumented.{
  BeInstrumentedWithLumigo, Found, nothing_found, parse_bool, check_env, check_all_env,
  check_mounts, is_container_instrumented, are_all_containers_instrumented,
  contains_injector_init_container, match_workload, if_ok, unless_ok,
}

init_container_decides :
    (b : BeInstrumentedWithLumigo) (cs : List Container) (rest : Match)
    → if_ok (contains_injector_init_container b cs) rest ≡ contains_injector_init_container b cs
unfolding contains_injector_init_container
init_container_decides b [] rest = refl
init_container_decides b (c ∷ cs) rest = ground (arith, init_container_decides b cs rest)

module _ (have_key_with_value : String → String → ObjectMeta → Match) where
  -- The matcher's answer, errors included, is that of its two first tests: whether the containers
  -- are instrumented, and then whether the injector's init container is there.
  match_workload_lem :
      (b : BeInstrumentedWithLumigo) (w : Workload)
      → match_workload have_key_with_value b w
        ≡ unless_ok
            (are_all_containers_instrumented b (items w.template.spec.containers))
            (contains_injector_init_container b (items w.template.spec.init_containers))
  unfolding match_workload
  match_workload_lem b w = rw init_container_decides

  -- Two objects with the same containers and init containers get the same answer from the matcher of
  -- instrumented objects, whatever their volumes, their labels and those of their pod templates.
  pub match_workload_ignores_volumes_and_labels :
      (b : BeInstrumentedWithLumigo) (w w' : Workload)
      → w.template.spec.containers ≡ w'.template.spec.containers
      → w.template.spec.init_containers ≡ w'.template.spec.init_containers
      → match_workload have_key_with_value b w ≡ match_workload have_key_with_value b w'
  match_workload_ignores_volumes_and_labels b w w' e f =
      cc (match_workload_lem b w, match_workload_lem b w')

abbrev Absent : List EnvVar → List EnvVar → Type 0
Absent [] env = Unit
Absent (e ∷ es) env = NoneOf (env_named e.name) env × Absent es env

abbrev Distinct : List EnvVar → Type 0
Distinct [] = Unit
Distinct (e ∷ es) = Absent es (e ∷ []) × Distinct es

NoneOf-append_one {ℓ} :
    {A : Type ℓ} (test : A → Bool) (xs : List A) (v : A)
    → NoneOf test xs
    → test v ≡ false
    → NoneOf test (xs ++ v ∷ [])
NoneOf-append_one test [] v h t = (t, tt)
NoneOf-append_one test (x ∷ xs) v h t = (h.0, NoneOf-append_one test xs v h.1 t)

Absent-append_one :
    (es env : List EnvVar) (v : EnvVar)
    → Absent es env
    → Absent es (v ∷ [])
    → Absent es (env ++ v ∷ [])
Absent-append_one [] env v h k = tt
Absent-append_one (e ∷ es) env v h k =
    (NoneOf-append_one (env_named e.name) env v h.0 k.0.0, Absent-append_one es env v h.1 k.1)

set_all_env-Absent :
    (es env : List EnvVar) → Distinct es → Absent es env → set_all_env es env ≡ env ++ es
unfolding set_all_env
set_all_env-Absent [] env d h = sym (append-nil env)
set_all_env-Absent (e ∷ es) env d h = rw (replace_or_append-NoneOf (env_named e.name) e env h.0) (
    set_all_env-Absent es (env ++ e ∷ []) d.1 (Absent-append_one es env e h.1 d.0)
    ∙ append_assoc env (e ∷ []) es)

Absent-of_fresh :
    (es env : List EnvVar) → AllRemoved es → NoneOf is_injected_env env → Absent es env
Absent-of_fresh [] env r h = tt
Absent-of_fresh (e ∷ es) env r h = (
  NoneOf-of_imp (env_named e.name) is_injected_env env (λ x. same_name_removed e x r.0) h,
  Absent-of_fresh es env r.1 h,
)

Distinct-lumigo_env : (m : InjectingMutator) (name : String) → Distinct (lumigo_env m name)
unfolding lumigo_env
Distinct-lumigo_env m name = ground arith

-- A container's environment after the injection, where it was free of the operator's variables.
fresh_env :
    (m : InjectingMutator) (name : String) (env : List EnvVar)
    → NoneOf is_injected_env env
    → set_all_env (lumigo_env m name) env ≡ env ++ lumigo_env m name
fresh_env m name env h =
    set_all_env-Absent (lumigo_env m name) env (Distinct-lumigo_env m name)
      (Absent-of_fresh (lumigo_env m name) env (AllRemoved-lumigo_env m name) h)

check_env-fresh :
    (b : BeInstrumentedWithLumigo) (e : EnvVar) (found : Found)
    → is_injected_env e ≡ false
    → check_env b e found ≡ ok found
unfolding check_env is_injected_env
check_env-fresh b e found h = ground arith

check_all_env-append :
    (b : BeInstrumentedWithLumigo) (env es : List EnvVar) (found : Found)
    → NoneOf is_injected_env env
    → check_all_env b (env ++ es) found ≡ check_all_env b es found
unfolding check_all_env
check_all_env-append b [] es found h = refl
check_all_env-append b (e ∷ env) es found h =
    rw (check_env-fresh b e found h.0, check_all_env) (check_all_env-append b env es found h.1)

-- The matcher is set up as the mutator is.
pub record Agrees (b : BeInstrumentedWithLumigo) (m : InjectingMutator) : Type 0 where
  pub same_image : b.injector_image ≡ m.injector_image
  pub same_endpoint : b.endpoint_url ≡ m.endpoint
  pub same_logs : b.logs_enabled ≡ m.enable_logs

check_all_env-step :
    (b : BeInstrumentedWithLumigo) (e : EnvVar) (es : List EnvVar) (f g : Found)
    → check_env b e f ≡ ok g
    → check_all_env b (e ∷ es) f ≡ check_all_env b es g
unfolding check_all_env
check_all_env-step b e es f g h = rw (h, check_all_env)

check_env-endpoint :
    (b : BeInstrumentedWithLumigo) (url : String) (f : Found)
    → b.endpoint_url ≡ url
    → check_env b (plain_env endpoint_env_var_name url) f ≡ ok (record f { endpoint = true })
unfolding check_env
check_env-endpoint b url f h = rw (h, eq_refl url)

check_env-enable_logs :
    (b : BeInstrumentedWithLumigo) (logs : Bool) (f : Found)
    → b.logs_enabled ≡ logs
    → check_env b (plain_env enable_logs_env_var_name (format_bool logs)) f
      ≡ ok (record f { enable_logs = true })
unfolding check_env format_bool parse_bool
check_env-enable_logs b true f h = rw h
check_env-enable_logs b false f h = rw h

abbrev found_with : Bool → Bool → Found
found_with endpoint logs = record {
  ld_preload = true;
  tracer_token = true;
  endpoint = endpoint;
  enable_logs = logs;
}

-- The variables from the switch of the logs on, and those behind it.
abbrev last_env : InjectingMutator → String → List EnvVar
last_env m name =
    plain_env enable_traces_env_var_name (format_bool m.enable_traces)
    ∷ plain_env container_name_env_var_name name
    ∷ []

abbrev logs_env : InjectingMutator → String → List EnvVar
logs_env m name = plain_env enable_logs_env_var_name (format_bool m.enable_logs) ∷ last_env m name

check_lumigo_env :
    (b : BeInstrumentedWithLumigo) (m : InjectingMutator) (name : String)
    → Agrees b m
    → check_all_env b (lumigo_env m name) nothing_found ≡ ok (found_with true true)
unfolding lumigo_env check_all_env check_env
check_lumigo_env b m name a =
    check_all_env-step b (plain_env endpoint_env_var_name m.endpoint)
      (plain_env logs_endpoint_env_var_name m.logs_endpoint ∷ logs_env m name)
      (found_with false false) (found_with true false)
      (check_env-endpoint b m.endpoint (found_with false false) a.same_endpoint)
    ∙ check_all_env-step b (plain_env enable_logs_env_var_name (format_bool m.enable_logs))
        (last_env m name) (found_with true false) (found_with true true)
        (check_env-enable_logs b m.enable_logs (found_with true false) a.same_logs)

check_mounts-append :
    (vs : List VolumeMount)
    → NoneOf mounts_injector_volume vs
    → check_mounts (vs ++ injector_volume_mount ∷ []) false ≡ ok true
unfolding check_mounts injector_volume_mount
check_mounts-append [] h = refl
check_mounts-append (v ∷ vs) h = ground (arith, check_mounts-append vs, h.0)

is_container_instrumented_of :
    (b : BeInstrumentedWithLumigo) (c : Container)
    → check_all_env b (items c.env) nothing_found ≡ ok (found_with true true)
    → check_mounts (items c.volume_mounts) false ≡ ok true
    → is_container_instrumented b c ≡ (true, none)
unfolding is_container_instrumented
is_container_instrumented_of b c h k =
    rw (h, is_container_instrumented) (rw (k, is_container_instrumented))

is_container_instrumented-patch :
    (b : BeInstrumentedWithLumigo) (m : InjectingMutator) (c : Container)
    → Agrees b m
    → IsFreshContainer c
    → is_container_instrumented b (patch_container m c) ≡ (true, none)
unfolding patch_container
is_container_instrumented-patch b m c a h =
    is_container_instrumented_of b (patch_container m c)
      (ap (λ env. check_all_env b env nothing_found)
          (fresh_env m c.name (items c.env) h.no_injected_env)
        ∙ check_all_env-append b (items c.env) (lumigo_env m c.name) nothing_found h.no_injected_env
        ∙ check_lumigo_env b m c.name a)
      (ap (λ vs. check_mounts vs false)
          (replace_or_append-NoneOf mounted_at_target injector_volume_mount (items c.volume_mounts)
            h.no_target_mount)
        ∙ check_mounts-append (items c.volume_mounts) h.no_injector_mount)

are_all_containers_instrumented-map :
    (b : BeInstrumentedWithLumigo) (m : InjectingMutator) (cs : List Container)
    → Agrees b m
    → AreFresh cs
    → are_all_containers_instrumented b (map (patch_container m) cs) ≡ (true, none)
unfolding are_all_containers_instrumented
are_all_containers_instrumented-map b m [] a h = refl
are_all_containers_instrumented-map b m (c ∷ cs) a h =
    rw (is_container_instrumented-patch b m c a h.0)
      (are_all_containers_instrumented-map b m cs a h.1)

injector_container-matches :
    (b : BeInstrumentedWithLumigo) (m : InjectingMutator) (context : PodSecurityContext)
    → Agrees b m
    → injector_container_match b.injector_image (injector_container m context) ≡ (true, none)
unfolding injector_container injector_container_match deep_equal_env deep_equal_mounts
injector_container-matches b m context a = ground (arith, eq_iff m.injector_image b.injector_image)

contains_injector-replace_or_append :
    (b : BeInstrumentedWithLumigo) (cs : List Container) (v : Container)
    → injector_container_match b.injector_image v ≡ (true, none)
    → contains_injector_init_container b (replace_or_append container_named v cs) ≡ (true, none)
unfolding contains_injector_init_container replace_or_append
contains_injector-replace_or_append b [] v h = rw h
contains_injector-replace_or_append b (c ∷ cs) v h =
    ground (arith, contains_injector-replace_or_append b cs v h)

-- An object without traces of the injection is recognised as instrumented once it is injected, by
-- the matcher set up with the mutator's image, endpoint and logs switch, and without an error.
pub match_workload-inject :
    (have_key_with_value : String → String → ObjectMeta → Match) (libs : Libs)
    (m : InjectingMutator) (b : BeInstrumentedWithLumigo) (w w' : Workload) (changed : Bool)
    → Agrees b m
    → IsFresh w.template.spec
    → inject_lumigo_into libs m w ≡ (w', ok changed)
    → match_workload have_key_with_value b w' ≡ (true, none)
unfolding injected_pod_spec
match_workload-inject have_key_with_value libs m b w w' changed a h e =
    let injected =
      (inject_template-cases libs m w w' changed (inject-cases libs m w w' changed e).1).0 in
    let (context, _, p) = inject-eq-ok libs m w.template.spec w'.template.spec injected in
    match_workload_lem have_key_with_value b w'
    ∙ rw (← p) (
        rw
          (are_all_containers_instrumented-map b m (items w.template.spec.containers) a
            h.fresh_containers)
          (contains_injector-replace_or_append b (items w.template.spec.init_containers)
            (injector_container m context) (injector_container-matches b m context a)))
