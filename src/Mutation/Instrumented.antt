-- ===== src/Mutation/Instrumented.antt =====
-- The recogniser of instrumented objects (mutation/matchers.go:26-328, BeInstrumentedWithLumigo).
-- Error messages keep their format and leave out the arguments that only describe the input.
use Prim.Native.String.{len}
use lumigo_kubernetes_operat.Prelude.{
  String, Bool, true, false, not, Option, none, some, List, [], ◌∷◌, Outcome, ok, err, panicked,
  Error, errorf, wrapf, ltb, ◌==◌, ◌||◌, if◌then◌else◌, items, label,
}
use lumigo_kubernetes_operat.K8s.{
  EnvVar, VolumeMount, Volume, Container, ObjectMeta, Workload, Resource, object, other_resource,
}
use lumigo_kubernetes_operat.Mutation.Names.{
  auto_trace_label_key, injector_volume_name, injector_volume_mount_point,
  tracer_token_env_var_name, endpoint_env_var_name, enable_logs_env_var_name,
  ld_preload_env_var_name, ld_preload_env_var_value,
}
use lumigo_kubernetes_operat.Mutation.Mutator.{version_label_value}
use lumigo_kubernetes_operat.Mutation.Matchers.{
  Match, injector_container_match, injector_volume_match,
}

pub record BeInstrumentedWithLumigo : Type 0 where
  pub operator_version : String
  pub injector_image : String
  pub endpoint_url : String
  pub logs_enabled : Bool

-- Which of the four variables the loop has found.
pub record Found : Type 0 where
  pub ld_preload : Bool
  pub tracer_token : Bool
  pub endpoint : Bool
  pub enable_logs : Bool

abbrev pub nothing_found : Found
nothing_found = record {
  ld_preload = false;
  tracer_token = false;
  endpoint = false;
  enable_logs = false;
}

-- strconv.ParseBool
unfoldable pub parse_bool : String → Option Bool
parse_bool s =
    if s == "1" || s == "t" || s == "T" || s == "true" || s == "TRUE" || s == "True"
    then some true
    else if s == "0" || s == "f" || s == "F" || s == "false" || s == "FALSE" || s == "False"
    then some false
    else none

abbrev same_bool : Bool → Bool → Bool
same_bool true b = b
same_bool false b = not b

-- The body of the loop over the variables.
unfoldable pub check_env : BeInstrumentedWithLumigo → EnvVar → Found → Outcome Found
check_env m e found =
    if e.name == ld_preload_env_var_name
    then if e.value == ld_preload_env_var_value
      then ok (record found { ld_preload = true })
      else err (errorf "unexpected value for '%s' env var" (e.name ∷ []))
    else if e.name == tracer_token_env_var_name
    then elim e.value_from [
      | none ↦ err (errorf "unexpected value for '%s' env var: expected secret" (e.name ∷ []))
      | some v ↦ ok (record found { tracer_token = true })
    ]
    else if e.name == endpoint_env_var_name
    then if e.value == m.endpoint_url
      then ok (record found { endpoint = true })
      else err (errorf "unexpected value for '%s' env var" (e.name ∷ []))
    else if e.name == enable_logs_env_var_name
    then elim (parse_bool e.value) [
      | none ↦ err (errorf "unexpected value for boolean '%s' env var" (e.name ∷ []))
      | some b ↦
          if same_bool b m.logs_enabled
          then ok (record found { enable_logs = true })
          else err (errorf "unexpected value for '%s' env var" (e.name ∷ []))
    ]
    else ok found

unfoldable pub check_all_env : BeInstrumentedWithLumigo → List EnvVar → Found → Outcome Found
check_all_env m [] found = ok found
check_all_env m (e ∷ es) found = elim (check_env m e found) [
  | ok found' ↦ check_all_env m es found'
  | err x ↦ err x
  | panicked ↦ panicked
]

-- The loop over the volume mounts: whether the injector's is among them.
unfoldable pub check_mounts : List VolumeMount → Bool → Outcome Bool
check_mounts [] found = ok found
check_mounts (v ∷ vs) found =
    let next = check_mounts vs (v.name == injector_volume_name || found) in
    if v.name == injector_volume_name
    then if not v.read_only
      then err (errorf "unexpected 'ReadOnly' value found on '%s' volume mount" (v.name ∷ []))
      else if not (v.mount_path == injector_volume_mount_point)
      then err (errorf "unexpected 'MountPath' value found on '%s' volume mount" (v.name ∷ []))
      else next
    else next

abbrev env_var_missing : String → Error
env_var_missing name =
    errorf "the environment variable '%s' is not set in the container's Env" (name ∷ [])

unfoldable pub is_container_instrumented : BeInstrumentedWithLumigo → Container → Match
is_container_instrumented m c = elim (check_all_env m (items c.env) nothing_found) [
  | err e ↦ (false, some e)
  | panicked ↦ (false, none)
  | ok found ↦
      if not found.ld_preload
      then (false, some (env_var_missing ld_preload_env_var_name))
      else if not found.tracer_token
      then (false, some (env_var_missing tracer_token_env_var_name))
      else if not found.endpoint
      then (false, some (env_var_missing endpoint_env_var_name))
      else if not found.enable_logs
      then (false, some (env_var_missing enable_logs_env_var_name))
      else elim (check_mounts (items c.volume_mounts) false) [
        | err e ↦ (false, some e)
        | panicked ↦ (false, none)
        | ok true ↦ (true, none)
        | ok false ↦ (false, some (errorf "no '%s' volume mount found" (injector_volume_name ∷ [])))
      ]
]

-- `fmt.Errorf` with `%w`, which makes an error of a nil one too.
abbrev pub wrapped : Option Error → Error
wrapped none = errorf "container[%v] is not instrumented with Lumigo: %w" []
wrapped (some e) = wrapf "container[%v] is not instrumented with Lumigo: %w" [] e

-- The loop goes on after `(true, nil)` only.
abbrev then_next : Match → Match → Match
then_next (true, none) rest = rest
then_next (true, some e) rest = (true, some (wrapped (some e)))
then_next (false, e) rest = (false, some (wrapped e))

unfoldable pub are_all_containers_instrumented : BeInstrumentedWithLumigo → List Container → Match
are_all_containers_instrumented m [] = (true, none)
are_all_containers_instrumented m (c ∷ cs) =
    then_next (is_container_instrumented m c) (are_all_containers_instrumented m cs)

-- `matched && err == nil`
abbrev is_match : Match → Bool
is_match (b, none) = b
is_match (b, some e) = false

unfoldable pub contains_injector_init_container : BeInstrumentedWithLumigo → List Container → Match
contains_injector_init_container m [] =
    (false, some (errorf "no Lumigo injector container found" []))
contains_injector_init_container m (c ∷ cs) =
    if is_match (injector_container_match m.injector_image c)
    then (true, none)
    else contains_injector_init_container m cs

unfoldable pub contains_injector_volume : List Volume → Match
contains_injector_volume [] = (false, some (errorf "no Lumigo injector volume found" []))
contains_injector_volume (v ∷ vs) =
    if is_match (injector_volume_match v) then (true, none) else contains_injector_volume vs

-- `x, err := …; if !x || err != nil { return x, err }`
abbrev pub unless_ok : Match → Match → Match
unless_ok (true, none) rest = rest
unless_ok (true, some e) rest = (true, some e)
unless_ok (false, e) rest = (false, e)

-- `x, err := …; if x || err != nil { return x, err }`, as the source has it for the init containers
abbrev pub if_ok : Match → Match → Match
if_ok (false, none) rest = rest
if_ok (false, some e) rest = (false, some e)
if_ok (true, e) rest = (true, e)

abbrev no_error : Option Error → Match → Match
no_error none rest = rest
no_error (some e) rest = (false, some e)

abbrev label_error : Match → Option Error
label_error (b, some e) = some (wrapf "cannot lookup '%s' label: %w" (auto_trace_label_key ∷ []) e)
label_error (true, none) = none
label_error (false, none) = some (errorf "'%s' label not found" (auto_trace_label_key ∷ []))

-- gomega.HaveKeyWithValue(key, value).Match(metadata)
module _ (have_key_with_value : String → String → ObjectMeta → Match) where
  unfoldable pub has_the_auto_trace_label_set : BeInstrumentedWithLumigo → ObjectMeta → Option Error
  has_the_auto_trace_label_set m meta =
      if not (ltb 0 (len m.operator_version))
      then elim (label meta.labels auto_trace_label_key) [
        | some v ↦ none
        | none ↦ some (errorf "'%s' label not found" (auto_trace_label_key ∷ []))
      ]
      else label_error
          (have_key_with_value auto_trace_label_key (version_label_value m.operator_version) meta)

  -- The six cases of the type switch are alike.
  unfoldable pub match_workload : BeInstrumentedWithLumigo → Workload → Match
  match_workload m w =
      unless_ok (are_all_containers_instrumented m (items w.template.spec.containers)) (
        if_ok (contains_injector_init_container m (items w.template.spec.init_containers)) (
          unless_ok (contains_injector_volume (items w.template.spec.volumes)) (
            no_error (has_the_auto_trace_label_set m w.meta)
              (no_error (has_the_auto_trace_label_set m w.template.meta) (true, none)))))

  unfoldable do_match : BeInstrumentedWithLumigo → Resource → Match
  unfolding match_workload
  do_match m (object kind w) = match_workload m w
  do_match m (other_resource s) =
      (false, some (errorf "BeInstrumentedWithLumigo matcher expects one of: …" (s ∷ [])))

  -- `Match` drops the error of a failed match.
  unfoldable match_instrumented : BeInstrumentedWithLumigo → Resource → Match
  unfolding do_match
  match_instrumented m r = let (success, e) = do_match m r in (success, if success then e else none)
