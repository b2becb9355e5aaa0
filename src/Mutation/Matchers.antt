-- ===== src/Mutation/Matchers.antt =====
-- The recognisers of what the injection leaves behind (mutation/matchers.go). A matcher returns
-- whether it matches, and an error that says why it does not.
use Prim.Native.String.{len}
use lumigo_kubernetes_operat.Prelude.{
  String, Bool, true, false, ◌&&◌, Option, none, some, [], ◌∷◌, Error, errorf, ltb, not, ◌==◌,
  if◌then◌else◌,
}
use lumigo_kubernetes_operat.K8s.{Volume, Container}
use lumigo_kubernetes_operat.K8s.Equality.{deep_equal_env, deep_equal_mounts}
use lumigo_kubernetes_operat.Mutation.Names.{
  injector_container_name, injector_volume_name, target_directory_path,
}

abbrev pub Match : Type 0
Match = Bool × Option Error

unfoldable pub injector_container_match : String → Container → Match
injector_container_match image c =
    if not (c.name == injector_container_name)
    then (false, some (errorf "has an unexpected container name" (c.name ∷ [])))
    else if ltb 0 (len image) && not (c.image == image)
    then (false, some (errorf "has an unexpected container image" (c.image ∷ [])))
    else if not (
        deep_equal_env c.env (
          some (
            record { name = "TARGET_DIRECTORY"; value = target_directory_path; value_from = none }
            ∷ [])))
    then (false, some (errorf "has an unexpected container environment" []))
    else if not (
        deep_equal_mounts c.volume_mounts (
          some (
            record {
              name = injector_volume_name;
              read_only = false;
              mount_path = target_directory_path;
              other = "";
            }
            ∷ [])))
    then (false, some (errorf "has an unexpected volume mounts" []))
    else (true, none)

unfoldable pub injector_volume_match : Volume → Match
injector_volume_match v =
    if not (v.name == injector_volume_name)
    then (false, some (errorf "has an unexpected volume name" (v.name ∷ [])))
    else elim v.empty_dir [
      | none ↦ (false, some (errorf "has an unexpected volume source" []))
      | some e ↦ (true, none)
    ]
