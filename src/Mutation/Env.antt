-- ===== src/Mutation/Env.antt =====
-- The environment of an injected container, read by name.
use lumigo_kubernetes_operat.Prelude.{
  String, Option, none, some, List, [], ◌∷◌, ◌≡◌, refl, arith, ◌==◌, eq_iff, items, if◌then◌else◌,
}
use lumigo_kubernetes_operat.K8s.{EnvVar, Container}
use lumigo_kubernetes_operat.Mutation.Mutator.{InjectingMutator}
use lumigo_kubernetes_operat.Mutation.PodSpecs.{
  replace_or_append, set_env, set_all_env, lumigo_env, patch_container,
}

-- The first variable of a name.
unfoldable pub find_env : String → List EnvVar → Option EnvVar
find_env name [] = none
find_env name (e ∷ es) = if e.name == name then some e else find_env name es

-- The second choice counts where the first has none.
abbrev pub or_else : Option EnvVar → Option EnvVar → Option EnvVar
or_else none o = o
or_else (some e) o = some e

find_env-set_env :
    (n : String) (e : EnvVar) (env : List EnvVar)
    → find_env n (set_env e env) ≡ (if e.name == n then some e else find_env n env)
unfolding find_env replace_or_append
find_env-set_env n e [] = refl
find_env-set_env n e (x ∷ env) =
    ground (arith, find_env-set_env n e env, eq_iff x.name e.name, eq_iff x.name n, eq_iff e.name n)

set_env_present :
    (e : EnvVar) (env : List EnvVar) → find_env e.name env ≡ some e → set_env e env ≡ env
unfolding find_env replace_or_append
set_env_present e [] h = ground arith
set_env_present e (x ∷ env) h = ground (arith, set_env_present e env)

-- No two variables of a list share their name.
abbrev HasDistinctNames : List EnvVar → Type 0
HasDistinctNames [] = Unit
HasDistinctNames (e ∷ es) = (find_env e.name es ≡ none) × HasDistinctNames es

-- Setting variables of distinct names: these win, and what has another name is read as before.
find_env-set_all_env :
    (n : String) (es env : List EnvVar)
    → HasDistinctNames es
    → find_env n (set_all_env es env) ≡ or_else (find_env n es) (find_env n env)
unfolding find_env set_all_env
find_env-set_all_env n [] env h = refl
find_env-set_all_env n (e ∷ es) env h = ground (
  arith,
  find_env-set_all_env n es (set_env e env),
  find_env-set_env n e env,
  h.0,
  eq_iff e.name n,
)

-- The list has the variables `es`, each as the first of its name.
abbrev AllPresent : List EnvVar → List EnvVar → Type 0
AllPresent [] env = Unit
AllPresent (e ∷ es) env = (find_env e.name env ≡ some e) × AllPresent es env

AllPresent-set_all_env :
    (es env : List EnvVar) → HasDistinctNames es → AllPresent es (set_all_env es env)
unfolding set_all_env
AllPresent-set_all_env [] env h = tt
AllPresent-set_all_env (e ∷ es) env h = (
  ground (
    arith,
    find_env-set_all_env e.name es (set_env e env) h.1,
    find_env-set_env e.name e env,
    h.0,
    eq_iff e.name e.name,
  ),
  AllPresent-set_all_env es (set_env e env) h.1,
)

set_all_env_present : (es env : List EnvVar) → AllPresent es env → set_all_env es env ≡ env
unfolding set_all_env
set_all_env_present [] env h = refl
set_all_env_present (e ∷ es) env h = rw (set_env_present e env h.0) (set_all_env_present es env h.1)

pub set_all_env_idem :
    (es env : List EnvVar)
    → HasDistinctNames es
    → set_all_env es (set_all_env es env) ≡ set_all_env es env
set_all_env_idem es env h =
    set_all_env_present es (set_all_env es env) (AllPresent-set_all_env es env h)

pub lumigo_env-HasDistinctNames :
    (m : InjectingMutator) (name : String) → HasDistinctNames (lumigo_env m name)
unfolding find_env lumigo_env
lumigo_env-HasDistinctNames m name = (refl, (refl, (refl, (refl, (refl, (refl, (refl, tt)))))))

-- After the injection a variable of any name reads, by its first occurrence, as the operator sets
-- it, where it sets one of that name, and as before otherwise; so a variable of the user's own
-- keeps its value unless the operator has one of the same name.
pub find_env-patch_container :
    (m : InjectingMutator) (c : Container) (n : String)
    → find_env n (items (patch_container m c).env)
      ≡ or_else (find_env n (lumigo_env m c.name)) (find_env n (items c.env))
unfolding patch_container
find_env-patch_container m c n =
    find_env-set_all_env n (lumigo_env m c.name) (items c.env)
      (lumigo_env-HasDistinctNames m c.name)
