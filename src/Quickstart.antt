-- ===== src/Quickstart.antt =====
-- The quickstart mode of the operator (main.go): secrets and Lumigo instances for the namespaces that
-- are named, or for all of them.
pub mod Writes
use lumigo_kubernetes_operat.Prelude.{
  ℕ, zero, suc, ◌*◌, String, Bool, true, false, ◌||◌, Option, none, some, List, [], ◌∷◌, Fallible,
  inl, inr, Error, wrapf, ◌==◌, if◌then◌else◌,
}
use lumigo_kubernetes_operat.Api.{Lumigo, LumigoSpec, Credentials}

pub record QuickstartSetting : Type 0 where
  pub namespace : String
  pub tracing_enabled : Option Bool
  pub logging_enabled : Option Bool

abbrev enabled_or_true : Option Bool → Option Bool
enabled_or_true none = some true
enabled_or_true (some b) = some b

unfoldable pub get_traces_enabled_or_default : QuickstartSetting → Option Bool
get_traces_enabled_or_default s = enabled_or_true s.tracing_enabled

unfoldable pub get_logs_enabled_or_default : QuickstartSetting → Option Bool
get_logs_enabled_or_default s = enabled_or_true s.logging_enabled

-- The new value of `*target`.
unfoldable pub update_if_nil : Option Bool → Option Bool → Option Bool → Option Bool
update_if_nil none none default_value = default_value
update_if_nil none (some b) default_value = some b
update_if_nil (some a) none default_value = some a
update_if_nil (some a) (some b) default_value = some b

-- What the quickstart mode calls: the client of the Kubernetes API, encoding/json, `time.Sleep` for a
-- number of seconds, and two looks at errors.
pub record Services (W : Type 0) : Type 0 where
  pub list_namespaces : W → W × Fallible (List String)
  -- a secret by namespace, name, and its one key with the value
  pub create_secret : String → String → String → String → W → W × Option Error
  pub create_lumigo : Lumigo → W → W × Option Error
  pub get_lumigo : String → String → W → W × Fallible Lumigo
  pub update_lumigo : Lumigo → W → W × Option Error
  pub sleep : ℕ → W → W
  pub unmarshal : String → Fallible (List QuickstartSetting)
  -- k8serrors.IsAlreadyExists
  pub is_already_exists : Error → Bool
  -- `strings.Contains(err.Error(), …)`
  pub contains_text : Error → String → Bool

abbrev quickstart_secret_name : String
quickstart_secret_name = "lumigo-credentials"

abbrev quickstart_secret_key : String
quickstart_secret_key = "token"

unfoldable pub quickstart_lumigo : QuickstartSetting → Lumigo
quickstart_lumigo s = record {
  meta = record {
    name = "lumigo";
    namespace = s.namespace;
    uid = "";
    creation_timestamp = 0;
    deletion_timestamp = none;
    finalizers = [];
  };
  spec = record {
    lumigo_token = record {
      secret_ref = record { name = quickstart_secret_name; key = quickstart_secret_key };
    };
    tracing = record {
      enabled = get_traces_enabled_or_default s;
      injection = record {
        enabled = none;
        inject_lumigo_into_existing_resources_on_creation = none;
        remove_lumigo_from_resources_on_deletion = none;
      };
    };
    logging = record { enabled = get_logs_enabled_or_default s };
    infrastructure = record { enabled = none; kube_events = record { enabled = none } };
  };
  status = record { conditions = []; instrumented_resources = none };
}

-- An existing instance with the settings.
unfoldable pub updated_lumigo : QuickstartSetting → Lumigo → Lumigo
updated_lumigo s l = record l {
  spec = record l.spec {
    tracing = record l.spec.tracing {
      enabled = update_if_nil l.spec.tracing.enabled s.tracing_enabled (some true);
    };
    logging = record {
      enabled = update_if_nil l.spec.logging.enabled s.logging_enabled (some false);
    };
  };
}

unfoldable pub is_ignored : String → String → Bool
is_ignored lumigo_namespace name =
    lumigo_namespace == name
    || ("kube-system" == name || ("kube-public" == name || "kube-node-lease" == name))

unfoldable pub settings_of : String → List String → List QuickstartSetting
settings_of lumigo_namespace [] = []
settings_of lumigo_namespace (name ∷ rest) =
    let later = settings_of lumigo_namespace rest in
    if is_ignored lumigo_namespace name
    then later
    else record { namespace = name; tracing_enabled = none; logging_enabled = none } ∷ later

module _ {W : Type 0} (services : Services W) where
  abbrev pub all_settings :
      String → W × Fallible (List String) → W × Fallible (List QuickstartSetting)
  all_settings lumigo_namespace (w, inl e) = (w, inl (wrapf "failed to list namespaces: %w" [] e))
  all_settings lumigo_namespace (w, inr names) = (w, inr (settings_of lumigo_namespace names))

  unfoldable pub get_all_namespaces_quickstart_settings :
      String → W → W × Fallible (List QuickstartSetting)
  get_all_namespaces_quickstart_settings lumigo_namespace w =
      all_settings lumigo_namespace (services.list_namespaces w)

  -- The end of an attempt that found an instance: where it cannot be read, the error of the attempt
  -- before stands. An error of the update is ignored.
  abbrev pub after_get : QuickstartSetting → Option Error → W × Fallible Lumigo → W × Option Error
  after_get s create_err (w, inl e) = (w, create_err)
  after_get s create_err (w, inr l) = ((services.update_lumigo (updated_lumigo s l) w).0, none)

  abbrev pub already_there : Error → Bool
  already_there e =
      services.contains_text e "There is already an instance of operator.lumigo.io/v1alpha1.Lumigo"

  abbrev pub after_create :
      QuickstartSetting
      → Option Error
      → (Error → W → W × Option Error)
      → W × Option Error
      → W × Option Error
  after_create s create_err again (w, none) = (w, none)
  after_create s create_err again (w, some e) =
      if already_there e
      then after_get s create_err (services.get_lumigo s.namespace "lumigo" w)
      else again e (services.sleep 5 w)

  -- the loop of the attempts, of which so many are left; the result is `createErr`
  unfoldable pub create_attempts : ℕ → QuickstartSetting → Option Error → W → W × Option Error
  create_attempts zero s create_err w = (w, create_err)
  create_attempts (suc n) s create_err w =
      after_create s create_err (λ e. create_attempts n s (some e))
        (services.create_lumigo (quickstart_lumigo s) w)

  abbrev pub max_attempts : ℕ
  max_attempts = 20

  abbrev pub then_settings :
      QuickstartSetting → (W → W × Option Error) → W × Option Error → W × Option Error
  then_settings s rest (w, none) = rest w
  then_settings s rest (w, some e) = (
    w,
    some (
        wrapf "failed to create Lumigo CRD in namespace %s after multiple attempts: %w"
          (s.namespace ∷ []) e),
  )

  -- Another error than that the secret exists is logged, and the namespace is left out.
  abbrev pub after_secret :
      QuickstartSetting → (W → W × Option Error) → W × Option Error → W × Option Error
  after_secret s rest (w, none) = then_settings s rest (create_attempts max_attempts s none w)
  after_secret s rest (w, some e) =
      if services.is_already_exists e
      then then_settings s rest (create_attempts max_attempts s none w)
      else rest w

  -- the loop over the settings
  unfoldable pub create_for_settings : String → List QuickstartSetting → W → W × Option Error
  create_for_settings token [] w = (w, none)
  create_for_settings token (s ∷ rest) w =
      after_secret s (create_for_settings token rest)
        (services.create_secret s.namespace quickstart_secret_name quickstart_secret_key token w)

  abbrev pub with_all_settings : String → W × Fallible (List QuickstartSetting) → W × Option Error
  with_all_settings token (w, inl e) = (w, some (wrapf "failed to get all namespaces: %w" [] e))
  with_all_settings token (w, inr settings) = create_for_settings token settings w

  abbrev pub with_settings : String → Fallible (List QuickstartSetting) → W → W × Option Error
  with_settings token (inl e) w = (w, some e)
  with_settings token (inr settings) w = create_for_settings token settings w

  -- After its client was created.
  unfoldable pub create_quickstart_objects : String → String → String → W → W × Option Error
  create_quickstart_objects settings token lumigo_namespace w =
      if settings == "all"
      then with_all_settings token (get_all_namespaces_quickstart_settings lumigo_namespace w)
      else with_settings token (services.unmarshal settings) w
