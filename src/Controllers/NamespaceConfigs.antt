-- ===== src/Controllers/NamespaceConfigs.antt =====
-- The file of monitored namespaces that the telemetry proxy reads
-- (controllers/telemetryproxyconfigs/namespace_monitoring_configs.go). The file, the JSON coding
-- and the sort are parameters; logging is left out. The child says what an update leaves in the file.
pub mod Entries
use Prim.Native.Nat.{compare, Ordering}
use lumigo_kubernetes_operat.Prelude.{
  ℕ, String, Bool, true, false, not, ◌&&◌, Option, none, some, List, [], ◌∷◌, ◌++◌, Slice, items,
  inl, inr, Fallible, Error, wrapf, ◌==◌, if◌then◌else◌, codes, ltb,
}

pub record NamespaceMonitoringConfig : Type 0 where
  pub token : String
  pub name : String
  pub uid : String

-- What `os.ReadFile` answers: the content, `os.ErrNotExist`, or another error.
pub data ReadResult : Type 0 where
  content : String → ReadResult
  not_exist : ReadResult
  unreadable : Error → ReadResult

-- The file at the configured path, in a world `W`, encoding/json and sort.Slice, which does not say
-- how it orders entries of one name.
pub record Files (W : Type 0) : Type 0 where
  pub read_file : W → ReadResult
  pub write_file : String → W → W × Option Error
  pub unmarshal : String → Fallible (Slice NamespaceMonitoringConfig)
  pub marshal : Slice NamespaceMonitoringConfig → Fallible String
  -- `sort.Slice` with the order of the names
  pub sort_by_name : List NamespaceMonitoringConfig → List NamespaceMonitoringConfig

-- `<` on strings compares bytes; for valid UTF-8 that is the order of the code points.
abbrev pub codes_before : List ℕ → List ℕ → Bool
codes_before s [] = false
codes_before [] (d ∷ t) = true
codes_before (c ∷ s) (d ∷ t) = elim (compare c d) [
  | Ordering.lt ↦ true
  | Ordering.eq ↦ codes_before s t
  | Ordering.gt ↦ false
]

unfoldable pub before : String → String → Bool
before s t = codes_before (codes s) (codes t)

abbrev pub sorted_slice :
    (List NamespaceMonitoringConfig → List NamespaceMonitoringConfig)
    → Slice NamespaceMonitoringConfig
    → Slice NamespaceMonitoringConfig
sorted_slice sort none = none
sorted_slice sort (some cs) = some (sort cs)

abbrev pub append_one {ℓ} : {A : Type ℓ} → Slice A → A → Slice A
append_one s x = some (items s ++ x ∷ [])

-- The loop that keeps the other namespaces; the first argument is the name, the second the result.
unfoldable pub keep_others :
    String
    → Slice NamespaceMonitoringConfig
    → List NamespaceMonitoringConfig
    → Slice NamespaceMonitoringConfig
keep_others name kept [] = kept
keep_others name kept (n ∷ ns) =
    keep_others name (if not (n.name == name) && not (name == "") then append_one kept n else kept)
      ns

-- `len(namespaceMonitoringConfig.Uid) > 0`
unfoldable pub is_upsert : NamespaceMonitoringConfig → Bool
is_upsert c = not (c.uid == "")

-- The new entries, from the old ones.
unfoldable pub updated_namespaces :
    (List NamespaceMonitoringConfig → List NamespaceMonitoringConfig)
    → NamespaceMonitoringConfig
    → List NamespaceMonitoringConfig
    → Slice NamespaceMonitoringConfig
updated_namespaces sort c namespaces =
    let others = keep_others c.name none namespaces in
    sorted_slice sort (if is_upsert c then append_one others c else others)

module _ {W : Type 0} (files : Files W) (path : String) where
  -- The file's bytes, none where it does not exist, with what they hold.
  unfoldable pub read_namespaces : W → Fallible (String × Slice NamespaceMonitoringConfig)
  read_namespaces world = elim (files.read_file world) [
    | unreadable e ↦ inl (wrapf "cannot read namespace configuration file '%s': %w" (path ∷ []) e)
    | not_exist ↦ inr ("", none)
    | content bytes ↦ elim (files.unmarshal bytes) [
      | inl e ↦ inl (wrapf "cannot unmarshal namespace configuration file '%s': %w" (path ∷ []) e)
      | inr namespaces ↦ inr (bytes, namespaces)
    ]
  ]

  abbrev pub after_write : W × Option Error → W × Fallible Bool
  after_write (world, none) = (world, inr true)
  after_write (world, some e) = (
    world,
    inl (wrapf "cannot write the updated namespace configuration file '%s': %w" (path ∷ []) e),
  )

  unfoldable pub write_if_changed : String → Fallible String → W → W × Fallible Bool
  write_if_changed bytes (inl e) world =
      (world, inl (wrapf "cannot marshal the updated namespace configuration: %w" [] e))
  write_if_changed bytes (inr updated) world =
      if bytes == updated then (world, inr false) else after_write (files.write_file updated world)

  abbrev pub update_read :
      NamespaceMonitoringConfig
      → Fallible (String × Slice NamespaceMonitoringConfig)
      → W
      → W × Fallible Bool
  update_read c (inl e) world = (world, inl e)
  update_read c (inr (bytes, namespaces)) world =
      write_if_changed bytes
        (files.marshal (updated_namespaces files.sort_by_name c (items namespaces))) world

  unfoldable pub update_telemetry_proxy_monitoring_of_namespace :
      NamespaceMonitoringConfig → W → W × Fallible Bool
  update_telemetry_proxy_monitoring_of_namespace c world =
      update_read c (read_namespaces world) world

  unfoldable pub remove_telemetry_proxy_monitoring_of_namespace : String → W → W × Fallible Bool
  remove_telemetry_proxy_monitoring_of_namespace name world =
      update_telemetry_proxy_monitoring_of_namespace (record { token = ""; name = name; uid = "" })
        world

  unfoldable pub upsert_telemetry_proxy_monitoring_of_namespace :
      String → String → String → W → W × Fallible Bool
  upsert_telemetry_proxy_monitoring_of_namespace name uid token world =
      update_telemetry_proxy_monitoring_of_namespace
        (record { token = token; name = name; uid = uid }) world
