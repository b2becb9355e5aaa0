-- ===== src/Enricher/Attributes/Puts.antt =====
-- Which attributes the writes of processor.go leave alone.
use lumigo_kubernetes_operat.Prelude.{
  String, Bool, true, false, ◌&&◌, not, List, [], ◌∷◌, ◌≡◌, refl, some, arith, ◌==◌, eq_iff,
  if◌then◌else◌,
}
use lumigo_kubernetes_operat.Enricher.Objects.{
  Kind, daemon_set, deployment, replica_set, stateful_set, cron_job, job, KubeObject,
}
use lumigo_kubernetes_operat.Enricher.Attributes.{
  Value, str, Attributes, get_attribute, put_attribute, put_str, node_name_key, pod_name_key,
  namespace_name_key, namespace_uid_key, name_key, uid_key, put_owner,
}

-- the keys that are written besides those of the cluster and "k8s.pod.uid"
abbrev pub written_keys : List String
written_keys =
    node_name_key
    ∷ pod_name_key
    ∷ namespace_name_key
    ∷ namespace_uid_key
    ∷ name_key daemon_set
    ∷ uid_key daemon_set
    ∷ name_key deployment
    ∷ uid_key deployment
    ∷ name_key replica_set
    ∷ uid_key replica_set
    ∷ name_key stateful_set
    ∷ uid_key stateful_set
    ∷ name_key cron_job
    ∷ uid_key cron_job
    ∷ name_key job
    ∷ uid_key job
    ∷ []

-- The key is none of the list.
unfoldable pub is_foreign : String → List String → Bool
is_foreign j [] = true
is_foreign j (k ∷ rest) = not (k == j) && is_foreign j rest

pub get_attribute-put_attribute :
    (k j : String) (v : Value) (l : Attributes)
    → get_attribute j (put_attribute k v l) ≡ (if k == j then some v else get_attribute j l)
unfolding get_attribute put_attribute
get_attribute-put_attribute k j v [] = refl
get_attribute-put_attribute k j v ((i, w) ∷ l) =
    ground (arith, eq_iff k j, eq_iff i k, eq_iff i j, get_attribute-put_attribute k j v l)

pub put_other :
    (k j s : String) (l : Attributes)
    → (k == j) ≡ false
    → get_attribute j (put_str k s l) ≡ get_attribute j l
put_other k j s l h = rw (get_attribute-put_attribute k j (str s) l, h) refl

-- The keys of an owner are foreign to `j`.
abbrev ForeignOwner : String → Kind → Type 0
ForeignOwner j kind = ((name_key kind == j) ≡ false) × ((uid_key kind == j) ≡ false)

pub put_owner_other :
    (kind : Kind) (j : String) (o : KubeObject) (l : Attributes)
    → ForeignOwner j kind
    → get_attribute j (put_owner kind o l) ≡ get_attribute j l
put_owner_other kind j o l h = cc (
  put_other (uid_key kind) j o.meta.uid (put_str (name_key kind) o.meta.name l) h.1,
  put_other (name_key kind) j o.meta.name l h.0,
)

-- `j` is none of the written keys, and it is not "k8s.pod.uid" or that is there already.
pub record IsSpared (j : String) : Type 0 where
  pub node_name : (node_name_key == j) ≡ false
  pub pod_name : (pod_name_key == j) ≡ false
  pub namespace_name : (namespace_name_key == j) ≡ false
  pub namespace_uid : (namespace_uid_key == j) ≡ false
  pub owners :
      ForeignOwner j daemon_set
      × (ForeignOwner j deployment
          × (ForeignOwner j replica_set
              × (ForeignOwner j stateful_set × (ForeignOwner j cron_job × ForeignOwner j job))))

AllDiffer : String → List String → Type 0
AllDiffer j [] = j ≡ j
AllDiffer j (k ∷ rest) = ((k == j) ≡ false) × AllDiffer j rest

pub not_and : (b c : Bool) → not b && c ≡ true → (b ≡ false) × (c ≡ true)
not_and b c h = ground arith

AllDiffer-is_foreign :
    (j : String) (keys : List String) → is_foreign j keys ≡ true → AllDiffer j keys
unfolding is_foreign AllDiffer
AllDiffer-is_foreign j [] h = refl
AllDiffer-is_foreign j (k ∷ rest) h =
    let (differs, others) = not_and (k == j) (is_foreign j rest) h in
    (differs, AllDiffer-is_foreign j rest others)

IsSpared-AllDiffer : (j : String) → AllDiffer j written_keys → IsSpared j
unfolding AllDiffer
IsSpared-AllDiffer j a = record {
  node_name = a.0;
  pod_name = a.1.0;
  namespace_name = a.1.1.0;
  namespace_uid = a.1.1.1.0;
  owners = (
    (a.1.1.1.1.0, a.1.1.1.1.1.0),
    (
      (a.1.1.1.1.1.1.0, a.1.1.1.1.1.1.1.0),
      (
        (a.1.1.1.1.1.1.1.1.0, a.1.1.1.1.1.1.1.1.1.0),
        (
          (a.1.1.1.1.1.1.1.1.1.1.0, a.1.1.1.1.1.1.1.1.1.1.1.0),
          (
            (a.1.1.1.1.1.1.1.1.1.1.1.1.0, a.1.1.1.1.1.1.1.1.1.1.1.1.1.0),
            (a.1.1.1.1.1.1.1.1.1.1.1.1.1.1.0, a.1.1.1.1.1.1.1.1.1.1.1.1.1.1.1.0),
          ),
        ),
      ),
    ),
  );
}

pub spared : (j : String) → is_foreign j written_keys ≡ true → IsSpared j
spared j h = IsSpared-AllDiffer j (AllDiffer-is_foreign j written_keys h)
