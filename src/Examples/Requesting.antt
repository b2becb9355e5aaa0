-- ===== src/Examples/Requesting.antt =====
-- The theorems on what a reconciliation reads and answers, for a namespace with one instance and its
-- secret.
use lumigo_kubernetes_operat.Prelude.{
  String, true, false, Option, none, some, List, [], ◌∷◌, ◌≡◌, ◌≢◌, ◌↔◌, ◌⊎◌, inl, inr, Error, ◌==◌,
  if◌then◌else◌,
}
use lumigo_kubernetes_operat.Api.{Lumigo}
use lumigo_kubernetes_operat.Conditions.{has_error}
use lumigo_kubernetes_operat.Controllers.Requests.{
  Reads, NamespacedName, validate_credentials, enqueue_if_secret_referenced_by_lumigo,
  with_resources, update_status_if_needed,
}
use lumigo_kubernetes_operat.Controllers.Requests.Answers.{
  validate_credentials_iff, AreRequestsFor, enqueue_if_secret_referenced_by_lumigo_lem,
  update_status_if_needed_iff,
}
use lumigo_kubernetes_operat.Examples.{meta, spec, new_lumigo, active_lumigo}

abbrev pub reads : Reads
reads = record {
  get_secret = λ namespace name. inr (λ key. if key == "token" then some "t_0" else none);
  list_lumigoes = λ namespace. inr (active_lumigo ∷ []);
  matches_token = λ token. inr (token == "t_0");
}

validate_credentials_iff_example :
    (validate_credentials reads "shop" spec.lumigo_token ≡ inr "t_0") ↔ (
      (spec.lumigo_token.secret_ref.name ≢ "")
      × (spec.lumigo_token.secret_ref.key ≢ "")
      × ((data_of : String → Option String) × (reads.get_secret "shop"
              spec.lumigo_token.secret_ref.name
            ≡ inr data_of)
          × (data_of spec.lumigo_token.secret_ref.key ≡ some "t_0")
          × (reads.matches_token "t_0" ≡ inr true)))
validate_credentials_iff_example = validate_credentials_iff reads "shop" spec.lumigo_token "t_0"

enqueue_if_secret_referenced_by_lumigo_lem_example :
    (rest : List NamespacedName) × (enqueue_if_secret_referenced_by_lumigo reads meta
      ≡ record { namespace = ""; name = "" } ∷ rest)
    × (((lumigoes : List Lumigo) × (reads.list_lumigoes "shop" ≡ inr lumigoes)
          × AreRequestsFor "web" lumigoes rest)
        ⊎ ((e : Error) × (reads.list_lumigoes "shop" ≡ inl e) × (rest ≡ [])))
enqueue_if_secret_referenced_by_lumigo_lem_example =
    enqueue_if_secret_referenced_by_lumigo_lem reads meta

-- An API server that keeps the last status.
abbrev keep_status : Lumigo → Lumigo → (Lumigo × Lumigo) × Option Error
keep_status lumigo world = ((lumigo, lumigo), none)

update_status_if_needed_iff_example :
    (((update_status_if_needed keep_status active_lumigo new_lumigo).1 ≡ 10) ↔ (
      ((keep_status (with_resources active_lumigo) new_lumigo).1 ≡ none)
      × ((has_error (keep_status (with_resources active_lumigo) new_lumigo).0.1).0 ≡ false)))
    × (((update_status_if_needed keep_status active_lumigo new_lumigo).1 ≡ 10)
        ⊎ ((update_status_if_needed keep_status active_lumigo new_lumigo).1 ≡ 1))
update_status_if_needed_iff_example =
    update_status_if_needed_iff keep_status active_lumigo new_lumigo
