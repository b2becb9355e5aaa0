-- ===== src/Quickstart/Writes.antt =====
-- What the quickstart mode (main.go) writes, and where.
use mathlib.Core.List.{Memᴰ}
use mathlib.Core.List.Memᴰ
use lumigo_kubernetes_operat.Prelude.{
  ℕ, zero, suc, String, Bool, true, false, Option, none, some, List, [], ◌∷◌, Fallible, inl, inr,
  ◌≡◌, refl, Error, ◌==◌, eq_iff, Bool-cases, ◌⊎◌, if◌then◌else◌,
}
use lumigo_kubernetes_operat.Api.{Lumigo}
use lumigo_kubernetes_operat.Quickstart.{
  QuickstartSetting, update_if_nil, Services, quickstart_lumigo, updated_lumigo, is_ignored,
  settings_of, all_settings, get_all_namespaces_quickstart_settings, after_get, already_there,
  after_create, create_attempts, then_settings, after_secret, create_for_settings,
  with_all_settings, with_settings, create_quickstart_objects,
}

-- The value that a setting ends with: the one asked for, else the one that was there, else the
-- default.
pub data IsChosen (asked there : Option Bool) (default : Bool) : Option Bool → Type 0 where
  as_asked : {b : Bool} → asked ≡ some b → IsChosen asked there default (some b)
  as_before : {b : Bool} → asked ≡ none → there ≡ some b → IsChosen asked there default (some b)
  by_default : asked ≡ none → there ≡ none → IsChosen asked there default (some default)

-- An instance as it is updated: tracing and logging are chosen, and all else is as before.
pub record IsUpdated (s : QuickstartSetting) (before after : Lumigo) : Type 0 where
  pub tracing :
      IsChosen s.tracing_enabled before.spec.tracing.enabled true after.spec.tracing.enabled
  pub logging :
      IsChosen s.logging_enabled before.spec.logging.enabled false after.spec.logging.enabled
  pub meta : after.meta ≡ before.meta
  pub status : after.status ≡ before.status
  pub token : after.spec.lumigo_token ≡ before.spec.lumigo_token
  pub injection : after.spec.tracing.injection ≡ before.spec.tracing.injection
  pub infrastructure : after.spec.infrastructure ≡ before.spec.infrastructure

update_if_nil-IsChosen :
    (there asked : Option Bool) (default : Bool)
    → IsChosen asked there default (update_if_nil there asked (some default))
unfolding update_if_nil
update_if_nil-IsChosen none none d = by_default refl refl
update_if_nil-IsChosen none (some b) d = as_asked refl
update_if_nil-IsChosen (some a) none d = as_before refl refl
update_if_nil-IsChosen (some a) (some b) d = as_asked refl

updated_lumigo-IsUpdated : (s : QuickstartSetting) (l : Lumigo) → IsUpdated s l (updated_lumigo s l)
unfolding updated_lumigo
updated_lumigo-IsUpdated s l = record {
  tracing = update_if_nil-IsChosen l.spec.tracing.enabled s.tracing_enabled true;
  logging = update_if_nil-IsChosen l.spec.logging.enabled s.logging_enabled false;
  meta = refl;
  status = refl;
  token = refl;
  injection = refl;
  infrastructure = refl;
}

-- The settings ask for the namespace: by name, or as one of all that is not ignored, with no choices.
pub data IsAskedFor {W : Type 0} (services : Services W) (settings lumigo_namespace : String)
    : QuickstartSetting → Type 0 where
  by_name :
      {s : QuickstartSetting} {all : List QuickstartSetting}
      → services.unmarshal settings ≡ inr all
      → Memᴰ s all
      → IsAskedFor services settings lumigo_namespace s
  as_one_of_all :
      {name : String}
      → settings ≡ "all"
      → is_ignored lumigo_namespace name ≡ false
      → IsAskedFor services settings lumigo_namespace
          (record { namespace = name; tracing_enabled = none; logging_enabled = none })

not_in_nil : {A : Type 0} (a : A) → ¬ Memᴰ a []
not_in_nil a = elim [ ]

mem_of_kept :
    (b : Bool) (s t : QuickstartSetting) (later : List QuickstartSetting)
    → Memᴰ s (if b then later else t ∷ later)
    → Memᴰ s later ⊎ ((b ≡ false) × (s ≡ t))
mem_of_kept true s t later m = inl m
mem_of_kept false s t later m = elim (Memᴰ.cases_cons m) [
  | inl here ↦ inr (refl, here)
  | inr there ↦ inl there
]

module _ {W : Type 0} (services : Services W) (settings token lumigo_namespace : String) where
  abbrev Asked : QuickstartSetting → Type 0
  Asked = IsAskedFor services settings lumigo_namespace

  -- `P` survives the reads, and the writes that the settings ask for: the secret with the token, the
  -- new instance, and the update of the instance that is there.
  pub record AllowsQuickstart (P : W → Type 0) : Type 0 where
    pub listed : (w : W) → P w → P (services.list_namespaces w).0
    pub read : (namespace name : String) (w : W) → P w → P (services.get_lumigo namespace name w).0
    pub slept : (n : ℕ) (w : W) → P w → P (services.sleep n w)
    pub secret :
        (s : QuickstartSetting) (w : W)
        → Asked s
        → P w
        → P (services.create_secret s.namespace "lumigo-credentials" "token" token w).0
    pub instance_created :
        (s : QuickstartSetting) (w : W)
        → Asked s
        → P w
        → P (services.create_lumigo (quickstart_lumigo s) w).0
    pub updated :
        (s : QuickstartSetting) (l l' : Lumigo) (v w : W)
        → Asked s
        → (services.get_lumigo s.namespace "lumigo" v).1 ≡ inr l
        → IsUpdated s l l'
        → P w
        → P (services.update_lumigo l' w).0

  module _ (P : W → Type 0) (allows : AllowsQuickstart P) where
    after_get-allowed :
        (s : QuickstartSetting) (create_err : Option Error) (v : W) (r : W × Fallible Lumigo)
        → services.get_lumigo s.namespace "lumigo" v ≡ r
        → Asked s
        → P r.0
        → P (after_get services s create_err r).0
    after_get-allowed s create_err v (w, inl e) h a p = p
    after_get-allowed s create_err v (w, inr l) h a p =
        allows.updated s l (updated_lumigo s l) v w a (cc h) (updated_lumigo-IsUpdated s l) p

    after_create-allowed :
        (s : QuickstartSetting) (create_err : Option Error) (again : Error → W → W × Option Error)
        (r : W × Option Error)
        → ((e : Error) (w : W) → P w → P (again e w).0)
        → Asked s
        → P r.0
        → P (after_create services s create_err again r).0
    after_create-allowed s create_err again (w, none) ih a p = p
    after_create-allowed s create_err again (w, some e) ih a p =
        elim (Bool-cases (already_there services e)) [
          | inl h ↦ rw h (
              after_get-allowed s create_err w (services.get_lumigo s.namespace "lumigo" w) refl a
                (allows.read s.namespace "lumigo" w p))
          | inr h ↦ rw h (ih e (services.sleep 5 w) (allows.slept 5 w p))
        ]

    create_attempts-allowed :
        (n : ℕ) (s : QuickstartSetting) (create_err : Option Error) (w : W)
        → Asked s
        → P w
        → P (create_attempts services n s create_err w).0
    unfolding create_attempts
    create_attempts-allowed zero s create_err w a p = p
    create_attempts-allowed (suc n) s create_err w a p =
        after_create-allowed s create_err (λ e. create_attempts services n s (some e))
          (services.create_lumigo (quickstart_lumigo s) w)
          (λ e v q. create_attempts-allowed n s (some e) v a q) a (allows.instance_created s w a p)

    then_settings-allowed :
        (s : QuickstartSetting) (rest : W → W × Option Error) (r : W × Option Error)
        → ((w : W) → P w → P (rest w).0)
        → P r.0
        → P (then_settings services s rest r).0
    then_settings-allowed s rest (w, none) ih p = ih w p
    then_settings-allowed s rest (w, some e) ih p = p

    after_secret-allowed :
        (s : QuickstartSetting) (rest : W → W × Option Error) (r : W × Option Error)
        → ((w : W) → P w → P (rest w).0)
        → Asked s
        → P r.0
        → P (after_secret services s rest r).0
    after_secret-allowed s rest (w, none) ih a p =
        then_settings-allowed s rest _ ih (create_attempts-allowed 20 s none w a p)
    after_secret-allowed s rest (w, some e) ih a p =
        elim (Bool-cases (services.is_already_exists e)) [
          | inl h ↦
              rw h (then_settings-allowed s rest _ ih (create_attempts-allowed 20 s none w a p))
          | inr h ↦ rw h (ih w p)
        ]

    create_for_settings-allowed :
        (all : List QuickstartSetting) (w : W)
        → ((s : QuickstartSetting) → Memᴰ s all → Asked s)
        → P w
        → P (create_for_settings services token all w).0
    unfolding create_for_settings
    create_for_settings-allowed [] w a p = p
    create_for_settings-allowed (s ∷ rest) w a p =
        after_secret-allowed s (create_for_settings services token rest) _
          (λ v q. create_for_settings-allowed rest v (λ t m. a t (Memᴰ.tail m)) q)
          (a s (Memᴰ.head refl)) (allows.secret s w (a s (Memᴰ.head refl)) p)

    Asked-of_settings_of :
        (names : List String) (s : QuickstartSetting)
        → settings ≡ "all"
        → Memᴰ s (settings_of lumigo_namespace names)
        → Asked s
    unfolding settings_of
    Asked-of_settings_of [] s e m = absurd (not_in_nil s m)
    Asked-of_settings_of (name ∷ rest) s e m =
        elim (mem_of_kept (is_ignored lumigo_namespace name) s
          (record { namespace = name; tracing_enabled = none; logging_enabled = none })
          (settings_of lumigo_namespace rest) m) [
            | inl later ↦ Asked-of_settings_of rest s e later
            | inr here ↦ rw (here.1) (as_one_of_all e here.0)
          ]

    all_settings-Asked :
        (r : W × Fallible (List String)) (all : List QuickstartSetting)
        → settings ≡ "all"
        → (all_settings services lumigo_namespace r).1 ≡ inr all
        → (s : QuickstartSetting) → Memᴰ s all
        → Asked s
    all_settings-Asked (w, inl x) all e h s m = absurd (cc h)
    all_settings-Asked (w, inr names) all e h s m =
        let same : settings_of lumigo_namespace names ≡ all = cc h in
        Asked-of_settings_of names s e (rw same m)

    with_all_settings-allowed :
        (r : W × Fallible (List QuickstartSetting))
        → ((all : List QuickstartSetting)
            → r.1 ≡ inr all
            → (s : QuickstartSetting) → Memᴰ s all
            → Asked s)
        → P r.0
        → P (with_all_settings services token r).0
    with_all_settings-allowed (w, inl e) a p = p
    with_all_settings-allowed (w, inr all) a p = create_for_settings-allowed all w (a all refl) p

    with_settings-allowed :
        (r : Fallible (List QuickstartSetting)) (w : W)
        → services.unmarshal settings ≡ r
        → P w
        → P (with_settings services token r w).0
    with_settings-allowed (inl e) w h p = p
    with_settings-allowed (inr all) w h p = create_for_settings-allowed all w (λ s m. by_name h m) p

    all_settings-allowed :
        (r : W × Fallible (List String)) → P r.0 → P (all_settings services lumigo_namespace r).0
    all_settings-allowed (w, inl e) p = p
    all_settings-allowed (w, inr names) p = p

    -- The quickstart mode writes nothing but what its settings ask for: in a namespace that they name,
    -- or in any that is not ignored where they say "all", the secret with the token, a new instance, and
    -- the instance that is there with tracing and logging as asked, else as they were, else true and
    -- false, and all else as it was.
    pub create_quickstart_objects_writes_only :
        (w : W) → P w → P (create_quickstart_objects services settings token lumigo_namespace w).0
    unfolding create_quickstart_objects get_all_namespaces_quickstart_settings
    create_quickstart_objects_writes_only w p = elim (Bool-cases (settings == "all")) [
      | inl h ↦ rw h (
          with_all_settings-allowed
            (all_settings services lumigo_namespace (services.list_namespaces w))
            (λ all e s m.
              all_settings-Asked (services.list_namespaces w) all ((eq_iff settings "all").0 h) e s
                m)
            (all_settings-allowed (services.list_namespaces w) (allows.listed w p)))
      | inr h ↦ rw h (with_settings-allowed (services.unmarshal settings) w refl p)
    ]
