-- ===== src/Conditions/Meaning.antt =====
-- What the setters of conditions/conditions.go make of an instance, read by its getters.
use lumigo_kubernetes_operat.Prelude.{
  ℕ, String, Bool, true, false, not, ap, ◌↔◌, Option, none, some, List, [], ◌∷◌, ◌≡◌, ◌≢◌, refl,
  arith, Error, if◌then◌else◌,
}
use lumigo_kubernetes_operat.Api.{
  Lumigo, LumigoCondition, LumigoConditionType, active, error, ConditionStatus, status_true,
  status_false, status_unknown,
}
use lumigo_kubernetes_operat.Conditions.{
  same_type, same_status, find_condition, get_lumigo_condition_by_type, set_lumigo_condition,
  active_of, error_of, new_lumigo_condition, created, as_list, update_conditions,
  update_lumigo_conditions, set_active_condition_with_message, set_active_condition,
  clear_error_condition, set_error_and_active_conditions, set_active_and_error_conditions,
  is_true_status, is_active, has_error,
}

-- What an update makes of the first condition of its type.
abbrev pub updated :
    LumigoConditionType
    → ℕ
    → ConditionStatus
    → String
    → Option LumigoCondition
    → Option LumigoCondition
updated t now status message (some c) = some (set_lumigo_condition c now status message)
updated t now status message none = created t now status message

find-created :
    (u t : LumigoConditionType) (now : ℕ) (status : ConditionStatus) (message : String)
    → find_condition u (as_list (created t now status message))
      ≡ (if same_type t u then created t now status message else none)
unfolding find_condition new_lumigo_condition
find-created u t now status_true message = refl
find-created u t now status_false message = ground arith
find-created u t now status_unknown message = ground arith

pub find-update_conditions :
    (u t : LumigoConditionType) (now : ℕ) (status : ConditionStatus) (message : String)
    (cs : List LumigoCondition)
    → find_condition u (update_conditions t now status message cs) ≡ (
        if same_type t u
        then updated t now status message (find_condition t cs)
        else find_condition u cs)
unfolding find_condition update_conditions
find-update_conditions u t now status message [] = find-created u t now status message
find-update_conditions u t now status message (c ∷ cs) =
    ground (arith, find-update_conditions u t now status message cs)

get-update_lumigo_conditions :
    (u t : LumigoConditionType) (lumigo : Lumigo) (now : ℕ) (status : ConditionStatus)
    (message : String)
    → get_lumigo_condition_by_type (update_lumigo_conditions lumigo t now status message) u ≡ (
        if same_type t u
        then updated t now status message (get_lumigo_condition_by_type lumigo t)
        else get_lumigo_condition_by_type lumigo u)
unfolding get_lumigo_condition_by_type update_lumigo_conditions
get-update_lumigo_conditions u t lumigo now status message =
    find-update_conditions u t now status message lumigo.status.conditions

same_type_refl : (a : LumigoConditionType) → same_type a a ≡ true
unfolding same_type
same_type_refl active = refl
same_type_refl error = refl

-- The conditions that two updates in a row leave, one of each type.
both_updates :
    (lumigo : Lumigo) (t u : LumigoConditionType) (now : ℕ) (s r : ConditionStatus)
    (message note : String)
    → same_type u t ≡ false
    → same_type t u ≡ false
    → (get_lumigo_condition_by_type
          (update_lumigo_conditions (update_lumigo_conditions lumigo t now s message) u now r note)
          t
        ≡ updated t now s message (get_lumigo_condition_by_type lumigo t))
      × (get_lumigo_condition_by_type
            (update_lumigo_conditions
              (update_lumigo_conditions lumigo t now s message)
              u
              now
              r
              note)
            u
          ≡ updated u now r note (get_lumigo_condition_by_type lumigo u))
both_updates lumigo t u now s r message note h k =
    let first = update_lumigo_conditions lumigo t now s message in
    (
      rw (get-update_lumigo_conditions t u first now r note, h)
          (rw (get-update_lumigo_conditions t t lumigo now s message, same_type_refl t)),
      rw (get-update_lumigo_conditions u u first now r note, same_type_refl u)
          (rw (get-update_lumigo_conditions u t lumigo now s message, k)),
    )

error_of-updated :
    (now : ℕ) (message : String) (o : Option LumigoCondition)
    → error_of (updated error now status_true message o) ≡ (true, message)
unfolding set_lumigo_condition new_lumigo_condition is_true_status
error_of-updated now message none = refl
error_of-updated now message (some c) = refl

active_of-updated-true :
    (now : ℕ) (message : String) (o : Option LumigoCondition)
    → active_of (updated active now status_true message o) ≡ true
unfolding set_lumigo_condition new_lumigo_condition is_true_status
active_of-updated-true now message none = refl
active_of-updated-true now message (some c) = refl

active_of-updated-false :
    (t : LumigoConditionType) (now : ℕ) (message : String) (o : Option LumigoCondition)
    → active_of (updated t now status_false message o) ≡ false
unfolding set_lumigo_condition is_true_status
active_of-updated-false t now message none = refl
active_of-updated-false t now message (some c) = refl

error_of-updated-false :
    (now : ℕ) (message : String) (o : Option LumigoCondition)
    → (error_of (updated error now status_false message o)).0 ≡ false
unfolding set_lumigo_condition is_true_status
error_of-updated-false now message none = refl
error_of-updated-false now message (some c) = refl

abbrev is_none {ℓ} : {A : Type ℓ} → Option A → Bool
is_none none = true
is_none (some a) = false

module _ (text : Error → String) where
  -- A failure makes the instance inactive, with an error whose message is the failure's text.
  pub set_error_and_active_conditions_lem :
      (lumigo : Lumigo) (now : ℕ) (e : Error)
      → (is_active (set_error_and_active_conditions text lumigo now e) ≡ false)
        × (has_error (set_error_and_active_conditions text lumigo now e) ≡ (true, text e))
  unfolding set_error_and_active_conditions set_active_condition_with_message is_active has_error
      same_type
  set_error_and_active_conditions_lem lumigo now e =
      let (a, b) =
        both_updates lumigo active error now status_false status_true
          "This Lumigo has an error, see the 'Error' condition" (text e) refl refl in
      (rw a (active_of-updated-false active now _ _), rw b (error_of-updated now (text e) _))

  -- An instance without an Active condition, one that was just created, has none after a failure
  -- either, and so counts as just created at the next reconciliation.
  pub failure_keeps_just_created :
      (lumigo : Lumigo) (now : ℕ) (e : Error)
      → get_lumigo_condition_by_type lumigo active ≡ none
      → get_lumigo_condition_by_type (set_error_and_active_conditions text lumigo now e) active
        ≡ none
  unfolding set_error_and_active_conditions set_active_condition_with_message same_type
  failure_keeps_just_created lumigo now e h =
      rw
        (both_updates lumigo active error now status_false status_true
          "This Lumigo has an error, see the 'Error' condition" (text e) refl refl).0
        (rw h)

  active-clear_error :
      (lumigo : Lumigo) (now : ℕ)
      → (is_active (set_active_and_error_conditions text lumigo now none) ≡ true)
        × ((has_error (set_active_and_error_conditions text lumigo now none)).0 ≡ false)
  unfolding set_active_and_error_conditions set_active_condition set_active_condition_with_message
      clear_error_condition is_active has_error same_type
  active-clear_error lumigo now =
      let (a, b) =
        both_updates lumigo error active now status_false status_true "" "Lumigo is ready" refl
          refl in
      (rw b (active_of-updated-true now _ _), rw a (error_of-updated-false now "" _))

  -- Setting both conditions at once: an instance with an error is inactive and shows that error, one
  -- without is active and shows none.
  set_active_and_error_conditions_lem :
      (lumigo : Lumigo) (now : ℕ) (o : Option Error)
      → (is_active (set_active_and_error_conditions text lumigo now o) ≡ is_none o)
        × ((has_error (set_active_and_error_conditions text lumigo now o)).0 ≡ not (is_none o))
  set_active_and_error_conditions_lem lumigo now none = active-clear_error lumigo now
  set_active_and_error_conditions_lem lumigo now (some e) =
      let failed =
        set_error_and_active_conditions_lem
          (update_lumigo_conditions lumigo error now status_true (text e)) now e in
      unfold set_active_and_error_conditions in (failed.0, ap (λ (r : Bool × String). r.0) failed.1)

-- The last two steps of a reconciliation: the instance is active and has no error.
activation_lem :
    (lumigo : Lumigo) (now : ℕ)
    → let done = clear_error_condition (set_active_condition lumigo now true) now in
      (is_active done ≡ true) × ((has_error done).0 ≡ false)
unfolding set_active_condition set_active_condition_with_message clear_error_condition is_active
    has_error same_type
activation_lem lumigo now =
    let (a, b) =
      both_updates lumigo active error now status_true status_false "Lumigo is ready" "" refl
        refl in
    (rw a (active_of-updated-true now _ _), rw b (error_of-updated-false now "" _))

pub clear_error_condition_lem :
    (lumigo : Lumigo) (now : ℕ) → (has_error (clear_error_condition lumigo now)).0 ≡ false
unfolding clear_error_condition has_error same_type
clear_error_condition_lem lumigo now =
    rw (get-update_lumigo_conditions error error lumigo now status_false "")
      (error_of-updated-false now "" _)

same_status_iff : (a b : ConditionStatus) → (same_status a b ≡ true) ↔ (a ≡ b)
unfolding same_status
same_status_iff a b = ground arith

-- How a condition is brought up to date.
pub record IsUpdateOf (c : LumigoCondition) (now : ℕ) (status : ConditionStatus) (message : String)
    (d : LumigoCondition) : Type 0 where
  same_kind : d.condition_type ≡ c.condition_type
  new_status : d.status ≡ status
  new_message : d.message ≡ message
  updated_now : d.last_update_time ≡ now
  no_transition : status ≡ c.status → d.last_transition_time ≡ c.last_transition_time
  pub transition : status ≢ c.status → d.last_transition_time ≡ now

-- What an update makes of the first condition of its type: it is brought up to date; where there is
-- none, one is made that became true now, or none if the status is not "True".
pub data IsUpdated (t : LumigoConditionType) (now : ℕ) (status : ConditionStatus) (message : String)
    : Option LumigoCondition → Option LumigoCondition → Type 0 where
  brought_up_to_date :
      {c d : LumigoCondition}
      → IsUpdateOf c now status message d
      → IsUpdated t now status message (some c) (some d)
  made :
      {d : LumigoCondition}
      → status ≡ status_true
      → d ≡ record {
        condition_type = t;
        status = status_true;
        last_update_time = now;
        last_transition_time = now;
        message = message;
      }
      → IsUpdated t now status message none (some d)
  absent : status ≢ status_true → IsUpdated t now status message none none

set-IsUpdateOf :
    (c : LumigoCondition) (now : ℕ) (status : ConditionStatus) (message : String)
    → IsUpdateOf c now status message (set_lumigo_condition c now status message)
unfolding set_lumigo_condition
set-IsUpdateOf c now status message = record {
  same_kind = refl;
  new_status = refl;
  new_message = refl;
  updated_now = refl;
  no_transition = λ e. ground (arith, (same_status_iff c.status status).1, e);
  transition = λ n. ground (arith, same_status_iff c.status status, n);
}

updated-IsUpdated :
    (t : LumigoConditionType) (now : ℕ) (status : ConditionStatus) (message : String)
    (o : Option LumigoCondition)
    → IsUpdated t now status message o (updated t now status message o)
unfolding new_lumigo_condition
updated-IsUpdated t now status message (some c) =
    brought_up_to_date (set-IsUpdateOf c now status message)
updated-IsUpdated t now status_true message none = made refl refl
updated-IsUpdated t now status_false message none = absent (λ e. cc e)
updated-IsUpdated t now status_unknown message none = absent (λ e. cc e)

other_type : (t u : LumigoConditionType) → u ≢ t → same_type t u ≡ false
unfolding same_type
other_type t u n = ground arith

-- An update brings the first condition of its type up to date: its status and its message are the
-- given ones, its update time is now, and its transition time is now exactly if the status is
-- another than before. Where there is no condition of the type, one is made that is true since now,
-- or none if the status is not "True". The first condition of the other type stays as it is.
pub update_conditions-IsUpdated :
    (t : LumigoConditionType) (now : ℕ) (status : ConditionStatus) (message : String)
    (cs : List LumigoCondition)
    → IsUpdated t now status message
        (find_condition t cs)
        (find_condition t (update_conditions t now status message cs))
      × ((u : LumigoConditionType)
          → u ≢ t
          → find_condition u (update_conditions t now status message cs) ≡ find_condition u cs)
update_conditions-IsUpdated t now status message cs = (
  rw (find-update_conditions t t now status message cs, same_type_refl t)
      (updated-IsUpdated t now status message (find_condition t cs)),
  λ u n. rw (find-update_conditions u t now status message cs, other_type t u n) refl,
)
