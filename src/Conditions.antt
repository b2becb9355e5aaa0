-- ===== src/Conditions.antt =====
-- The conditions of a Lumigo instance (controller/src/controllers/conditions/conditions.go). The
-- functions write through the pointer to the instance; here they return the new instance. The
-- children prove what the conditions mean.
pub mod Meaning
pub mod Uniqueness
use Prim.Native.String.{◌++◌ as ◌⧺◌}
use lumigo_kubernetes_operat.Prelude.{
  ℕ, String, Bool, true, false, Option, none, some, List, [], ◌∷◌, ◌++◌, Error, if◌then◌else◌,
}
use lumigo_kubernetes_operat.Api.{
  Lumigo, LumigoStatus, LumigoCondition, LumigoConditionType, active, error, ConditionStatus,
  status_true, status_false, status_unknown,
}

unfoldable pub same_type : LumigoConditionType → LumigoConditionType → Bool
same_type active active = true
same_type active error = false
same_type error active = false
same_type error error = true

unfoldable pub same_status : ConditionStatus → ConditionStatus → Bool
same_status status_true status_true = true
same_status status_false status_false = true
same_status status_unknown status_unknown = true
same_status _ _ = false

-- `&status.Conditions[getConditionIndexByType(status, t)]`: the first condition of the type.
unfoldable pub find_condition : LumigoConditionType → List LumigoCondition → Option LumigoCondition
unfolding same_type
find_condition t [] = none
find_condition t (c ∷ cs) = if same_type c.condition_type t then some c else find_condition t cs

unfoldable pub get_lumigo_condition_by_type : Lumigo → LumigoConditionType → Option LumigoCondition
unfolding find_condition
get_lumigo_condition_by_type lumigo t = find_condition t lumigo.status.conditions

unfoldable pub set_lumigo_condition :
    LumigoCondition → ℕ → ConditionStatus → String → LumigoCondition
unfolding same_status
set_lumigo_condition c now status message = record {
  condition_type = c.condition_type;
  status = status;
  last_update_time = now;
  last_transition_time = if same_status c.status status then c.last_transition_time else now;
  message = message;
}

unfoldable pub new_lumigo_condition :
    LumigoConditionType → ConditionStatus → ℕ → String → LumigoCondition
new_lumigo_condition t status now message = record {
  condition_type = t;
  status = status;
  last_update_time = now;
  last_transition_time = now;
  message = message;
}

-- Where no condition of the type exists, one is made only if the status is "True".
abbrev pub created : LumigoConditionType → ℕ → ConditionStatus → String → Option LumigoCondition
created t now status_true message = some (new_lumigo_condition t status_true now message)
created t now status_false message = none
created t now status_unknown message = none

abbrev pub as_list : Option LumigoCondition → List LumigoCondition
as_list none = []
as_list (some c) = c ∷ []

-- The first condition of the type is updated in place; a new one is appended.
unfoldable pub update_conditions :
    LumigoConditionType → ℕ → ConditionStatus → String → List LumigoCondition → List LumigoCondition
unfolding same_type set_lumigo_condition new_lumigo_condition
update_conditions t now status message [] = as_list (created t now status message)
update_conditions t now status message (c ∷ cs) =
    if same_type c.condition_type t
    then set_lumigo_condition c now status message ∷ cs
    else c ∷ update_conditions t now status message cs

unfoldable pub update_lumigo_conditions :
    Lumigo → LumigoConditionType → ℕ → ConditionStatus → String → Lumigo
update_lumigo_conditions lumigo t now status message = record lumigo {
  status = record {
    conditions = update_conditions t now status message lumigo.status.conditions;
    instrumented_resources = lumigo.status.instrumented_resources;
  };
}

unfoldable pub set_active_condition_with_message : Lumigo → ℕ → Bool → String → Lumigo
set_active_condition_with_message lumigo now is_active message =
    update_lumigo_conditions lumigo active now (if is_active then status_true else status_false)
      message

unfoldable pub set_active_condition : Lumigo → ℕ → Bool → Lumigo
set_active_condition lumigo now is_active =
    set_active_condition_with_message lumigo now is_active
      (if is_active then "Lumigo is ready" else "Lumigo not ready")

unfoldable pub clear_error_condition : Lumigo → ℕ → Lumigo
clear_error_condition lumigo now = update_lumigo_conditions lumigo error now status_false ""

-- `text` renders an error, as `fmt.Sprintf("%v", err)`.
module _ (text : Error → String) where
  unfoldable pub set_error_and_active_conditions : Lumigo → ℕ → Error → Lumigo
  set_error_and_active_conditions lumigo now e =
      update_lumigo_conditions
        (set_active_condition_with_message lumigo now false
          "This Lumigo has an error, see the 'Error' condition")
        error now status_true (text e)

  -- `none` is a nil error.
  unfoldable pub set_active_and_error_conditions : Lumigo → ℕ → Option Error → Lumigo
  set_active_and_error_conditions lumigo now none =
      set_active_condition (clear_error_condition lumigo now) now true
  set_active_and_error_conditions lumigo now (some e) =
      set_error_and_active_conditions
        (update_lumigo_conditions lumigo error now status_true (text e)) now e

unfoldable pub is_true_status : ConditionStatus → Bool
is_true_status status_true = true
is_true_status status_false = false
is_true_status status_unknown = false

abbrev pub active_of : Option LumigoCondition → Bool
active_of none = false
active_of (some c) = is_true_status c.status

unfoldable pub is_active : Lumigo → Bool
is_active lumigo = active_of (get_lumigo_condition_by_type lumigo active)

abbrev pub error_of : Option LumigoCondition → Bool × String
error_of none = (false, "")
error_of (some c) = (is_true_status c.status, c.message)

unfoldable pub has_error : Lumigo → Bool × String
has_error lumigo = error_of (get_lumigo_condition_by_type lumigo error)
