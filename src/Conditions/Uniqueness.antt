-- ===== src/Conditions/Uniqueness.antt =====
-- An instance has at most one condition of each type (conditions/conditions.go).
use lumigo_kubernetes_operat.Prelude.{
  ℕ, String, Bool, Option, none, some, List, [], ◌∷◌, ◌≡◌, refl, arith, Error,
}
use lumigo_kubernetes_operat.Api.{
  Lumigo, LumigoCondition, LumigoConditionType, ConditionStatus, status_true, status_false,
  status_unknown,
}
use lumigo_kubernetes_operat.Conditions.{
  same_type, find_condition, set_lumigo_condition, created, as_list, update_conditions,
  update_lumigo_conditions, set_active_condition_with_message, set_active_condition,
  clear_error_condition, set_error_and_active_conditions, set_active_and_error_conditions,
}
use lumigo_kubernetes_operat.Conditions.Meaning.{find-update_conditions}

-- No condition of the list has the type of one before it.
abbrev HaveUniqueTypes : List LumigoCondition → Type 0
HaveUniqueTypes [] = Unit
HaveUniqueTypes (c ∷ cs) = (find_condition c.condition_type cs ≡ none) × HaveUniqueTypes cs

created-HaveUniqueTypes :
    (t : LumigoConditionType) (now : ℕ) (status : ConditionStatus) (message : String)
    → HaveUniqueTypes (as_list (created t now status message))
unfolding find_condition
created-HaveUniqueTypes t now status_true message = (refl, tt)
created-HaveUniqueTypes t now status_false message = tt
created-HaveUniqueTypes t now status_unknown message = tt

symmetric : (a b : LumigoConditionType) → same_type a b ≡ same_type b a
unfolding same_type
symmetric a b = ground arith

update_conditions-HaveUniqueTypes :
    (t : LumigoConditionType) (now : ℕ) (status : ConditionStatus) (message : String)
    (cs : List LumigoCondition)
    → HaveUniqueTypes cs
    → HaveUniqueTypes (update_conditions t now status message cs)
unfolding update_conditions set_lumigo_condition
update_conditions-HaveUniqueTypes t now status message [] h =
    created-HaveUniqueTypes t now status message
update_conditions-HaveUniqueTypes t now status message (c ∷ cs) h = ground (
  arith,
  update_conditions-HaveUniqueTypes t now status message cs h.1,
  h.0,
  find-update_conditions c.condition_type t now status message cs,
  symmetric t c.condition_type,
)

abbrev pub HasUniqueConditions : Lumigo → Type 0
HasUniqueConditions lumigo = HaveUniqueTypes lumigo.status.conditions

update_lumigo_conditions-HasUniqueConditions :
    (lumigo : Lumigo) (t : LumigoConditionType) (now : ℕ) (status : ConditionStatus)
    (message : String)
    → HasUniqueConditions lumigo
    → HasUniqueConditions (update_lumigo_conditions lumigo t now status message)
unfolding update_lumigo_conditions
update_lumigo_conditions-HasUniqueConditions lumigo t now status message h =
    update_conditions-HaveUniqueTypes t now status message lumigo.status.conditions h

ruleset keeps_unique = (update_lumigo_conditions-HasUniqueConditions)

-- Every setter keeps an instance with at most one condition of each type such an instance.
pub setters-HasUniqueConditions :
    (text : Error → String) (lumigo : Lumigo) (now : ℕ) (is_active : Bool) (message : String)
    (e : Error) (o : Option Error)
    → HasUniqueConditions lumigo
    → HasUniqueConditions (set_active_condition_with_message lumigo now is_active message)
      × HasUniqueConditions (set_active_condition lumigo now is_active)
      × HasUniqueConditions (clear_error_condition lumigo now)
      × HasUniqueConditions (set_error_and_active_conditions text lumigo now e)
      × HasUniqueConditions (set_active_and_error_conditions text lumigo now o)
unfolding set_active_condition_with_message set_active_condition clear_error_condition
    set_error_and_active_conditions set_active_and_error_conditions
setters-HasUniqueConditions text lumigo now is_active message e none h = (
  search keeps_unique,
  search keeps_unique,
  search keeps_unique,
  search keeps_unique,
  search keeps_unique,
)
setters-HasUniqueConditions text lumigo now is_active message e (some x) h = (
  search keeps_unique,
  search keeps_unique,
  search keeps_unique,
  search keeps_unique,
  search keeps_unique,
)
