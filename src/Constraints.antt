-- ===== src/Constraints.antt =====
-- include/fountainer/datapoints/constraints.hpp and src/datapoints/constraints.cpp, over any type of
-- doubles with its order, which need not be total: a NaN is less than nothing.
pub mod Rules
use fountainer_client_framew.Common.{
  ℕ, ◌<◌, Bool, true, false, not, ◌||◌, Option, none, some, String, List, [], ◌∷◌, same_text,
  if◌then◌else◌,
}
use fountainer_client_framew.Error.{ErrorCode, Error, Result, ok, err, Status, validation_error}
use fountainer_client_framew.Datapoint.{DatapointValue, of_text}

-- The doubles: `<`, the literals of the rules, and the conversion of a value that is no text.
pub record Doubles (V : Type 0) : Type 0 where
  pub lt : V → V → Bool
  pub ten : V
  pub one : V
  pub hour : V
  pub of_value : DatapointValue → V

-- `ConstraintValueLookup`.
abbrev pub Lookup : Type 0 → Type 0
Lookup V = String → Option V

abbrev pub violation : String → String → Error
violation datapoint rule = validation_error ErrorCode.constraint_violation rule datapoint

module _ {V : Type 0} (v : Doubles V) where
  -- `a && b && !(*a < *b)`.
  unfoldable pub disordered : Option V → Option V → Bool
  disordered (some a) (some b) = not (v.lt a b)
  disordered (some a) none = false
  disordered none b = false

  -- `a && *a < 10.0`.
  unfoldable pub too_short : Option V → Bool
  too_short none = false
  too_short (some a) = v.lt a v.ten

  -- `a && (*a < 1.0 || *a > 3600.0)`.
  unfoldable pub out_of_hour : Option V → Bool
  out_of_hour none = false
  out_of_hour (some a) = v.lt a v.one || v.lt v.hour a

  unfoldable pub check_cross_constraints : Lookup V → Status
  check_cross_constraints get =
      if disordered (get "Fon_Min_Pressure") (get "Fon_Max_Pressure")
      then err (violation "Fon_Max_Pressure" "Fon_Min_Pressure must be < Fon_Max_Pressure")
      else if disordered (get "Fon_Max_Pressure") (get "Fon_Alert_High_Pressure")
      then err
          (violation "Fon_Alert_High_Pressure" "Fon_Max_Pressure must be < Fon_Alert_High_Pressure")
      else if disordered (get "Fon_Alert_Low_Pressure") (get "Fon_Min_Pressure")
      then err
          (violation "Fon_Alert_Low_Pressure" "Fon_Alert_Low_Pressure must be < Fon_Min_Pressure")
      else if too_short (get "Fon_Max_On_Time")
      then err (violation "Fon_Max_On_Time" "Fon_Max_On_Time must be >= 10")
      else if disordered (get "Fon_Min_On_Time") (get "Fon_Max_On_Time")
      then err (violation "Fon_Min_On_Time" "Fon_Min_On_Time must be < Fon_Max_On_Time")
      else if disordered (get "Fon_Dry_Run_Detect_Time") (get "Fon_Max_On_Time")
      then err
          (violation "Fon_Dry_Run_Detect_Time" "Fon_Dry_Run_Detect_Time must be < Fon_Max_On_Time")
      else if out_of_hour (get "Fon_Report_Interval")
      then err (violation "Fon_Report_Interval" "Fon_Report_Interval must be within 1..3600")
      else ok tt

  -- The visitor: a text has no double.
  unfoldable pub as_double : DatapointValue → Option V
  as_double (of_text s) = none
  as_double value = some (v.of_value value)

  -- A changed value, or what the fallback knows, where there is one.
  unfoldable pub effective : List (String × DatapointValue) → Option (Lookup V) → Lookup V
  unfolding as_double
  effective [] none name = none
  effective [] (some fallback) name = fallback name
  effective ((other, value) ∷ changes) fallback name =
      if same_text name other then as_double value else effective changes fallback name

  -- The overload on a write set.
  unfoldable pub check_changes : List (String × DatapointValue) → Option (Lookup V) → Status
  unfolding check_cross_constraints effective
  check_changes changes fallback = check_cross_constraints (effective changes fallback)
