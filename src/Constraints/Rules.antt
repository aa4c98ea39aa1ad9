-- ===== src/Constraints/Rules.antt =====
-- The rules of the device as a list, and that the check is exactly them.
use fountainer_client_framew.Common.{◌≡◌, true, false, some, String, List, [], ◌∷◌, All}
use fountainer_client_framew.Constraints.{Doubles, Lookup, disordered, too_short, out_of_hour}

module _ {V : Type 0} (v : Doubles V) where
  -- The first datapoint is below the second, where both are known.
  abbrev pub Below : Lookup V → String × String → Type 0
  Below get r = (a b : V) → get r.0 ≡ some a → get r.1 ≡ some b → v.lt a b ≡ true

  -- The pairs of datapoints, the lower one first.
  abbrev pub pairs : List (String × String)
  pairs =
      ("Fon_Alert_Low_Pressure", "Fon_Min_Pressure")
      ∷ ("Fon_Min_Pressure", "Fon_Max_Pressure")
      ∷ ("Fon_Max_Pressure", "Fon_Alert_High_Pressure")
      ∷ ("Fon_Min_On_Time", "Fon_Max_On_Time")
      ∷ ("Fon_Dry_Run_Detect_Time", "Fon_Max_On_Time")
      ∷ []

  pub record Consistent (get : Lookup V) : Type 0 where
    pub ordered : All (Below get) pairs
    pub long_enough : (a : V) → get "Fon_Max_On_Time" ≡ some a → v.lt a v.ten ≡ false
    pub within_hour :
        (a : V)
        → get "Fon_Report_Interval" ≡ some a
        → (v.lt a v.one ≡ false) × (v.lt v.hour a ≡ false)

  -- The tests of the check, in its order.
  Passes : Lookup V → Type 0
  Passes get =
      (disordered v (get "Fon_Min_Pressure") (get "Fon_Max_Pressure") ≡ false)
      × (disordered v (get "Fon_Max_Pressure") (get "Fon_Alert_High_Pressure") ≡ false)
      × (disordered v (get "Fon_Alert_Low_Pressure") (get "Fon_Min_Pressure") ≡ false)
      × (too_short v (get "Fon_Max_On_Time") ≡ false)
      × (disordered v (get "Fon_Min_On_Time") (get "Fon_Max_On_Time") ≡ false)
      × (disordered v (get "Fon_Dry_Run_Detect_Time") (get "Fon_Max_On_Time") ≡ false)
      × (out_of_hour v (get "Fon_Report_Interval") ≡ false)
