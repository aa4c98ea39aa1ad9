-- ===== src/Tests/Writes.antt =====
-- The cross constraints at a change of two pressures, with numbers for doubles.
use fountainer_client_framew.Common.{ℕ, String, List, [], ◌∷◌, ltb}
use fountainer_client_framew.Datapoint.{DatapointValue, of_u8}
use fountainer_client_framew.Constraints.{Doubles}

abbrev value_of : DatapointValue → ℕ
value_of (of_u8 n) = n
value_of _ = 0

abbrev naturals : Doubles ℕ
naturals = record { lt = ltb; ten = 10; one = 1; hour = 3600; of_value = value_of }

abbrev changes : List (String × DatapointValue)
changes = ("Fon_Max_Pressure", of_u8 6) ∷ ("Fon_Min_Pressure", of_u8 3) ∷ []
