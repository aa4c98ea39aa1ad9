-- ===== src/Manager/Staging.antt =====
-- Staging and commit of src/datapoints/manager.cpp. `none` is what Exchange says it is.
use fountainer_client_framew.Common.{
  ℕ, Bool, true, false, not, Option, none, some, String, List, [], ◌∷◌, if◌then◌else◌,
}
use fountainer_client_framew.Error.{Error, ErrorCode, Result, ok, err, Status, validation_error}
use fountainer_client_framew.Auth.{◌>>=◌}
use fountainer_client_framew.Json.{Json}
use fountainer_client_framew.Dispatcher.Types.{RequestSpec}
use fountainer_client_framew.Dispatcher.Store.{Map, get, put}
use fountainer_client_framew.Datapoint.{DatapointValue}
use fountainer_client_framew.Catalog.{find}
use fountainer_client_framew.Codec.{Floats, validate}
use fountainer_client_framew.Constraints.{
  Doubles, Lookup, as_double, check_cross_constraints, check_changes,
}
use fountainer_client_framew.Snapshot.{WriteResult, applied}
use fountainer_client_framew.WriteSet.{assignable, set}
use fountainer_client_framew.Manager.{Manager, Call, cached_raw}
use fountainer_client_framew.Manager.Exchange.{JsonLibrary, write}

-- `stage`.
unfoldable pub stage : String → DatapointValue → Manager → Manager × Status
stage name value m = elim (assignable name value) [
  | err e ↦ (m, err e)
  | ok _ ↦ (record m { staged = put name value m.staged }, ok tt)
]

unfoldable pub has_staged_changes : Manager → Bool
has_staged_changes m = elim m.staged [ [] ↦ false | x ∷ xs ↦ true ]

unfoldable pub discard_staged : Manager → Manager
discard_staged m = record m { staged = [] }

module _ {V : Type 0} (v : Doubles V) where
  -- The cached value of a name as a double.
  unfoldable pub cached_number : Manager → Lookup V
  unfolding cached_raw as_double
  cached_number m name = elim (cached_raw name m) [ none ↦ none | some e ↦ as_double v e.value ]

  -- The lookup of `validate_staged`: a staged value, or else a cached one.
  unfoldable pub staged_number : Manager → Lookup V
  unfolding cached_number as_double
  staged_number m name = elim (get name m.staged) [
    | some value ↦ as_double v value
    | none ↦ cached_number m name
  ]

  -- `validate_constraints`.
  unfoldable pub validate_constraints : Map DatapointValue → Manager → Status
  unfolding cached_number
  validate_constraints changes m = check_changes v changes (some (cached_number m))

module _ {V : Type 0} (f : Floats V) (v : Doubles V) where
  -- The loop of `validate_staged`.
  unfoldable pub validate_each : Map DatapointValue → Option Status
  validate_each [] = some (ok tt)
  validate_each ((name, value) ∷ values) = elim (find name) [
    | none ↦ none
    | some d ↦ elim (validate f d value) [ err e ↦ some (err e) | ok _ ↦ validate_each values ]
  ]

  unfoldable pub validate_staged : Manager → Option Status
  unfolding validate_each
  validate_staged m = do
    each ← validate_each m.staged
    some (elim each [ err e ↦ err e | ok _ ↦ check_cross_constraints v (staged_number v m) ])

abbrev pub nothing_to_commit : Error
nothing_to_commit = validation_error ErrorCode.empty_selection "no staged changes to commit" ""

-- The loop of `commit`: the staged values as a write set.
unfoldable pub assemble : Map DatapointValue → Map DatapointValue → Result (Map DatapointValue)
assemble [] changes = ok changes
assemble ((name, value) ∷ staged) changes =
    let (changes', status) = set name value changes in
    elim status [ err e ↦ err e | ok _ ↦ assemble staged changes' ]

-- The manager after the answer to a commit.
unfoldable pub settled : Result WriteResult → Manager → Manager
settled (err e) m = m
settled (ok result) m = if applied result then discard_staged m else m

module _ {V : Type 0} (f : Floats V) (lib : JsonLibrary) where
  -- `commit`, over what happens during the exchange.
  unfoldable pub commit :
      ℕ
      → (RequestSpec → Manager → Manager × Result Json)
      → Manager
      → Option (Manager × List Call × Result WriteResult)
  unfolding settled
  commit now wire m =
      if not (has_staged_changes m)
      then some (m, [], err nothing_to_commit)
      else elim (assemble m.staged []) [
        | err e ↦ some (m, [], err e)
        | ok changes ↦ do
          (m', calls, result) ← write f lib now wire changes m
          some (settled result m', calls, result)
      ]
