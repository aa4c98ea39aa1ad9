-- ===== src/WriteSet.antt =====
-- include/fountainer/datapoints/write_set.hpp and src/datapoints/write_set.cpp: a write set is the map
-- of its values.
use fountainer_client_framew.Common.{
  not, ◌==◌, none, some, String, [], ◌∷◌, concat, join, if◌then◌else◌,
}
use fountainer_client_framew.Error.{ErrorCode, ok, err, Status, validation_error}
use fountainer_client_framew.Dispatcher.Store.{Map, put}
use fountainer_client_framew.Datapoint.{
  DatapointValue, writable, variant_index, value_index_for, type_text,
}
use fountainer_client_framew.Catalog.{find}
use fountainer_client_framew.Codec.{Floats}
use fountainer_client_framew.Codec

-- The tests in front of the assignment, which `DatapointManager::stage` makes too.
unfoldable pub assignable : String → DatapointValue → Status
assignable name value = elim (find name) [
  | none ↦ err (
      validation_error ErrorCode.unknown_datapoint
        (concat ("unknown datapoint '" ∷ name ∷ "'" ∷ [])) name)
  | some d ↦
      if not (writable d)
      then err (validation_error ErrorCode.read_only_datapoint (join name " is read-only") name)
      else if not (variant_index value == value_index_for d.type)
      then err (
          validation_error ErrorCode.type_mismatch
            (concat (name ∷ " expects " ∷ type_text d.type ∷ [])) name)
      else ok tt
]

-- `DatapointWriteSet::set`.
unfoldable pub set : String → DatapointValue → Map DatapointValue → Map DatapointValue × Status
set name value values = elim (assignable name value) [
  | err e ↦ (values, err e)
  | ok _ ↦ (put name value values, ok tt)
]

module _ {V : Type 0} (f : Floats V) where
  -- The loop of `DatapointWriteSet::validate`.
  unfoldable pub validate_values : Map DatapointValue → Status
  validate_values [] = ok tt
  validate_values ((name, value) ∷ values) = elim (find name) [
    | none ↦ err (
        validation_error ErrorCode.unknown_datapoint
          (concat ("unknown datapoint '" ∷ name ∷ "'" ∷ [])) name)
    | some d ↦ elim (Codec.validate f d value) [ err e ↦ err e | ok _ ↦ validate_values values ]
  ]

  -- `DatapointWriteSet::validate`.
  unfoldable pub validate : Map DatapointValue → Status
  validate [] =
      err (validation_error ErrorCode.empty_selection "write set contains no datapoints" "")
  validate (entry ∷ values) = validate_values (entry ∷ values)
