-- ===== src/Catalog.antt =====
-- src/datapoints/catalog.cpp and include/fountainer/datapoints/catalog.hpp over the table of
-- include/fountainer/datapoints/generated.hpp, which Table1 to Table4 hold in its order.
pub mod Table1
pub mod Table2
pub mod Table3
pub mod Table4
pub mod Typed
pub mod Enums
pub mod Lookup
pub mod Agreement
pub mod Constants1
pub mod Constants2
use fountainer_client_framew.Common.{
  ℕ, zero, suc, Bool, true, false, not, ◌==◌, concat, Option, none, some, String, List, [], ◌∷◌,
  ◌++◌, same_text, if◌then◌else◌,
}
use fountainer_client_framew.Error.{ErrorCode, Result, ok, err, validation_error}
use fountainer_client_framew.Datapoint.{
  DatapointValue, variant_index, value_index_for, type_text, DatapointDescriptor, Access, read_only,
  read_write, write_only, Persistence, volatile, nvs, static, PollClass, realtime, status, config,
  on_connect, disabled,
}
use fountainer_client_framew.Catalog.Table1.{descriptors_1}
use fountainer_client_framew.Catalog.Table2.{descriptors_2}
use fountainer_client_framew.Catalog.Table3.{descriptors_3}
use fountainer_client_framew.Catalog.Table4.{descriptors_4}
use fountainer_client_framew.Catalog.Typed.{TypedConstant}
use fountainer_client_framew.Catalog.Constants1.{constants_1}
use fountainer_client_framew.Catalog.Constants2.{constants_2}

-- `kDatapointDescriptors`.
unfoldable pub descriptors : List DatapointDescriptor
descriptors = descriptors_1 ++ (descriptors_2 ++ (descriptors_3 ++ descriptors_4))

-- The constants of the namespace `dp`.
unfoldable pub constants : List TypedConstant
constants = constants_1 ++ constants_2

-- The index of the names holds the first descriptor of each name, since `emplace` keeps what is there.
unfoldable pub find_in : List DatapointDescriptor → String → Option DatapointDescriptor
find_in [] name = none
find_in (d ∷ ds) name = if same_text name d.name then some d else find_in ds name

-- `at`: outside the table it throws, which is `none`.
unfoldable pub at_in : List DatapointDescriptor → ℕ → Option DatapointDescriptor
at_in [] i = none
at_in (d ∷ ds) zero = some d
at_in (d ∷ ds) (suc i) = at_in ds i

unfoldable pub find : String → Option DatapointDescriptor
unfolding find_in descriptors
find = find_in descriptors

unfoldable pub at : ℕ → Option DatapointDescriptor
unfolding at_in descriptors
at = at_in descriptors

unfoldable pub collect : (DatapointDescriptor → Bool) → List DatapointDescriptor → List String
collect wanted [] = []
collect wanted (d ∷ ds) = let rest = collect wanted ds in if wanted d then d.name ∷ rest else rest

unfoldable pub all_names : List String
unfolding collect descriptors
all_names = collect (λ d. true) descriptors

-- `==` of the enumerations.
unfoldable pub same_access : Access → Access → Bool
same_access read_only read_only = true
same_access read_write read_write = true
same_access write_only write_only = true
same_access _ _ = false

unfoldable pub same_persistence : Persistence → Persistence → Bool
same_persistence volatile volatile = true
same_persistence nvs nvs = true
same_persistence static static = true
same_persistence _ _ = false

unfoldable pub same_poll_class : PollClass → PollClass → Bool
same_poll_class realtime realtime = true
same_poll_class status status = true
same_poll_class config config = true
same_poll_class on_connect on_connect = true
same_poll_class disabled disabled = true
same_poll_class _ _ = false

unfoldable pub names_with_access : Access → List String
unfolding collect descriptors same_access
names_with_access wanted = collect (λ d. same_access d.access wanted) descriptors

unfoldable pub names_with_persistence : Persistence → List String
unfolding collect descriptors same_persistence
names_with_persistence wanted = collect (λ d. same_persistence d.persistence wanted) descriptors

unfoldable pub names_with_poll_class : PollClass → List String
unfolding collect descriptors same_poll_class
names_with_poll_class wanted = collect (λ d. same_poll_class d.poll_class wanted) descriptors

-- `make_value` of a value that the variant already holds.
unfoldable pub make_value : DatapointDescriptor → DatapointValue → Result DatapointValue
make_value d value =
    if not (variant_index value == value_index_for d.type)
    then err (
        validation_error ErrorCode.type_mismatch
          (concat (d.name ∷ " expects " ∷ type_text d.type ∷ [])) d.name)
    else ok value
