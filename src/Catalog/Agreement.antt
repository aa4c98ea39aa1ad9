-- ===== src/Catalog/Agreement.antt =====
-- The typed constants of include/fountainer/datapoints/generated.hpp against the table.
use fountainer_client_framew.Common.{
  ℕ, zero, suc, ◌≡◌, refl, sym, subst, ◌∙◌, arith, Bool, true, false, ◌&&◌, ◌==◌, Option, none,
  some, List, [], ◌∷◌, same_text, same_text_iff,
}
use fountainer_client_framew.Error.{ok}
use fountainer_client_framew.Datapoint.{
  DatapointDescriptor, DatapointValue, DatapointType, variant_index, value_index_for,
}
use fountainer_client_framew.Catalog.{
  constants, at, find, same_access, same_persistence, make_value,
}
use fountainer_client_framew.Catalog.Typed.{TypedConstant, alternative, datapoint_value_type}
use fountainer_client_framew.Catalog.Lookup.{find_iff, at-index}
use fountainer_client_framew.Catalog.Enums.{same_access_iff, same_persistence_iff}

-- The alternative that the type map gives is the one that the codec expects.
pub alternative-datapoint_value_type :
    (t : DatapointType) → alternative (datapoint_value_type t) ≡ value_index_for t
unfolding alternative datapoint_value_type value_index_for
alternative-datapoint_value_type t = ground arith

abbrev pub constant_in : List TypedConstant → ℕ → Option TypedConstant
constant_in [] i = none
constant_in (c ∷ cs) zero = some c
constant_in (c ∷ cs) (suc i) = constant_in cs i

describes : TypedConstant → Option DatapointDescriptor → Bool
describes c none = false
describes c (some d) =
    same_text d.name c.name
    && same_access d.access c.access
    && same_persistence d.persistence c.persistence
    && alternative c.value_type == value_index_for d.type

all_described : List TypedConstant → Bool
unfolding describes
all_described [] = true
all_described (c ∷ cs) = describes c (at c.index) && all_described cs

constants_described : all_described constants ≡ true
unfolding all_described constants at same_access same_persistence alternative value_index_for
constants_described = refl

-- What a typed constant says of its descriptor.
record Described (c : TypedConstant) (d : DatapointDescriptor) : Type 0 where
  pub name_same : d.name ≡ c.name
  pub access_same : d.access ≡ c.access
  pub persistence_same : d.persistence ≡ c.persistence
  pub type_same : alternative c.value_type ≡ value_index_for d.type

describes-Described :
    (c : TypedConstant) (o : Option DatapointDescriptor)
    → describes c o ≡ true
    → (d : DatapointDescriptor) × (o ≡ some d) × Described c d
unfolding describes
describes-Described c none e = cc
describes-Described c (some d) e = (
  d,
  refl,
  record {
    name_same = ground (arith, same_text_iff d.name c.name);
    access_same = ground (arith, same_access_iff d.access c.access);
    persistence_same = ground (arith, same_persistence_iff d.persistence c.persistence);
    type_same = ground arith;
  },
)

constant_in-describes :
    (cs : List TypedConstant) (i : ℕ) (c : TypedConstant)
    → all_described cs ≡ true
    → constant_in cs i ≡ some c
    → describes c (at c.index) ≡ true
unfolding all_described
constant_in-describes [] i c h e = cc
constant_in-describes (x ∷ cs) zero c h e =
    let same : x ≡ c = cc e in subst (λ y. describes y (at y.index) ≡ true) same (ground arith)
constant_in-describes (x ∷ cs) (suc i) c h e = constant_in-describes cs i c (ground arith) e

-- Each constant of the namespace `dp` stands for the descriptor at its index, which `find` gives for
-- its name; the descriptor has the access and the persistence of the constant's type, and
-- `make_value` boxes every value of the constant's C++ type for it without an error.
pub constant-make_value :
    (i : ℕ) (c : TypedConstant) (value : DatapointValue)
    → constant_in constants i ≡ some c
    → variant_index value ≡ alternative c.value_type
    → (d : DatapointDescriptor) × (at c.index ≡ some d)
      × (find c.name ≡ some d)
      × (d.access ≡ c.access)
      × (d.persistence ≡ c.persistence)
      × (make_value d value ≡ ok value)
unfolding make_value
constant-make_value i c value e v =
    let h = constant_in-describes constants i c constants_described e in
    let (d, found, k) = describes-Described c (at c.index) h in
    let p : at d.index ≡ some d =
      subst (λ j. at j ≡ some d) (sym (at-index c.index d found)) found in
    (
      d,
      found,
      (find_iff c.name d).1 (k.name_same, p),
      k.access_same,
      k.persistence_same,
      rw (v ∙ k.type_same) (ground arith),
    )
