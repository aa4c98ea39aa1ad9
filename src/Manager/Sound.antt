-- ===== src/Manager/Sound.antt =====
-- What holds of the cache and of the staged values of src/datapoints/manager.cpp over its life.
use fountainer_client_framew.Common.{
  ℕ, ◌≡◌, refl, sym, subst, inl, inr, arith, true, Option, some, Option-cases, String, [], ◌∷◌, All,
}
use fountainer_client_framew.Error.{ok, Result-cases}
use fountainer_client_framew.Json.{Json, object, Fields, end, field, text, Items, nil, cons}
use fountainer_client_framew.Dispatcher.Store.{Map, put-All, put-DistinctKeys, DistinctKeys}
use fountainer_client_framew.Datapoint.{
  DatapointDescriptor, DatapointValue, writable, variant_index, value_index_for,
}
use fountainer_client_framew.Catalog.{find}
use fountainer_client_framew.Codec.{Floats, value_from_json}
use fountainer_client_framew.Codec.Kinds.{value_from_json-typed}
use fountainer_client_framew.Snapshot.{
  DatapointSource, CachedValue, DatapointSnapshot, decode_dp_object, decode_members, decode_member,
  empty_snapshot, add_unknown,
}
use fountainer_client_framew.WriteSet.{assignable}
use fountainer_client_framew.Manager.{Manager, update_entry, update_values, received, aged, age_all}
use fountainer_client_framew.Manager.Cached.{update_values-rest}
use fountainer_client_framew.Manager.Staging.{stage}
use fountainer_client_framew.Manager.Exchange.{add_unknowns}

-- A name of the catalog with a value of its type.
abbrev pub IsTyped : String × DatapointValue → Type 0
IsTyped p =
    (d : DatapointDescriptor) × (find p.0 ≡ some d) × (variant_index p.1 ≡ value_index_for d.type)

abbrev pub IsCachedTyped : String × CachedValue → Type 0
IsCachedTyped p = IsTyped (p.0, p.1.value)

-- A name that can be written with a value of its type.
abbrev pub IsStageable : String × DatapointValue → Type 0
IsStageable p =
    (d : DatapointDescriptor) × (find p.0 ≡ some d)
    × (writable d ≡ true)
    × (variant_index p.1 ≡ value_index_for d.type)

pub record IsSound (m : Manager) : Type 0 where
  pub cache_typed : All IsCachedTyped m.cache
  pub staged_writable : All IsStageable m.staged
  pub staged_distinct : DistinctKeys m.staged

pub assignable-IsStageable :
    (name : String) (value : DatapointValue) (u : Unit {0})
    → assignable name value ≡ ok u
    → IsStageable (name, value)
unfolding assignable
assignable-IsStageable name value u e = elim (Option-cases (find name)) [
  | inl missing ↦ cc (rw (missing, assignable) at e)
  | inr (d, found) ↦ let k = rw (found, assignable) at e in (d, found, ground arith, ground arith)
]

pub stage-IsSound :
    (name : String) (value : DatapointValue) (m : Manager)
    → IsSound m
    → IsSound (stage name value m).0
unfolding stage
stage-IsSound name value m h = elim (Result-cases (assignable name value)) [
  | inr (e, bad) ↦ rw (bad, stage) h
  | inl (u, fine) ↦
      rw (fine, stage)
        (record {
          cache_typed = h.cache_typed;
          staged_writable =
              put-All IsStageable name value m.staged (assignable-IsStageable name value u fine)
                h.staged_writable;
          staged_distinct = put-DistinctKeys name value m.staged h.staged_distinct;
        })
]

pub add_unknowns-values :
    (xs : Items) (s : DatapointSnapshot) → (add_unknowns xs s).values ≡ s.values
unfolding add_unknowns add_unknown
add_unknowns-values nil s = refl
add_unknowns-values (cons (text name) xs) s = add_unknowns-values xs (add_unknown name s)
add_unknowns-values (cons _ xs) s = add_unknowns-values xs s

aged-value : (e : CachedValue) → e.value ≡ (aged e).value
unfolding aged
aged-value e = ground arith

pub age_all-typed :
    (cache : Map CachedValue) → All IsCachedTyped cache → All IsCachedTyped (age_all cache)
unfolding age_all
age_all-typed [] h = tt
age_all-typed ((name, e) ∷ cache) h =
    (subst (λ v. IsTyped (name, v)) (aged-value e) h.0, age_all-typed cache h.1)

module _ {V : Type 0} (f : Floats V) where
  update_entry-typed :
      (now : ℕ) (source : DatapointSource) (seq : Option ℕ) (name : String) (value : DatapointValue)
      (m : Manager)
      → IsTyped (name, value)
      → All IsCachedTyped m.cache
      → All IsCachedTyped (update_entry f now source seq name value m).0.cache
  unfolding update_entry
  update_entry-typed now source seq name value m typed h =
      rw (typed.1, update_entry)
        (put-All IsCachedTyped name (received f now source seq value) m.cache typed h)

  update_values-typed :
      (now : ℕ) (source : DatapointSource) (seq : Option ℕ) (values : Map DatapointValue)
      (m : Manager)
      → All IsTyped values
      → All IsCachedTyped m.cache
      → All IsCachedTyped (update_values f now source seq values m).0.cache
  unfolding update_values
  update_values-typed now source seq [] m typed h = h
  update_values-typed now source seq ((name, value) ∷ values) m typed h =
      update_values-typed now source seq values (update_entry f now source seq name value m).0
        typed.1 (update_entry-typed now source seq name value m typed.0 h)

  pub update_values-IsSound :
      (now : ℕ) (source : DatapointSource) (seq : Option ℕ) (values : Map DatapointValue)
      (m : Manager)
      → All IsTyped values
      → IsSound m
      → IsSound (update_values f now source seq values m).0
  update_values-IsSound now source seq values m typed h =
      let same = (update_values-rest f now source seq values m).1 in
      record {
        cache_typed = update_values-typed now source seq values m typed h.cache_typed;
        staged_writable = subst (All IsStageable) (sym same) h.staged_writable;
        staged_distinct = subst DistinctKeys (sym same) h.staged_distinct;
      }

  decode_member-IsTyped :
      (name : String) (raw : Json) (s : DatapointSnapshot)
      → All IsTyped s.values
      → All IsTyped (decode_member f name raw s).values
  unfolding decode_member
  decode_member-IsTyped name raw s h = elim (Option-cases (find name)) [
    | inl missing ↦ rw (missing, decode_member) h
    | inr (d, found) ↦ elim (Result-cases (value_from_json f d raw)) [
      | inl (value, fine) ↦
          rw (found, decode_member, fine)
            (put-All IsTyped name value s.values
              (d, found, value_from_json-typed f d raw value fine) h)
      | inr (e, bad) ↦ rw (found, decode_member, bad) h
    ]
  ]

  decode_members-IsTyped :
      (fs : Fields) (s : DatapointSnapshot)
      → All IsTyped s.values
      → All IsTyped (decode_members f fs s).values
  unfolding decode_members
  decode_members-IsTyped end s h = h
  decode_members-IsTyped (field name raw fs) s h =
      decode_members-IsTyped fs (decode_member f name raw s) (decode_member-IsTyped name raw s h)

  pub decode_dp_object-IsTyped : (dp : Json) → All IsTyped (decode_dp_object f dp).values
  unfolding decode_dp_object empty_snapshot
  decode_dp_object-IsTyped (object fs) = decode_members-IsTyped fs empty_snapshot tt
  decode_dp_object-IsTyped _ = tt
