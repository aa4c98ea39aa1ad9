-- ===== src/RestoreGuard/Captured.antt =====
-- What a capture of src/datapoints/restore_guard.cpp has found.
use fountainer_client_framew.Common.{
  ℕ, ◌≡◌, refl, sym, ap, subst, ◌∙◌, inl, inr, arith, true, Bool-cases, some, Option-cases, String,
  List, [], ◌∷◌, All, Among,
}
use fountainer_client_framew.Error.{Result, ok, err, Result-cases}
use fountainer_client_framew.Json.{Json, end, array, nil, object}
use fountainer_client_framew.Session.Values.{value_json, elements}
use fountainer_client_framew.Dispatcher.Types.{interactive_read}
use fountainer_client_framew.Dispatcher.Store.{Map, DistinctKeys}
use fountainer_client_framew.Datapoint.{
  DatapointDescriptor, DatapointValue, Access, read_only, read_write, write_only, writable,
}
use fountainer_client_framew.Catalog.{find, same_access}
use fountainer_client_framew.Codec.{Floats}
use fountainer_client_framew.Snapshot.{DatapointSnapshot, explicit_read, decode_dp_object}
use fountainer_client_framew.Manager.{Manager}
use fountainer_client_framew.Manager.Exchange.{read_request, read_response}
use fountainer_client_framew.Manager.Sound.{
  IsTyped, IsStageable, decode_dp_object-IsTyped, add_unknowns-values,
}
use fountainer_client_framew.Manager.Decoded.{decode_dp_object-DistinctKeys}
use fountainer_client_framew.RestoreGuard.{
  RestoreGuard, Wire, check_name, check_names, read_names, guard_of, capture,
}

-- A name that can be written.
abbrev IsWritable : String → Type 0
IsWritable name = (d : DatapointDescriptor) × (find name ≡ some d) × (writable d ≡ true)

same_access-read_write : (a : Access) → same_access a read_write ≡ true → a ≡ read_write
unfolding same_access
same_access-read_write read_only h = cc
same_access-read_write read_write h = refl
same_access-read_write write_only h = cc

read_write-writable :
    (d : DatapointDescriptor) → same_access d.access read_write ≡ true → writable d ≡ true
unfolding writable
read_write-writable d h = rw (same_access-read_write d.access h) refl

check_name-IsWritable : (name : String) (u : Unit {0}) → check_name name ≡ ok u → IsWritable name
unfolding check_name
check_name-IsWritable name u e = elim (Option-cases (find name)) [
  | inl missing ↦ cc (rw (missing, check_name) at e)
  | inr (d, found) ↦ elim (Bool-cases (same_access d.access read_write)) [
    | inl both ↦ (d, found, read_write-writable d both)
    | inr less ↦ cc (rw (found, check_name, less) at e)
  ]
]

check_names-IsWritable :
    (names : List String) (u : Unit {0})
    → check_names names ≡ ok u
    → (name : String) → Among name names
    → IsWritable name
unfolding check_names
check_names-IsWritable [] u e name h = elim h [ ]
check_names-IsWritable (x ∷ names) u e name h = elim (Result-cases (check_name x)) [
  | inr (err', bad) ↦ cc (rw (bad, check_names) at e)
  | inl (u', fine) ↦ elim h [
    | inl same ↦ subst IsWritable (sym same) (check_name-IsWritable x u' fine)
    | inr later ↦ check_names-IsWritable names u (rw (fine, check_names) at e) name later
  ]
]

asked-IsStageable :
    (names : List String) (values : Map DatapointValue)
    → ((name : String) → Among name names → IsWritable name)
    → All IsTyped values
    → All (λ p. Among p.0 names) values
    → All IsStageable values
asked-IsStageable names [] w typed asked = tt
asked-IsStageable names ((name, value) ∷ values) w typed asked =
    let (d, found, kind) = typed.0 in
    let (d', found', can) = w name asked.0 in
    let same : d ≡ d' = grind arith in
    (
      (d, found, subst (λ x. writable x ≡ true) (sym same) can, kind),
      asked-IsStageable names values w typed.1 asked.1,
    )

abbrev values_of : Result DatapointSnapshot → Map DatapointValue
values_of (err e) = []
values_of (ok s) = s.values

-- What a guard needs to be restored.
pub record IsRestorable (g : RestoreGuard) : Type 0 where
  pub is_armed : g.armed ≡ true
  pub stageable : All IsStageable g.baseline.values
  pub distinct : DistinctKeys g.baseline.values

guard_of-inverse :
    (r : Result DatapointSnapshot) (g : RestoreGuard)
    → guard_of r ≡ ok g
    → (r ≡ ok g.baseline) × (g.armed ≡ true)
unfolding guard_of
guard_of-inverse (err e) g h = cc
guard_of-inverse (ok s) g h =
    let same : record { baseline = s; armed = true } ≡ g =
      ap (λ r. elim r as (λ x. RestoreGuard) [ ok g' ↦ g' | err e ↦ g ]) h in
    (ap (λ x. ok x.baseline) same, ap (λ x. x.armed) (sym same))

module _ {V : Type 0} (f : Floats V) where
  -- What `read_names` gives has values of their types, each name once.
  read_response-IsTyped :
      (now : ℕ) (response : Result Json) (m : Manager) (s : DatapointSnapshot)
      → (read_response f now explicit_read response m).2 ≡ ok s
      → All IsTyped s.values × DistinctKeys s.values
  unfolding read_response
  read_response-IsTyped now (err e) m s h = cc
  read_response-IsTyped now (ok response) m s h =
      let dp = value_json response "dp" (object end) in
      let more = elements (value_json response "unknown" (array nil)) in
      let same : (decode_dp_object f dp).values ≡ s.values =
        sym (add_unknowns-values more (decode_dp_object f dp)) ∙ ap values_of h in
      (
        subst (All IsTyped) same (decode_dp_object-IsTyped f dp),
        subst DistinctKeys same (decode_dp_object-DistinctKeys f dp),
      )

  read_names-IsTyped :
      (now : ℕ) (wire : Wire) (names : List String) (m : Manager) (s : DatapointSnapshot)
      → (read_names f now wire names m).2 ≡ ok s
      → All IsTyped s.values × DistinctKeys s.values
  unfolding read_names
  read_names-IsTyped now wire names m s h =
      elim (Result-cases (read_request names interactive_read "")) [
        | inr (e, bad) ↦ cc (rw (bad, read_names) at h)
        | inl (spec, fine) ↦
            let (m', response) = wire spec m in
            read_response-IsTyped now response m' s (rw (fine, read_names) at h)
      ]

  pub capture-IsRestorable :
      (now : ℕ) (wire : Wire) (names : List String) (m : Manager) (g : RestoreGuard)
      → (capture f now wire names m).2 ≡ ok g
      → All (λ p. Among p.0 names) g.baseline.values
      → IsRestorable g
  unfolding capture
  capture-IsRestorable now wire [] m g h asked = cc
  capture-IsRestorable now wire (x ∷ names) m g h asked =
      elim (Result-cases (check_names (x ∷ names))) [
        | inr (e, bad) ↦ cc (rw (bad, capture) at h)
        | inl (u, fine) ↦
            let (got, on) =
              guard_of-inverse (read_names f now wire (x ∷ names) m).2 g
                (rw (fine, capture) at h) in
            let (typed, once) = read_names-IsTyped now wire (x ∷ names) m g.baseline got in
            record {
              is_armed = on;
              stageable =
                  asked-IsStageable (x ∷ names) g.baseline.values
                    (check_names-IsWritable (x ∷ names) u fine) typed asked;
              distinct = once;
            }
      ]
