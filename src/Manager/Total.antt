-- ===== src/Manager/Total.antt =====
-- The requests of src/datapoints/manager.cpp never meet a missing descriptor or a value of another type.
use fountainer_client_framew.Common.{
  ◌≡◌, refl, sym, ap, subst, ◌∙◌, inl, inr, arith, Bool-cases, Option, none, some, Option-cases,
  String, [], ◌∷◌, All, same_text, same_text_iff,
}
use fountainer_client_framew.Error.{Result, ok, err, Status, Result-cases}
use fountainer_client_framew.Auth.{◌>>=◌}
use fountainer_client_framew.Json.{Json, Fields, end, find_field, set_field}
use fountainer_client_framew.Json.Members.{find_field-set_field}
use fountainer_client_framew.Dispatcher.Store.{
  Map, get, put, get-put, put-DistinctKeys, DistinctKeys,
}
use fountainer_client_framew.Datapoint.{
  DatapointType, bool, u64, DatapointDescriptor, DatapointValue, of_bool, of_u64, variant_index,
  value_index_for,
}
use fountainer_client_framew.Catalog.{find}
use fountainer_client_framew.Codec.{Floats, value_to_json, to_json_for, wide_to_json}
use fountainer_client_framew.Codec
use fountainer_client_framew.Codec.Limits.{Verdict, validate-Verdict}
use fountainer_client_framew.WriteSet.{assignable, set, validate, validate_values}
use fountainer_client_framew.Manager.Exchange.{dp_object}
use fountainer_client_framew.Manager.Staging.{assemble}
use fountainer_client_framew.Manager.Sound.{IsTyped, IsStageable}

-- The JSON of a name's value, as far as the catalog knows the name.
abbrev pub json_of : {V : Type 0} → Floats V → String → Option DatapointValue → Option Json
json_of f name none = none
json_of f name (some value) = elim (find name) [ none ↦ none | some d ↦ value_to_json f d value ]

module _ {V : Type 0} (f : Floats V) where
  to_json_for_total :
      (type : DatapointType) (value : DatapointValue)
      → variant_index value ≡ value_index_for type
      → (json : Json) × (to_json_for f type value ≡ some json)
  unfolding to_json_for variant_index value_index_for
  to_json_for_total u64 (of_u64 n) e = (_, refl)
  to_json_for_total u64 (of_bool _) e = absurd (omega arith)
  to_json_for_total u64 _ e = absurd (omega arith)
  to_json_for_total bool value e = (_, refl)
  to_json_for_total _ value e = (_, refl)

  value_to_json_total :
      (d : DatapointDescriptor) (value : DatapointValue)
      → variant_index value ≡ value_index_for d.type
      → (json : Json) × (value_to_json f d value ≡ some json)
  unfolding value_to_json
  value_to_json_total d value e = to_json_for_total d.type value e

  json_of_known :
      (name : String) (d : DatapointDescriptor) (value : DatapointValue)
      → find name ≡ some d
      → json_of f name (some value) ≡ value_to_json f d value
  json_of_known name d value known = rw (known, json_of) refl

  abbrev placed : String → Option DatapointValue → Option Json → Option Json
  placed name none before = before
  placed name (some value) before = json_of f name (some value)

  -- The object of a write has the JSON of each value under its name, and else what was there.
  abbrev Holds : Map DatapointValue → Fields → Fields → Type 0
  Holds values before fs =
      (name : String) → find_field name fs ≡ placed name (get name values) (find_field name before)

  placed-cons :
      (name key : String) (value : DatapointValue) (values : Map DatapointValue)
      (d : DatapointDescriptor) (json : Json) (before : Fields)
      → find key ≡ some d
      → value_to_json f d value ≡ some json
      → get key values ≡ none
      → placed name (get name values) (find_field name (set_field key json before))
        ≡ placed name (get name ((key, value) ∷ values)) (find_field name before)
  unfolding get
  placed-cons name key value values d json before found written absent =
      ap (placed name (get name values)) (find_field-set_field key name json before)
      ∙ elim (Bool-cases (same_text name key)) [
        | inl same ↦
            let named = (same_text_iff name key).0 same in
            let none_left = subst (λ k. get k values ≡ none) (sym named) absent in
            let known = subst (λ k. find k ≡ some d) (sym named) found in
            rw (same, none_left) (sym written ∙ sym (json_of_known name d value known))
        | inr apart ↦ rw apart refl
      ]

  dp_object-Holds :
      (values : Map DatapointValue) (before : Fields)
      → All IsTyped values
      → DistinctKeys values
      → (fs : Fields) × (dp_object f values before ≡ some fs) × Holds values before fs
  unfolding dp_object get
  dp_object-Holds [] before h distinct = (before, refl, λ name. refl)
  dp_object-Holds ((key, value) ∷ values) before ((d, found, typed), h) distinct =
      let (json, written) = value_to_json_total d value typed in
      let (fs, built, holds) = dp_object-Holds values (set_field key json before) h distinct.1 in
      (
        fs,
        rw (found, dp_object, written, ◌>>=◌) built,
        λ name.
            holds name ∙ placed-cons name key value values d json before found written distinct.0,
      )

  validate_values-IsTyped :
      (values : Map DatapointValue) (u : Unit {0})
      → validate_values f values ≡ ok u
      → All IsTyped values
  unfolding validate_values
  validate_values-IsTyped [] u e = tt
  validate_values-IsTyped ((name, value) ∷ values) u e = elim (Option-cases (find name)) [
    | inl missing ↦ cc (rw (missing, validate_values) at e)
    | inr (d, found) ↦ elim (Result-cases (Codec.validate f d value)) [
      | inl (w, fine) ↦
          let verdict = subst (Verdict f d value) fine (validate-Verdict f d value) in
          (
            (d, found, verdict.0),
            validate_values-IsTyped values u (rw (found, validate_values, fine) at e),
          )
      | inr (x, bad) ↦ cc (rw (found, validate_values, bad) at e)
    ]
  ]

  pub validate-IsTyped :
      (values : Map DatapointValue) (u : Unit {0}) → validate f values ≡ ok u → All IsTyped values
  unfolding validate
  validate-IsTyped [] u e = tt
  validate-IsTyped (entry ∷ values) u e = validate_values-IsTyped (entry ∷ values) u e

  -- What a write sends holds the JSON of its values, each under its name, and nothing else.
  abbrev pub Sends : Map DatapointValue → Fields → Type 0
  Sends values fs = (name : String) → find_field name fs ≡ json_of f name (get name values)

  pub dp_object-Sends :
      (values : Map DatapointValue)
      → All IsTyped values
      → DistinctKeys values
      → (fs : Fields) × (dp_object f values end ≡ some fs) × Sends values fs
  unfolding find_field
  dp_object-Sends values h distinct =
      let (fs, built, holds) = dp_object-Holds values end h distinct in
      (
        fs,
        built,
        λ name. holds name ∙ elim (Option-cases (get name values)) [
          | inl absent ↦ rw absent refl
          | inr (value, there) ↦ rw there refl
        ],
      )

IsStageable-assignable :
    (name : String) (value : DatapointValue)
    → IsStageable (name, value)
    → assignable name value ≡ ok tt
unfolding assignable
IsStageable-assignable name value (d, found, open_access, typed) =
    rw (found, assignable, open_access) (ground arith)

set-assigned :
    (name : String) (value : DatapointValue) (changes : Map DatapointValue)
    → IsStageable (name, value)
    → set name value changes ≡ (put name value changes, ok tt)
unfolding set
set-assigned name value changes h = rw (IsStageable-assignable name value h, set) refl

abbrev either_of : Option DatapointValue → Option DatapointValue → Option DatapointValue
either_of none b = b
either_of (some a) b = some a

-- The staged values pass the tests of the write set once more: it holds them all.
assemble-get :
    (staged changes : Map DatapointValue)
    → All IsStageable staged
    → DistinctKeys staged
    → DistinctKeys changes
    → (all : Map DatapointValue) × (assemble staged changes ≡ ok all)
      × DistinctKeys all
      × ((name : String) → get name all ≡ either_of (get name staged) (get name changes))
unfolding assemble get
assemble-get [] changes h distinct fresh = (changes, refl, fresh, λ name. refl)
assemble-get ((key, value) ∷ staged) changes h distinct fresh =
    let (all, built, once, holds) =
      assemble-get staged (put key value changes) h.1 distinct.1
        (put-DistinctKeys key value changes fresh) in
    (
      all,
      subst
          (λ (r : Map DatapointValue × Status).
            ◌≡◌ {A = Result (Map DatapointValue)}
              (elim r.1 [ err e ↦ err e | ok _ ↦ assemble staged r.0 ]) (ok all))
          (sym (set-assigned key value changes h.0)) built,
      once,
      λ name.
          holds name
          ∙ ap (either_of (get name staged)) (get-put key name value changes)
          ∙ elim (Bool-cases (same_text name key)) [
            | inl same ↦
                let absent : get name staged ≡ none =
                  subst (λ k. get k staged ≡ none) (sym ((same_text_iff name key).0 same))
                    distinct.0 in
                rw (same, absent) refl
            | inr apart ↦ rw apart refl
          ],
    )

-- The write set of a commit has the entries of the staging, each once.
pub assemble-staged :
    (staged : Map DatapointValue)
    → All IsStageable staged
    → DistinctKeys staged
    → (all : Map DatapointValue) × (assemble staged [] ≡ ok all)
      × DistinctKeys all
      × ((name : String) → get name all ≡ get name staged)
unfolding get
assemble-staged staged h distinct =
    let (all, built, once, holds) = assemble-get staged [] h distinct tt in
    (
      all,
      built,
      once,
      λ name. holds name ∙ elim (Option-cases (get name staged)) [
        | inl absent ↦ rw absent refl
        | inr (value, there) ↦ rw there refl
      ],
    )
