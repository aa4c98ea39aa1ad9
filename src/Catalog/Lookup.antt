-- ===== src/Catalog/Lookup.antt =====
-- The two ways into the table of src/datapoints/catalog.cpp, by name and by index, and its lists of
-- names.
use fountainer_client_framew.Common.{
  ℕ, zero, suc, ◌+◌, ◌≡◌, refl, sym, ap, subst, ◌∙◌, ◌↔◌, inl, inr, arith, Bool, true, false, not,
  ◌&&◌, ◌||◌, ◌==◌, Bool-cases, some, String, List, [], ◌∷◌, same_text, same_text_iff,
  same_text_refl,
}
use fountainer_client_framew.Datapoint.{DatapointDescriptor, Access, Persistence, PollClass}
use fountainer_client_framew.Catalog.Enums.{
  same_access_iff, same_persistence_iff, same_poll_class_iff,
}
use fountainer_client_framew.Catalog.{
  descriptors, find_in, at_in, find, at, collect, same_access, same_persistence, same_poll_class,
  names_with_access, names_with_persistence, names_with_poll_class,
}

abbrev pub holds : String → List String → Bool
holds name [] = false
holds name (x ∷ xs) = same_text name x || holds name xs

-- The rows are numbered from `i` on.
numbered : ℕ → List DatapointDescriptor → Bool
numbered i [] = true
numbered i (d ∷ ds) = (d.index == i) && numbered (suc i) ds

is_named : String → List DatapointDescriptor → Bool
is_named name [] = false
is_named name (d ∷ ds) = same_text name d.name || is_named name ds

distinct : List DatapointDescriptor → Bool
unfolding is_named
distinct [] = true
distinct (d ∷ ds) = not (is_named d.name ds) && distinct ds

table_numbered : numbered 0 descriptors ≡ true
unfolding numbered descriptors
table_numbered = refl

table_distinct : distinct descriptors ≡ true
unfolding distinct descriptors
table_distinct = refl

find_in-name :
    (ds : List DatapointDescriptor) (name : String) (d : DatapointDescriptor)
    → find_in ds name ≡ some d
    → d.name ≡ name
unfolding find_in
find_in-name [] name d e = cc
find_in-name (x ∷ ds) name d e = ground (arith, same_text_iff name x.name, find_in-name ds name d)

find_in-named :
    (ds : List DatapointDescriptor) (name : String) (d : DatapointDescriptor)
    → find_in ds name ≡ some d
    → is_named name ds ≡ true
unfolding find_in is_named
find_in-named [] name d e = cc
find_in-named (x ∷ ds) name d e = ground (arith, find_in-named ds name d)

at_in-named :
    (ds : List DatapointDescriptor) (i : ℕ) (d : DatapointDescriptor)
    → at_in ds i ≡ some d
    → is_named d.name ds ≡ true
unfolding at_in is_named
at_in-named [] i d e = cc
at_in-named (x ∷ ds) zero d e = ground (arith, same_text_refl d.name)
at_in-named (x ∷ ds) (suc i) d e = ground (arith, at_in-named ds i d)

-- By index, and back by name.
at_in-find_in :
    (k i : ℕ) (ds : List DatapointDescriptor) (d : DatapointDescriptor)
    → numbered k ds ≡ true
    → distinct ds ≡ true
    → at_in ds i ≡ some d
    → (d.index ≡ k + i) × (find_in ds d.name ≡ some d)
unfolding at_in find_in numbered distinct
at_in-find_in k i [] d n u e = cc
at_in-find_in k zero (x ∷ ds) d n u e = ground (arith, same_text_refl d.name)
at_in-find_in k (suc i) (x ∷ ds) d n u e =
    ground (arith, same_text_iff d.name x.name, at_in-named ds i d, at_in-find_in (suc k) i ds d)

find_in-at_in :
    (k : ℕ) (ds : List DatapointDescriptor) (name : String) (d : DatapointDescriptor)
    → numbered k ds ≡ true
    → find_in ds name ≡ some d
    → (i : ℕ) × (d.index ≡ k + i) × (at_in ds i ≡ some d)
unfolding at_in find_in numbered
find_in-at_in k [] name d n e = cc
find_in-at_in k (x ∷ ds) name d n e = elim (Bool-cases (same_text name x.name)) [
  | inl here ↦ (0, ground arith, ground arith)
  | inr later ↦
      let m : numbered (suc k) ds ≡ true = ground arith in
      let (i, p, q) = find_in-at_in (suc k) ds name d m (rw later at e) in (suc i, omega arith, q)
]

pub at-index : (i : ℕ) (d : DatapointDescriptor) → at i ≡ some d → d.index ≡ i
unfolding at
at-index i d e = (at_in-find_in 0 i descriptors d table_numbered table_distinct e).0 ∙ omega arith

-- `find` gives a descriptor for a name exactly if the descriptor has that name and stands in the
-- table at its own index.
pub find_iff :
    (name : String) (d : DatapointDescriptor)
    → (find name ≡ some d) ↔ ((d.name ≡ name) × (at d.index ≡ some d))
unfolding find at
find_iff name d = (
  λ e.
      let (i, p, q) = find_in-at_in 0 descriptors name d table_numbered e in
      let same : d.index ≡ i = omega arith in
      (find_in-name descriptors name d e, subst (λ j. at_in descriptors j ≡ some d) (sym same) q),
  λ (named, e).
      subst (λ s. find_in descriptors s ≡ some d) named
        (at_in-find_in 0 d.index descriptors d table_numbered table_distinct e).1,
)

collect-named :
    (p : DatapointDescriptor → Bool) (ds : List DatapointDescriptor) (name : String)
    → holds name (collect p ds) ≡ true
    → is_named name ds ≡ true
unfolding collect is_named
collect-named p [] name e = cc
collect-named p (d ∷ ds) name e = ground (arith, collect-named p ds name)

-- What `collect` lists, for a table whose names are distinct.
collect-holds :
    (p : DatapointDescriptor → Bool) (ds : List DatapointDescriptor) (name : String)
    (d : DatapointDescriptor)
    → distinct ds ≡ true
    → find_in ds name ≡ some d
    → holds name (collect p ds) ≡ p d
unfolding collect find_in distinct
collect-holds p [] name d u e = cc
collect-holds p (x ∷ ds) name d u e = elim (Bool-cases (same_text name x.name)) [
  | inl here ↦
      let same : x ≡ d = ground arith in
      let fresh : is_named name ds ≡ false =
        subst (λ s. is_named s ds ≡ false) (sym ((same_text_iff name x.name).0 here))
          (ground arith) in
      elim (Bool-cases (p x)) [
        | inl wanted ↦ ground (arith, ap p same)
        | inr other ↦ elim (Bool-cases (holds name (collect p ds))) [
          | inl listed ↦ cc (collect-named p ds name listed)
          | inr absent ↦ ground (arith, ap p same)
        ]
      ]
  | inr later ↦ ground (arith, collect-holds p ds name d)
]

find_in_total :
    (ds : List DatapointDescriptor) (name : String)
    → is_named name ds ≡ true
    → (d : DatapointDescriptor) × (find_in ds name ≡ some d)
unfolding find_in is_named
find_in_total [] name e = cc
find_in_total (x ∷ ds) name e = elim (Bool-cases (same_text name x.name)) [
  | inl here ↦ (x, ground arith)
  | inr later ↦ let (d, q) = find_in_total ds name (rw later at e) in (d, ground arith)
]

collect_iff :
    (p : DatapointDescriptor → Bool) (name : String)
    → (holds name (collect p descriptors) ≡ true)
      ↔ ((d : DatapointDescriptor) × (find name ≡ some d) × (p d ≡ true))
unfolding find
collect_iff p name = (
  λ e.
      let (d, q) = find_in_total descriptors name (collect-named p descriptors name e) in
      (d, q, sym (collect-holds p descriptors name d table_distinct q) ∙ e),
  λ (d, q, e). collect-holds p descriptors name d table_distinct q ∙ e,
)

listed_iff :
    (Q : DatapointDescriptor → Type 0) (p : DatapointDescriptor → Bool) (name : String)
    → ((d : DatapointDescriptor) → (p d ≡ true) ↔ Q d)
    → (holds name (collect p descriptors) ≡ true)
      ↔ ((d : DatapointDescriptor) × (find name ≡ some d) × Q d)
listed_iff Q p name h = (
  λ e. let (d, q, t) = (collect_iff p name).0 e in (d, q, (h d).0 t),
  λ (d, q, t). (collect_iff p name).1 (d, q, (h d).1 t),
)

-- The names listed for an access, for a persistence and for a poll class are those of the datapoints
-- that `find` knows with that access, that persistence and that poll class.
pub names_with_iff :
    (name : String) (access : Access) (persistence : Persistence) (poll_class : PollClass)
    → ((holds name (names_with_access access) ≡ true)
        ↔ ((d : DatapointDescriptor) × (find name ≡ some d) × (d.access ≡ access)))
      × ((holds name (names_with_persistence persistence) ≡ true)
          ↔ ((d : DatapointDescriptor) × (find name ≡ some d) × (d.persistence ≡ persistence)))
      × ((holds name (names_with_poll_class poll_class) ≡ true)
          ↔ ((d : DatapointDescriptor) × (find name ≡ some d) × (d.poll_class ≡ poll_class)))
unfolding names_with_access names_with_persistence names_with_poll_class
names_with_iff name access persistence poll_class = (
  listed_iff (λ d. d.access ≡ access) (λ d. same_access d.access access) name
      (λ d. same_access_iff d.access access),
  listed_iff (λ d. d.persistence ≡ persistence) (λ d. same_persistence d.persistence persistence)
      name (λ d. same_persistence_iff d.persistence persistence),
  listed_iff (λ d. d.poll_class ≡ poll_class) (λ d. same_poll_class d.poll_class poll_class) name
      (λ d. same_poll_class_iff d.poll_class poll_class),
)
