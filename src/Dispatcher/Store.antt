-- ===== src/Dispatcher/Store.antt =====
-- `std::map<std::string, V>` as a list ordered by its keys.
use fountainer_client_framew.Common.{
  ◌≡◌, refl, subst, All, arith, inl, inr, Bool-cases, Option-cases, same_text_iff, Option, none,
  some, String, List, [], ◌∷◌, text_lt, same_text, if◌then◌else◌,
}

abbrev pub Map {ℓ} : Type ℓ → Type ℓ
Map V = List (String × V)

module _ {ℓ} {V : Type ℓ} where
  -- `find`.
  unfoldable pub get : String → Map V → Option V
  get k [] = none
  get k ((j, v) ∷ m) = if same_text k j then some v else get k m

  -- `emplace`: a key that is there keeps its value.
  unfoldable pub emplace : String → V → Map V → Map V
  emplace k v [] = (k, v) ∷ []
  emplace k v ((j, w) ∷ m) =
      if same_text k j
      then (j, w) ∷ m
      else if text_lt k j
      then (k, v) ∷ (j, w) ∷ m
      else (j, w) ∷ emplace k v m

  unfoldable pub erase : String → Map V → Map V
  erase k [] = []
  erase k ((j, v) ∷ m) = if same_text k j then m else (j, v) ∷ erase k m

  -- `operator[]` and `insert_or_assign`: a new key takes its place in the order.
  insert : String → V → Map V → Map V
  insert k v [] = (k, v) ∷ []
  insert k v ((j, w) ∷ m) = if text_lt k j then (k, v) ∷ (j, w) ∷ m else (j, w) ∷ insert k v m

  replace : String → V → Map V → Map V
  replace k v [] = []
  replace k v ((j, w) ∷ m) = if same_text k j then (j, v) ∷ m else (j, w) ∷ replace k v m

  unfoldable pub put : String → V → Map V → Map V
  unfolding insert replace
  put k v m = elim (get k m) [ none ↦ insert k v m | some _ ↦ replace k v m ]

  -- Each key stands once.
  abbrev pub DistinctKeys : Map V → Type ℓ
  DistinctKeys [] = Unit
  DistinctKeys ((k, _) ∷ m) = (get k m ≡ none) × DistinctKeys m

  get-insert :
      (k j : String) (v : V) (m : Map V)
      → get k m ≡ none
      → get j (insert k v m) ≡ (if same_text j k then some v else get j m)
  unfolding get insert
  get-insert k j v [] h = refl
  get-insert k j v ((i, w) ∷ m) h =
      ground (arith, same_text_iff k i, same_text_iff j k, same_text_iff j i, get-insert k j v m)

  get-replace :
      (k j : String) (v w : V) (m : Map V)
      → get k m ≡ some w
      → get j (replace k v m) ≡ (if same_text j k then some v else get j m)
  unfolding get replace
  get-replace k j v w [] h = cc
  get-replace k j v w ((i, u) ∷ m) h =
      ground (arith, same_text_iff k i, same_text_iff j k, same_text_iff j i, get-replace k j v w m)

  pub get-put :
      (k j : String) (v : V) (m : Map V)
      → get j (put k v m) ≡ (if same_text j k then some v else get j m)
  unfolding put
  get-put k j v m = elim (Option-cases (get k m)) [
    | inl new ↦ rw (new, put) (get-insert k j v m new)
    | inr (w, old) ↦ rw (old, put) (get-replace k j v w m old)
  ]

  insert-DistinctKeys :
      (k : String) (v : V) (m : Map V)
      → get k m ≡ none
      → DistinctKeys m
      → DistinctKeys (insert k v m)
  unfolding get insert
  insert-DistinctKeys k v [] h d = (refl, tt)
  insert-DistinctKeys k v ((i, w) ∷ m) h d = elim (Bool-cases (text_lt k i)) [
    | inl first ↦ rw (first, insert) (h, d)
    | inr later ↦
        let absent : get k m ≡ none = ground arith in
        rw later (
          ground (arith, same_text_iff k i, same_text_iff i k, get-insert k i v m),
          insert-DistinctKeys k v m absent d.1,
        )
  ]

  replace-DistinctKeys :
      (k : String) (v w : V) (m : Map V)
      → get k m ≡ some w
      → DistinctKeys m
      → DistinctKeys (replace k v m)
  unfolding get replace
  replace-DistinctKeys k v w [] h d = tt
  replace-DistinctKeys k v w ((i, u) ∷ m) h d = elim (Bool-cases (same_text k i)) [
    | inl here ↦ rw here (d.0, d.1)
    | inr there ↦
        let old : get k m ≡ some w = rw there at h in
        rw there (
          ground (arith, same_text_iff k i, same_text_iff i k, get-replace k i v w m),
          replace-DistinctKeys k v w m old d.1,
        )
  ]

  pub put-DistinctKeys :
      (k : String) (v : V) (m : Map V) → DistinctKeys m → DistinctKeys (put k v m)
  unfolding put
  put-DistinctKeys k v m d = elim (Option-cases (get k m)) [
    | inl new ↦ rw (new, put) (insert-DistinctKeys k v m new d)
    | inr (w, old) ↦ rw (old, put) (replace-DistinctKeys k v w m old d)
  ]

  insert-All :
      (P : String × V → Type ℓ) (k : String) (v : V) (m : Map V)
      → P (k, v)
      → All P m
      → All P (insert k v m)
  unfolding insert
  insert-All P k v [] p h = (p, tt)
  insert-All P k v ((j, w) ∷ m) p h = elim (Bool-cases (text_lt k j)) [
    | inl first ↦ rw (first, insert) (p, h)
    | inr later ↦ rw (later, insert) (h.0, insert-All P k v m p h.1)
  ]

  replace-All :
      (P : String × V → Type ℓ) (k : String) (v : V) (m : Map V)
      → P (k, v)
      → All P m
      → All P (replace k v m)
  unfolding replace
  replace-All P k v [] p h = tt
  replace-All P k v ((j, w) ∷ m) p h = elim (Bool-cases (same_text k j)) [
    | inl here ↦ rw here (subst (λ i. P (i, v)) ((same_text_iff k j).0 here) p, h.1)
    | inr there ↦ rw there (h.0, replace-All P k v m p h.1)
  ]

  pub put-All :
      (P : String × V → Type ℓ) (k : String) (v : V) (m : Map V)
      → P (k, v)
      → All P m
      → All P (put k v m)
  unfolding put
  put-All P k v m p h = elim (Option-cases (get k m)) [
    | inl new ↦ rw (new, put) (insert-All P k v m p h)
    | inr (w, old) ↦ rw (old, put) (replace-All P k v m p h)
  ]
