-- ===== src/Manager/Cached.antt =====
-- `update_cache` of src/datapoints/manager.cpp against the cache before it.
use fountainer_client_framew.Common.{
  ℕ, ◌≡◌, refl, sym, ap, subst, ◌∙◌, inl, inr, arith, Bool-cases, Option, none, some, Option-cases,
  String, [], ◌∷◌, same_text, same_text_iff, if◌then◌else◌,
}
use fountainer_client_framew.Dispatcher.Store.{Map, get, get-put, DistinctKeys}
use fountainer_client_framew.Datapoint.{DatapointDescriptor, DatapointValue}
use fountainer_client_framew.Catalog.{find}
use fountainer_client_framew.Codec.{Floats}
use fountainer_client_framew.Snapshot.{DatapointSource, CachedValue}
use fountainer_client_framew.Manager.{Manager, received, update_entry, update_values}

module _ {V : Type 0} (f : Floats V) (now : ℕ) (source : DatapointSource) (seq : Option ℕ) where
  -- What stands in the cache for a name afterwards.
  abbrev pub written :
      Option DatapointValue → Option DatapointDescriptor → Option CachedValue → Option CachedValue
  written none d old = old
  written (some value) none old = old
  written (some value) (some d) old = some (received f now source seq value)

  pub update_entry-get :
      (name other : String) (value : DatapointValue) (m : Manager)
      → get other (update_entry f now source seq name value m).0.cache ≡ (
          if same_text other name
          then written (some value) (find name) (get other m.cache)
          else get other m.cache)
  unfolding update_entry
  update_entry-get name other value m = elim (Option-cases (find name)) [
    | inl missing ↦ rw (missing, update_entry) (ground arith)
    | inr (d, found) ↦
        rw (found, update_entry) (get-put name other (received f now source seq value) m.cache)
  ]

  pub update_entry-rest :
      (name : String) (value : DatapointValue) (m : Manager)
      → ((update_entry f now source seq name value m).0.subscriptions ≡ m.subscriptions)
        × ((update_entry f now source seq name value m).0.staged ≡ m.staged)
        × ((update_entry f now source seq name value m).0.next_token ≡ m.next_token)
  unfolding update_entry
  update_entry-rest name value m = elim (Option-cases (find name)) [
    | inl missing ↦ rw (missing, update_entry) (refl, refl, refl)
    | inr (d, found) ↦ rw (found, update_entry) (refl, refl, refl)
  ]

  pub update_values-get :
      (values : Map DatapointValue) (m : Manager) (name : String)
      → DistinctKeys values
      → get name (update_values f now source seq values m).0.cache
        ≡ written (get name values) (find name) (get name m.cache)
  unfolding update_values get
  update_values-get [] m name h = refl
  update_values-get ((key, value) ∷ values) m name h =
      let m' = (update_entry f now source seq key value m).0 in
      update_values-get values m' name h.1
      ∙ ap (written (get name values) (find name)) (update_entry-get key name value m)
      ∙ elim (Bool-cases (same_text name key)) [
        | inl here ↦
            let same = (same_text_iff name key).0 here in
            rw (here, subst (λ k. get k values ≡ none) (sym same) h.0, same) refl
        | inr other ↦ rw other refl
      ]

  -- Everything but the cache stays.
  pub update_values-rest :
      (values : Map DatapointValue) (m : Manager)
      → ((update_values f now source seq values m).0.subscriptions ≡ m.subscriptions)
        × ((update_values f now source seq values m).0.staged ≡ m.staged)
        × ((update_values f now source seq values m).0.next_token ≡ m.next_token)
  unfolding update_values
  update_values-rest [] m = (refl, refl, refl)
  update_values-rest ((key, value) ∷ values) m =
      let one = update_entry-rest key value m in
      let more = update_values-rest values (update_entry f now source seq key value m).0 in
      (more.0 ∙ one.0, more.1 ∙ one.1, more.2 ∙ one.2)
