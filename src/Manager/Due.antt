-- ===== src/Manager/Due.antt =====
-- Which calls `update_cache` of src/datapoints/manager.cpp makes due.
use fountainer_client_framew.Common.{
  ℕ, ◌≡◌, refl, sym, ap, subst, ◌∙◌, ◌↔◌, ◌⊎◌, inl, inr, false, Bool-cases, Option, none, some,
  Option-cases, String, [], ◌∷◌, same_text, same_text_iff, same_text_refl, if◌then◌else◌, Among,
  Among-append_left, Among-append_right, append-Among,
}
use fountainer_client_framew.Dispatcher.Store.{Map, get, DistinctKeys}
use fountainer_client_framew.Datapoint.{DatapointDescriptor, DatapointValue}
use fountainer_client_framew.Catalog.{find}
use fountainer_client_framew.Codec.{Floats}
use fountainer_client_framew.Snapshot.{DatapointSource, CachedValue}
use fountainer_client_framew.Manager.{
  Slot, Manager, Call, is_known, due, entry_of, is_changed, change_to, update_entry, update_values,
  cached_raw,
}
use fountainer_client_framew.Manager.Cached.{update_entry-get, update_entry-rest}
use fountainer_client_framew.Manager.Delivery.{
  Hears, IsNews, news, IsDue, Among-due, due-Among, known_value-old_of, is_changed_iff,
}

module _ {V : Type 0} (f : Floats V) (now : ℕ) (source : DatapointSource) (seq : Option ℕ) where
  abbrev after_one : String → DatapointValue → Manager → Manager
  after_one name value m = (update_entry f now source seq name value m).0

  change_to-news :
      (name : String) (value : DatapointValue) (d : DatapointDescriptor) (m : Manager)
      → change_to f now source seq d (entry_of name m.cache) value
        ≡ news f now source d (cached_raw name m) value
  change_to-news name value d m =
      ap
        (λ old. record {
          descriptor = d;
          value = value;
          old_value = old;
          source = source;
          received_at = now;
        })
        (known_value-old_of f now source name m)

  -- The calls of one round.
  update_entry-IsDue :
      (name : String) (value : DatapointValue) (values : Map DatapointValue) (m : Manager)
      (call : Call)
      → Among call (update_entry f now source seq name value m).1
      → IsDue f now source m ((name, value) ∷ values) call
  unfolding update_entry get
  update_entry-IsDue name value values m call h = elim (Option-cases (find name)) [
    | inl missing ↦ elim (rw (missing, update_entry) at h) [ ]
    | inr (d, found) ↦
        elim (Bool-cases (is_changed f now source seq (entry_of name m.cache) value)) [
          | inl changed ↦
              let change = change_to f now source seq d (entry_of name m.cache) value in
              let (slot, among, hears, e) =
                Among-due name change m.subscriptions call
                  (rw (found, update_entry, changed) at h) in
              record {
                name = name;
                value = value;
                descriptor = d;
                slot = slot;
                given = rw (same_text_refl name) refl;
                described = found;
                subscribed = among;
                hears = hears;
                is_news = (is_changed_iff f now source seq name m value).0 changed;
                told = e ∙ ap (λ c. (slot.callback, c)) (change_to-news name value d m);
              }
          | inr same ↦ elim (rw (found, update_entry, same) at h) [ ]
        ]
  ]

  IsNews-update_entry :
      (name : String) (value : DatapointValue) (d : DatapointDescriptor) (slot : Slot) (m : Manager)
      → find name ≡ some d
      → Among slot m.subscriptions
      → Hears slot name
      → IsNews f now source (cached_raw name m) value
      → Among
          (slot.callback, news f now source d (cached_raw name m) value)
          (update_entry f now source seq name value m).1
  unfolding update_entry
  IsNews-update_entry name value d slot m found among hears fresh =
      rw (found, update_entry, (is_changed_iff f now source seq name m value).1 fresh)
        (subst
          (λ c.
            Among (slot.callback, c)
              (due name (change_to f now source seq d (entry_of name m.cache) value)
                m.subscriptions))
          (change_to-news name value d m)
          (due-Among name (change_to f now source seq d (entry_of name m.cache) value)
            m.subscriptions slot among hears))

  -- A round leaves what is known of the other names.
  cached_raw-after_one :
      (name other : String) (value : DatapointValue) (m : Manager)
      → same_text other name ≡ false
      → cached_raw other (after_one name value m) ≡ cached_raw other m
  unfolding cached_raw
  cached_raw-after_one name other value m apart =
      ap
        (λ (o : Option CachedValue). elim o [
          | none ↦ none
          | some e ↦ if is_known e then some e else none
        ])
        (update_entry-get f now source seq name other value m ∙ rw apart refl)

  -- `get` of the rest does not find the key in front.
  apart_lem :
      (name key : String) (value : DatapointValue) (values : Map DatapointValue)
      → get key values ≡ none
      → get name values ≡ some value
      → same_text name key ≡ false
  apart_lem name key value values absent there = elim (Bool-cases (same_text name key)) [
    | inr apart ↦ apart
    | inl same ↦
        cc (subst (λ k. get k values ≡ none) (sym ((same_text_iff name key).0 same)) absent)
  ]

  IsDue-cons :
      (key : String) (first : DatapointValue) (values : Map DatapointValue) (m : Manager)
      (call : Call)
      → get key values ≡ none
      → IsDue f now source (after_one key first m) values call
      → IsDue f now source m ((key, first) ∷ values) call
  unfolding get
  IsDue-cons key first values m call absent h =
      let apart = apart_lem h.name key h.value values absent h.given in
      let known = cached_raw-after_one key h.name first m apart in
      record {
        name = h.name;
        value = h.value;
        descriptor = h.descriptor;
        slot = h.slot;
        given = rw apart h.given;
        described = h.described;
        subscribed =
            subst (Among h.slot) (update_entry-rest f now source seq key first m).0 h.subscribed;
        hears = h.hears;
        is_news = subst (λ o. IsNews f now source o h.value) known h.is_news;
        told = h.told ∙ ap (λ o. (h.slot.callback, news f now source h.descriptor o h.value)) known;
      }

  cons-IsDue :
      (key : String) (first : DatapointValue) (values : Map DatapointValue) (m : Manager)
      (call : Call)
      → IsDue f now source m ((key, first) ∷ values) call
      → Among call (update_entry f now source seq key first m).1
        ⊎ IsDue f now source (after_one key first m) values call
  unfolding get
  cons-IsDue key first values m call h = elim (Bool-cases (same_text h.name key)) [
    | inl same ↦
        let one : some first ≡ some h.value = rw same at (h.given) in
        let one_value : h.value ≡ first = cc one in
        let change : Call =
          (h.slot.callback, news f now source h.descriptor (cached_raw h.name m) h.value) in
        let told =
          IsNews-update_entry h.name h.value h.descriptor h.slot m h.described h.subscribed h.hears
            h.is_news in
        let for_first =
          subst (λ v. Among change (update_entry f now source seq h.name v m).1) one_value told in
        let for_key =
          subst (λ n. Among change (update_entry f now source seq n first m).1)
            ((same_text_iff h.name key).0 same) for_first in
        inl
          (subst (λ c. Among c (update_entry f now source seq key first m).1) (sym h.told) for_key)
    | inr apart ↦
        let known = cached_raw-after_one key h.name first m apart in
        inr (record {
          name = h.name;
          value = h.value;
          descriptor = h.descriptor;
          slot = h.slot;
          given = rw apart at (h.given);
          described = h.described;
          subscribed =
              subst (Among h.slot) (sym (update_entry-rest f now source seq key first m).0)
                h.subscribed;
          hears = h.hears;
          is_news = subst (λ o. IsNews f now source o h.value) (sym known) h.is_news;
          told =
              h.told
              ∙ ap (λ o. (h.slot.callback, news f now source h.descriptor o h.value)) (sym known);
        })
  ]

  pub update_values-IsDue :
      (values : Map DatapointValue) (m : Manager) (call : Call)
      → DistinctKeys values
      → Among call (update_values f now source seq values m).1 ↔ IsDue f now source m values call
  unfolding update_values get
  update_values-IsDue [] m call distinct = (λ h. elim h [ ], λ h. cc (h.given))
  update_values-IsDue ((key, first) ∷ values) m call distinct =
      let m' = after_one key first m in
      let calls = (update_entry f now source seq key first m).1 in
      let more = (update_values f now source seq values m').1 in
      let rest = update_values-IsDue values m' call distinct.1 in
      (
        λ h. elim (append-Among call calls more h) [
          | inl now_due ↦ update_entry-IsDue key first values m call now_due
          | inr later ↦ IsDue-cons key first values m call distinct.0 (rest.0 later)
        ],
        λ h. elim (cons-IsDue key first values m call h) [
          | inl now_due ↦ Among-append_left call calls more now_due
          | inr later ↦ Among-append_right call calls more (rest.1 later)
        ],
      )
