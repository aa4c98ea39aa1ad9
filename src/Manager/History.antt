-- ===== src/Manager/History.antt =====
-- The life of a manager of src/datapoints/manager.cpp: what happens to it, one occasion after another.
use fountainer_client_framew.Common.{
  ℕ, ◌≡◌, sym, subst, ap, inl, inr, Option, none, some, Option-cases, String, List, [], ◌∷◌, All,
  Bool-cases,
}
use fountainer_client_framew.Error.{Result, ok, err}
use fountainer_client_framew.Auth.{◌>>=◌}
use fountainer_client_framew.Json.{Json, object, end, array, nil, value_text, Items, cons, text}
use fountainer_client_framew.Json
use fountainer_client_framew.Session.Values.{value_json, elements}
use fountainer_client_framew.Datapoint.{DatapointValue}
use fountainer_client_framew.Codec.{Floats}
use fountainer_client_framew.Snapshot.{
  DatapointSource, write_readback, WriteResult, decode_dp_object, applied,
}
use fountainer_client_framew.Manager.{
  Manager, Call, update_values, update_cache, ingest_report, mark_all_stale, subscribe_raw,
  unsubscribe, new,
}
use fountainer_client_framew.Manager.Exchange.{
  JsonLibrary, read_response, parse_write_result, write_response, add_unknowns, readback_of,
  result_of, take_readback,
}
use fountainer_client_framew.Manager.Staging.{stage, discard_staged, settled}
use fountainer_client_framew.Manager.Sound.{
  IsSound, IsTyped, stage-IsSound, age_all-typed, update_values-IsSound, decode_dp_object-IsTyped,
  add_unknowns-values,
}

-- A call of a member function, or the answer to a request: of a read, of a write, and of the write of
-- a commit.
pub data Occasion : Type 0 where
  stages : String → DatapointValue → Occasion
  discards : Occasion
  subscribes : String → ℕ → Occasion
  unsubscribes : ℕ → Occasion
  reports : ℕ → DatapointSource → Option ℕ → Json → Occasion
  loses : Occasion
  answers_read : ℕ → DatapointSource → Result Json → Occasion
  answers_write : ℕ → Result Json → Occasion
  answers_commit : ℕ → Result Json → Occasion

module _ {V : Type 0} (f : Floats V) (lib : JsonLibrary) where
  unfoldable pub perform : Occasion → Manager → Option Manager
  perform (stages name value) m = some (stage name value m).0
  perform discards m = some (discard_staged m)
  perform (subscribes name callback) m = some (subscribe_raw name callback m).0
  perform (unsubscribes token) m = some (unsubscribe token m)
  perform (reports now source seq dp) m = some (ingest_report f now source seq dp m).0
  perform loses m = some (mark_all_stale m)
  perform (answers_read now source response) m = some (read_response f now source response m).0
  perform (answers_write now response) m = do
    (m', calls, result) ← write_response f lib now response m
    some m'
  perform (answers_commit now response) m = do
    (m', calls, result) ← write_response f lib now response m
    some (settled result m')

  unfoldable pub run : List Occasion → Manager → Option Manager
  unfolding perform
  run [] m = some m
  run (o ∷ os) m = do m' ← perform o m; run os m'

  read_response-IsSound :
      (now : ℕ) (source : DatapointSource) (response : Result Json) (m : Manager)
      → IsSound m
      → IsSound (read_response f now source response m).0
  unfolding read_response update_cache
  read_response-IsSound now source (err e) m h = h
  read_response-IsSound now source (ok response) m h =
      let read = decode_dp_object f (value_json response "dp" (object end)) in
      let more = elements (value_json response "unknown" (array nil)) in
      update_values-IsSound f now source none (add_unknowns more read).values m
        (subst (All IsTyped) (sym (add_unknowns-values more read))
          (decode_dp_object-IsTyped f (value_json response "dp" (object end))))
        h

  discard_staged-IsSound : (m : Manager) → IsSound m → IsSound (discard_staged m)
  unfolding discard_staged
  discard_staged-IsSound m h = record {
    cache_typed = h.cache_typed;
    staged_writable = tt;
    staged_distinct = tt;
  }

  abbrev outcome_manager : Manager → Option (Manager × List Call × WriteResult) → Manager
  outcome_manager m none = m
  outcome_manager m (some (m', calls, result)) = m'

  take_readback-IsSound :
      (now : ℕ) (result : WriteResult) (o : Option Json) (m : Manager)
      → IsSound m
      → IsSound (take_readback f lib now result o m).0
  unfolding take_readback update_cache
  take_readback-IsSound now result none m h = h
  take_readback-IsSound now result (some dp) m h =
      update_values-IsSound f now write_readback none (decode_dp_object f dp).values m
        (decode_dp_object-IsTyped f dp) h

  parse_write_result-IsSound :
      (now : ℕ) (message : Json) (m m' : Manager) (calls : List Call) (result : WriteResult)
      → IsSound m
      → parse_write_result f lib now message m ≡ some (m', calls, result)
      → IsSound m'
  unfolding parse_write_result
  parse_write_result-IsSound now message m m' calls result h e =
      elim (Option-cases (value_text message "status")) [
        | inl throws ↦ cc (rw (throws, parse_write_result, ◌>>=◌) at e)
        | inr (status, found) ↦
            let back = readback_of f lib (Json.find message "readback") in
            let p : (take_readback f lib now (result_of f lib status message) back m).0 ≡ m' =
              ap (outcome_manager m) (rw (found, ◌>>=◌) at e) in
            subst IsSound p (take_readback-IsSound now (result_of f lib status message) back m h)
      ]

  write_response-IsSound :
      (now : ℕ) (response : Result Json) (m m' : Manager) (calls : List Call)
      (result : Result WriteResult)
      → IsSound m
      → write_response f lib now response m ≡ some (m', calls, result)
      → IsSound m'
  unfolding write_response
  write_response-IsSound now (err x) m m' calls result h e =
      let p : m ≡ m' = cc e in subst IsSound p h
  write_response-IsSound now (ok response) m m' calls result h e =
      elim (Option-cases (parse_write_result f lib now response m)) [
        | inl throws ↦ cc (rw (throws, ◌>>=◌) at e)
        | inr ((m1, more, answer), found) ↦
            let p : m1 ≡ m' = cc (rw (found, ◌>>=◌) at e) in
            subst IsSound p (parse_write_result-IsSound now response m m1 more answer h found)
      ]

  settled-IsSound :
      (result : Result WriteResult) (m : Manager) → IsSound m → IsSound (settled result m)
  unfolding settled
  settled-IsSound (err e) m h = h
  settled-IsSound (ok result) m h = elim (Bool-cases (applied result)) [
    | inl done ↦ rw done (discard_staged-IsSound m h)
    | inr kept ↦ rw kept h
  ]

  perform-IsSound : (o : Occasion) (m m' : Manager) → IsSound m → perform o m ≡ some m' → IsSound m'
  unfolding perform ingest_report update_cache mark_all_stale subscribe_raw unsubscribe
  perform-IsSound (stages name value) m m' h e =
      let p : (stage name value m).0 ≡ m' = cc e in subst IsSound p (stage-IsSound name value m h)
  perform-IsSound discards m m' h e =
      let p : discard_staged m ≡ m' = cc e in subst IsSound p (discard_staged-IsSound m h)
  perform-IsSound (subscribes name callback) m m' h e =
      let p : (subscribe_raw name callback m).0 ≡ m' = cc e in
      subst IsSound p (record {
        cache_typed = h.cache_typed;
        staged_writable = h.staged_writable;
        staged_distinct = h.staged_distinct;
      })
  perform-IsSound (unsubscribes token) m m' h e =
      let p : unsubscribe token m ≡ m' = cc e in
      subst IsSound p (record {
        cache_typed = h.cache_typed;
        staged_writable = h.staged_writable;
        staged_distinct = h.staged_distinct;
      })
  perform-IsSound (reports now source seq dp) m m' h e =
      let values = (decode_dp_object f dp).values in
      let p : (update_values f now source seq values m).0 ≡ m' = cc e in
      subst IsSound p
        (update_values-IsSound f now source seq values m (decode_dp_object-IsTyped f dp) h)
  perform-IsSound loses m m' h e =
      let p : mark_all_stale m ≡ m' = cc e in
      subst IsSound p (record {
        cache_typed = age_all-typed m.cache h.cache_typed;
        staged_writable = h.staged_writable;
        staged_distinct = h.staged_distinct;
      })
  perform-IsSound (answers_read now source response) m m' h e =
      let p : (read_response f now source response m).0 ≡ m' = cc e in
      subst IsSound p (read_response-IsSound now source response m h)
  perform-IsSound (answers_write now response) m m' h e =
      elim (Option-cases (write_response f lib now response m)) [
        | inl throws ↦ cc (rw (throws, ◌>>=◌) at e)
        | inr ((m1, calls, result), found) ↦
            let p : m1 ≡ m' = cc (rw (found, ◌>>=◌) at e) in
            subst IsSound p (write_response-IsSound now response m m1 calls result h found)
      ]
  perform-IsSound (answers_commit now response) m m' h e =
      elim (Option-cases (write_response f lib now response m)) [
        | inl throws ↦ cc (rw (throws, ◌>>=◌) at e)
        | inr ((m1, calls, result), found) ↦
            let p : settled result m1 ≡ m' = cc (rw (found, ◌>>=◌) at e) in
            subst IsSound p (
              settled-IsSound result m1
                (write_response-IsSound now response m m1 calls result h found))
      ]

  run_from-IsSound :
      (os : List Occasion) (m m' : Manager) → IsSound m → run os m ≡ some m' → IsSound m'
  unfolding run
  run_from-IsSound [] m m' h e = let p : m ≡ m' = cc e in subst IsSound p h
  run_from-IsSound (o ∷ os) m m' h e = elim (Option-cases (perform o m)) [
    | inl throws ↦ cc (rw (throws, ◌>>=◌) at e)
    | inr (m1, found) ↦
        run_from-IsSound os m1 m' (perform-IsSound o m m1 h found) (rw (found, ◌>>=◌) at e)
  ]

  -- After any history of a new manager in which no exception escapes, every cached value is of its
  -- datapoint's type, and every staged value belongs to a writable datapoint and is of its type.
  pub run-IsSound : (os : List Occasion) (m : Manager) → run os new ≡ some m → IsSound m
  unfolding new
  run-IsSound os m e =
      run_from-IsSound os new m
        (record { cache_typed = tt; staged_writable = tt; staged_distinct = tt }) e
