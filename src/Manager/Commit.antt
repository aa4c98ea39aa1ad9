-- ===== src/Manager/Commit.antt =====
-- `commit` of src/datapoints/manager.cpp: what it sends and when it drops the staging.
use fountainer_client_framew.Common.{
  ℕ, ◌≡◌, refl, sym, ap, subst, ◌∙◌, ◌⊎◌, inl, inr, arith, true, false, Bool-cases, Option, none,
  some, Option-cases, String, List, [], List-cases, if◌then◌else◌, same_text,
}
use fountainer_client_framew.Error.{
  Error, ErrorCode, Result, ok, err, Result-cases, validation_error, make_error,
}
use fountainer_client_framew.Auth.{◌>>=◌}
use fountainer_client_framew.Json.{Json, Fields, end, value_text}
use fountainer_client_framew.Json
use fountainer_client_framew.Dispatcher.Types.{RequestSpec}
use fountainer_client_framew.Dispatcher.Store.{Map, get, DistinctKeys}
use fountainer_client_framew.Datapoint.{DatapointValue}
use fountainer_client_framew.Codec.{Floats}
use fountainer_client_framew.Snapshot.{WriteResult, applied, write_readback, decode_dp_object}
use fountainer_client_framew.WriteSet.{validate}
use fountainer_client_framew.Manager.{Manager, Call, update_cache}
use fountainer_client_framew.Manager.Cached.{update_values-rest}
use fountainer_client_framew.Manager.Exchange.{
  JsonLibrary, dp_object, write_spec, write_request, write, write_response, parse_write_result,
  readback_of, result_of, take_readback,
}
use fountainer_client_framew.Manager.Staging.{
  commit, assemble, settled, nothing_to_commit, has_staged_changes, discard_staged,
}
use fountainer_client_framew.Manager.Sound.{IsSound}
use fountainer_client_framew.Manager.Total.{
  Sends, json_of, dp_object-Sends, validate-IsTyped, assemble-staged,
}

code-error :
    (code : ErrorCode) (message name : String) → (validation_error code message name).code ≡ code
unfolding validation_error make_error
code-error code message name = ground arith

module _ {V : Type 0} (f : Floats V) (lib : JsonLibrary) where
  abbrev pub Outcome : Type 0
  Outcome = Option (Manager × List Call × Result WriteResult)

  -- The answer to a commit that found a status: the staging is dropped if it says `applied`, and stays
  -- as the exchange left it otherwise. With no text for a status there is an exception.
  abbrev pub Finishes : Manager → Option String → Outcome → Type 0
  Finishes m none outcome = outcome ≡ none
  Finishes m (some status) outcome =
      (m' : Manager) × (calls : List Call) × (result : WriteResult) × (outcome
        ≡ some (m', calls, ok result))
      × (result.status ≡ status)
      × (m'.staged ≡ (if same_text status "applied" then [] else m.staged))

  -- What a commit comes to on the manager that the exchange leaves, by the answer.
  abbrev pub Concludes : Manager → Result Json → Outcome → Type 0
  Concludes m (err e) outcome = outcome ≡ some (m, [], err e)
  Concludes m (ok response) outcome = Finishes m (value_text response "status") outcome

  take_readback-keeps :
      (now : ℕ) (result : WriteResult) (o : Option Json) (m : Manager)
      → ((take_readback f lib now result o m).2.status ≡ result.status)
        × ((take_readback f lib now result o m).0.staged ≡ m.staged)
  unfolding take_readback update_cache
  take_readback-keeps now result none m = (refl, refl)
  take_readback-keeps now result (some dp) m =
      (refl, (update_values-rest f now write_readback none (decode_dp_object f dp).values m).1)

  settle : Outcome → Outcome
  settle outcome = outcome >>= λ (m', calls, result). some (settled result m', calls, result)

  settled-staged :
      (result : WriteResult) (m : Manager)
      → (settled (ok result) m).staged
        ≡ (if same_text result.status "applied" then [] else m.staged)
  unfolding settled applied discard_staged
  settled-staged result m = elim (Bool-cases (same_text result.status "applied")) [
    | inl done ↦ rw done refl
    | inr kept ↦ rw kept refl
  ]

  write_response-Concludes :
      (now : ℕ) (response : Result Json) (m : Manager)
      → Concludes m response (settle (write_response f lib now response m))
  unfolding settle write_response settled parse_write_result result_of
  write_response-Concludes now (err e) m = refl
  write_response-Concludes now (ok response) m =
      elim (Option-cases (value_text response "status")) [
        | inl throws ↦ rw throws refl
        | inr (status, found) ↦
            let back = readback_of f lib (Json.find response "readback") in
            let (m', calls, result) =
              take_readback f lib now (result_of f lib status response) back m in
            let kept = take_readback-keeps now (result_of f lib status response) back m in
            rw found (
              settled (ok result) m',
              calls,
              result,
              refl,
              kept.0,
              settled-staged result m'
                  ∙ (λ i. if same_text (kept.0 i) "applied" then [] else kept.1 i),
            )
      ]

  -- The two ways in which a commit ends before it sends anything.
  pub data Unsent (m : Manager) (outcome : Outcome) : Type 0 where
    nothing_staged :
        (e : Error)
        → m.staged ≡ []
        → e.code ≡ ErrorCode.empty_selection
        → outcome ≡ some (m, [], err e)
        → Unsent m outcome
    refused :
        (e : Error) (changes : Map DatapointValue)
        → ((name : String) → get name changes ≡ get name m.staged)
        → validate f changes ≡ err e
        → outcome ≡ some (m, [], err e)
        → Unsent m outcome

  -- Or the write set with the staged values is valid, and it sends the JSON of every staged value,
  -- each under its name and nothing else.
  pub record Sent (m : Manager) (wire : RequestSpec → Manager → Manager × Result Json)
      (outcome : Outcome) : Type 0 where
    pub changes : Map DatapointValue
    pub same : (name : String) → get name changes ≡ get name m.staged
    pub valid : validate f changes ≡ ok tt
    pub fs : Fields
    pub sends : Sends f m.staged fs
    pub concludes : Concludes (wire (write_spec f fs) m).0 (wire (write_spec f fs) m).1 outcome

  pub write-refused :
      (now : ℕ) (wire : RequestSpec → Manager → Manager × Result Json)
      (changes : Map DatapointValue) (m : Manager) (e : Error)
      → validate f changes ≡ err e
      → write f lib now wire changes m ≡ some (m, [], err e)
  unfolding write write_request
  write-refused now wire changes m e bad = rw (bad, write_request, ◌>>=◌) refl

  pub write-sent :
      (now : ℕ) (wire : RequestSpec → Manager → Manager × Result Json)
      (changes : Map DatapointValue) (m : Manager) (u : Unit {0}) (fs : Fields)
      → validate f changes ≡ ok u
      → dp_object f changes end ≡ some fs
      → write f lib now wire changes m
        ≡ write_response f lib now (wire (write_spec f fs) m).1 (wire (write_spec f fs) m).0
  unfolding write write_request
  write-sent now wire changes m u fs fine built = rw (fine, write_request, built, ◌>>=◌) refl

  write-outcome :
      (now : ℕ) (wire : RequestSpec → Manager → Manager × Result Json)
      (changes : Map DatapointValue) (m : Manager)
      → DistinctKeys changes
      → ((name : String) → get name changes ≡ get name m.staged)
      → Unsent m (settle (write f lib now wire changes m))
        ⊎ Sent m wire (settle (write f lib now wire changes m))
  unfolding settle settled
  write-outcome now wire changes m distinct same = elim (Result-cases (validate f changes)) [
    | inr (e, bad) ↦
        inl (refused e changes same bad (ap settle (write-refused now wire changes m e bad)))
    | inl (u, fine) ↦
        let (fs, built, sends) =
          dp_object-Sends f changes (validate-IsTyped f changes u fine) distinct in
        let (m', response) = wire (write_spec f fs) m in
        inr (record {
          changes = changes;
          same = same;
          valid = fine;
          fs = fs;
          sends = λ name. sends name ∙ ap (json_of f name) (same name);
          concludes =
              subst (λ o. Concludes m' response (settle o))
                (sym (write-sent now wire changes m u fs fine built))
                (write_response-Concludes now response m');
        })
  ]

  commit-nothing :
      (now : ℕ) (wire : RequestSpec → Manager → Manager × Result Json) (m : Manager)
      → has_staged_changes m ≡ false
      → commit f lib now wire m ≡ some (m, [], err nothing_to_commit)
  unfolding commit
  commit-nothing now wire m empty = rw (empty, commit) refl

  commit-settle :
      (now : ℕ) (wire : RequestSpec → Manager → Manager × Result Json) (m : Manager)
      (changes : Map DatapointValue)
      → has_staged_changes m ≡ true
      → assemble m.staged [] ≡ ok changes
      → settle (write f lib now wire changes m) ≡ commit f lib now wire m
  unfolding commit settle
  commit-settle now wire m changes filled built = rw (filled, commit, built) refl

  -- On a sound manager, a commit either ends before anything is sent, with the manager as it was and
  -- an error, for an empty staging or for a write set with the staged values that is not valid; or
  -- this write set is valid and it sends the JSON of all staged values. Then it drops the staging exactly if the answer has the
  -- status `applied`; an error, or another status, leaves the staging that the exchange has left.
  pub commit_lem :
      (now : ℕ) (wire : RequestSpec → Manager → Manager × Result Json) (m : Manager)
      → IsSound m
      → Unsent m (commit f lib now wire m) ⊎ Sent m wire (commit f lib now wire m)
  unfolding has_staged_changes
  commit_lem now wire m h = elim (List-cases m.staged) [
    | inl empty ↦ inl (
        nothing_staged nothing_to_commit empty (code-error ErrorCode.empty_selection _ "")
          (commit-nothing now wire m (rw (empty, has_staged_changes) refl)))
    | inr (entry, more, filled) ↦
        let (changes, built, distinct, same) =
          assemble-staged m.staged h.staged_writable h.staged_distinct in
        subst (λ o. Unsent m o ⊎ Sent m wire o)
          (commit-settle now wire m changes (rw (filled, has_staged_changes) refl) built)
          (write-outcome now wire changes m distinct same)
  ]
