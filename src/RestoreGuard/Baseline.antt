-- ===== src/RestoreGuard/Baseline.antt =====
-- That the guards of src/datapoints/restore_guard.cpp write back what they have captured.
use fountainer_client_framew.Common.{
  ℕ, ◌≡◌, refl, sym, ap, subst, ◌∙◌, ◌⊎◌, inl, inr, true, not, if◌then◌else◌, Option, some, String,
  List, [], All, Among,
}
use fountainer_client_framew.Error.{Error, Result, ok, err, Result-cases}
use fountainer_client_framew.Auth.{◌>>=◌}
use fountainer_client_framew.Json.{Fields}
use fountainer_client_framew.Dispatcher.Store.{Map, get}
use fountainer_client_framew.Datapoint.{DatapointValue}
use fountainer_client_framew.Codec.{Floats}
use fountainer_client_framew.Snapshot.{WriteResult}
use fountainer_client_framew.WriteSet.{validate}
use fountainer_client_framew.Manager.{Manager, Call}
use fountainer_client_framew.Manager.Exchange.{JsonLibrary, write_spec, write, write_response}
use fountainer_client_framew.Manager.Staging.{assemble}
use fountainer_client_framew.Manager.Commit.{write-refused, write-sent}
use fountainer_client_framew.Manager.Total.{
  Sends, json_of, dp_object-Sends, validate-IsTyped, assemble-staged,
}
use fountainer_client_framew.RestoreGuard.{RestoreGuard, Wire, capture, restore, destroy, dismiss}
use fountainer_client_framew.RestoreGuard.Captured.{IsRestorable, capture-IsRestorable}

module _ {V : Type 0} (f : Floats V) where
  module _ (lib : JsonLibrary) where
    abbrev pub Outcome : Type 0
    Outcome = Option (Manager × List Call)

    -- The destruction sends nothing, since the values do not pass the validation of a write.
    pub record Refused (g : RestoreGuard) (m : Manager) (outcome : Outcome) : Type 0 where
      pub error : Error
      pub changes : Map DatapointValue
      pub same : (name : String) → get name changes ≡ get name g.baseline.values
      pub invalid : validate f changes ≡ err error
      pub unchanged : outcome ≡ some (m, [])

    -- The destruction sends the JSON of each value of the baseline under its name, and nothing else,
    -- and takes the answer as a write does.
    pub record Restored (now : ℕ) (wire : Wire) (g : RestoreGuard) (m : Manager) (outcome : Outcome)
        : Type 0 where
      pub changes : Map DatapointValue
      pub same : (name : String) → get name changes ≡ get name g.baseline.values
      pub valid : validate f changes ≡ ok tt
      pub fs : Fields
      pub sends : Sends f g.baseline.values fs
      pub answered : outcome ≡ (
          write_response f lib now (wire (write_spec f fs) m).1 (wire (write_spec f fs) m).0
          >>= λ (m', calls, result). some (m', calls))

    restore-write :
        (now : ℕ) (wire : Wire) (g : RestoreGuard) (m : Manager) (changes : Map DatapointValue)
        → assemble g.baseline.values [] ≡ ok changes
        → (restore f lib now wire g m).1 ≡ write f lib now wire changes m
    unfolding restore
    restore-write now wire g m changes built = rw (built, restore) refl

    forget_result : Option (Manager × List Call × Result WriteResult) → Outcome
    forget_result outcome = outcome >>= λ (m', calls, result). some (m', calls)

    destroy-restore :
        (now : ℕ) (wire : Wire) (g : RestoreGuard) (m : Manager)
        → g.armed ≡ true
        → destroy f lib now wire g m ≡ forget_result (restore f lib now wire g m).1
    unfolding destroy forget_result
    destroy-restore now wire g m on =
        let after = forget_result (restore f lib now wire g m).1 in
        subst (λ b. (if not b then some (m, []) else after) ≡ after) (sym on) refl

    destroy-dismiss :
        (now : ℕ) (wire : Wire) (g : RestoreGuard) (m : Manager)
        → destroy f lib now wire (dismiss g) m ≡ some (m, [])
    unfolding destroy dismiss
    destroy-dismiss now wire g m = refl

    destroy-restored :
        (earlier now : ℕ) (wire wire' : Wire) (g : RestoreGuard) (m m' : Manager)
        → destroy f lib now wire (restore f lib earlier wire' g m').0 m ≡ some (m, [])
    unfolding destroy restore
    destroy-restored earlier now wire wire' g m m' = refl

    restorable_lem :
        (now : ℕ) (wire : Wire) (g : RestoreGuard) (m : Manager)
        → IsRestorable g
        → Refused g m (destroy f lib now wire g m)
          ⊎ Restored now wire g m (destroy f lib now wire g m)
    unfolding forget_result
    restorable_lem now wire g m h =
        let (changes, built, distinct, same) =
          assemble-staged g.baseline.values h.stageable h.distinct in
        let written =
          destroy-restore now wire g m h.is_armed
          ∙ ap forget_result (restore-write now wire g m changes built) in
        elim (Result-cases (validate f changes)) [
          | inr (e, bad) ↦ inl (record {
            error = e;
            changes = changes;
            same = same;
            invalid = bad;
            unchanged = written ∙ ap forget_result (write-refused f lib now wire changes m e bad);
          })
          | inl (u, fine) ↦
              let (fs, made, sends) =
                dp_object-Sends f changes (validate-IsTyped f changes u fine) distinct in
              inr (record {
                changes = changes;
                same = same;
                valid = fine;
                fs = fs;
                sends = λ name. sends name ∙ ap (json_of f name) (same name);
                answered =
                    written ∙ ap forget_result (write-sent f lib now wire changes m u fs fine made);
              })
        ]

    -- If a capture gives a guard and the device has answered with no other names than those asked for,
    -- then the guard's destruction, whatever has become of the manager by then, either sends the JSON
    -- of each captured value under its name and nothing else, and takes the answer as a write does, or
    -- sends nothing, since a captured value does not pass the validation of a write. Once the guard has
    -- been restored, whenever and with whatever outcome, or is dismissed, its destruction does nothing.
    pub destroy-capture :
        (before : ℕ) (reads : Wire) (names : List String) (m0 : Manager) (g : RestoreGuard)
        (now : ℕ) (wire : Wire) (m : Manager) (earlier : ℕ) (wire' : Wire) (m' : Manager)
        → (capture f before reads names m0).2 ≡ ok g
        → All (λ p. Among p.0 names) g.baseline.values
        → (Refused g m (destroy f lib now wire g m)
            ⊎ Restored now wire g m (destroy f lib now wire g m))
          × (destroy f lib now wire (restore f lib earlier wire' g m').0 m ≡ some (m, []))
          × (destroy f lib now wire (dismiss g) m ≡ some (m, []))
    destroy-capture before reads names m0 g now wire m earlier wire' m' captured asked = (
      restorable_lem now wire g m (capture-IsRestorable f before reads names m0 g captured asked),
      destroy-restored earlier now wire wire' g m m',
      destroy-dismiss now wire g m,
    )
