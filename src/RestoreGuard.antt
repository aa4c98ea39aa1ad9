-- ===== src/RestoreGuard.antt =====
-- include/fountainer/datapoints/restore_guard.hpp and src/datapoints/restore_guard.cpp: a guard on a
-- manager, which is an argument; its runner takes the work. Logging is left out.
pub mod Captured
pub mod Baseline
use fountainer_client_framew.Common.{
  ℕ, Bool, true, false, not, ◌&&◌, ◌||◌, Option, none, some, String, List, [], ◌∷◌, concat, join,
  same_text, if◌then◌else◌,
}
use fountainer_client_framew.Error.{ErrorCode, Result, ok, err, Status, validation_error}
use fountainer_client_framew.Auth.{◌>>=◌}
use fountainer_client_framew.Json.{Json}
use fountainer_client_framew.Dispatcher.Types.{RequestSpec, interactive_read}
use fountainer_client_framew.Datapoint.{DatapointDescriptor, read_write}
use fountainer_client_framew.Catalog.{find, descriptors, collect, same_access}
use fountainer_client_framew.Codec.{Floats}
use fountainer_client_framew.Snapshot.{
  DatapointSnapshot, empty_snapshot, WriteResult, explicit_read,
}
use fountainer_client_framew.Manager.{Manager, Call}
use fountainer_client_framew.Manager.Exchange.{JsonLibrary, read_request, read_response, write}
use fountainer_client_framew.Manager.Staging.{assemble}

pub record RestoreGuard : Type 0 where
  pub baseline : DatapointSnapshot
  pub armed : Bool

-- What happens between a request and its answer: the answer, and the manager as other threads leave it.
abbrev pub Wire : Type 0
Wire = RequestSpec → Manager → Manager × Result Json

-- The tests of one name in `capture`.
unfoldable pub check_name : String → Status
unfolding find same_access
check_name name = elim (find name) [
  | none ↦ err (
      validation_error ErrorCode.unknown_datapoint
        (concat ("unknown datapoint '" ∷ name ∷ "'" ∷ [])) name)
  | some d ↦
      if not (same_access d.access read_write)
      then err (
          validation_error ErrorCode.read_only_datapoint
            (join name " is not read-write — baseline cannot be restored") name)
      else ok tt
]

-- The loop of `capture`.
unfoldable pub check_names : List String → Status
unfolding check_name
check_names [] = ok tt
check_names (name ∷ names) = elim (check_name name) [ err e ↦ err e | ok _ ↦ check_names names ]

unfoldable pub is_excluded : String → List String → Bool
is_excluded name [] = false
is_excluded name (x ∷ exclude) = same_text x name || is_excluded name exclude

-- The names of `capture_all_writable`.
unfoldable pub restorable_names : List String → List String
unfolding is_excluded same_access collect
restorable_names exclude =
    collect (λ d. same_access d.access read_write && not (is_excluded d.name exclude)) descriptors

-- `dismiss`.
unfoldable pub dismiss : RestoreGuard → RestoreGuard
dismiss g = record g { armed = false }

-- The move constructor: the new guard, and what is left of the other.
unfoldable pub moved : RestoreGuard → RestoreGuard × RestoreGuard
moved other = (other, record { baseline = empty_snapshot; armed = false })

-- The guard of a baseline.
unfoldable pub guard_of : Result DatapointSnapshot → Result RestoreGuard
guard_of (err e) = err e
guard_of (ok baseline) = ok (record { baseline = baseline; armed = true })

module _ {V : Type 0} (f : Floats V) where
  -- `DatapointManager::read_names`.
  unfoldable pub read_names :
      ℕ → Wire → List String → Manager → Manager × List Call × Result DatapointSnapshot
  unfolding read_response
  read_names now wire names m = elim (read_request names interactive_read "") [
    | err e ↦ (m, [], err e)
    | ok spec ↦ let (m', response) = wire spec m in read_response f now explicit_read response m'
  ]

  unfoldable pub capture :
      ℕ → Wire → List String → Manager → Manager × List Call × Result RestoreGuard
  unfolding check_names guard_of
  capture now wire [] m = (
    m,
    [],
    err (
        validation_error ErrorCode.empty_selection "restore guard needs at least one datapoint" ""),
  )
  capture now wire (name ∷ names) m = elim (check_names (name ∷ names)) [
    | err e ↦ (m, [], err e)
    | ok _ ↦
        let (m', calls, baseline) = read_names now wire (name ∷ names) m in
        (m', calls, guard_of baseline)
  ]

  unfoldable pub capture_all_writable :
      ℕ → Wire → List String → Manager → Manager × List Call × Result RestoreGuard
  unfolding restorable_names
  capture_all_writable now wire exclude m = capture now wire (restorable_names exclude) m

  module _ (lib : JsonLibrary) where
    -- The guard afterwards, and the outcome; its `none` is an exception, as in Exchange.
    unfoldable pub restore :
        ℕ
        → Wire
        → RestoreGuard
        → Manager
        → RestoreGuard × Option (Manager × List Call × Result WriteResult)
    restore now wire g m = (
      record g { armed = false },
      elim (assemble g.baseline.values []) [
        | err e ↦ some (m, [], err e)
        | ok changes ↦ write f lib now wire changes m
      ],
    )

    -- The restore that the destructor and the assignment make of a guard that is armed.
    unfoldable pub destroy : ℕ → Wire → RestoreGuard → Manager → Option (Manager × List Call)
    unfolding restore
    destroy now wire g m =
        if not g.armed
        then some (m, [])
        else (restore now wire g m).1 >>= λ (m', calls, result). some (m', calls)

    -- The assignment of another guard object: the guard, what is left of the other, the manager and the
    -- calls.
    unfoldable pub assign :
        ℕ
        → Wire
        → RestoreGuard
        → RestoreGuard
        → Manager
        → Option (RestoreGuard × RestoreGuard × Manager × List Call)
    unfolding destroy moved
    assign now wire g other m =
        destroy now wire g m >>= λ (m', calls). some ((moved other).0, (moved other).1, m', calls)
