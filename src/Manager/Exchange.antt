-- ===== src/Manager/Exchange.antt =====
-- The requests of src/datapoints/manager.cpp and what it does with their answers. `none` is an exception
-- of the JSON library or of `std::get`, or a descriptor that is missing.
use fountainer_client_framew.Common.{
  ℕ, ◌%◌, Option, none, some, String, List, [], ◌∷◌, ◌++◌, concat,
}
use fountainer_client_framew.Error.{ErrorCode, Result, ok, err, validation_error}
use fountainer_client_framew.Auth.{◌>>=◌}
use fountainer_client_framew.Json.{
  Json, ℤ, number_integer, number_unsigned, number_float, array, object, text, Items, nil, cons,
  Fields, end, field, set_field, value_text,
}
use fountainer_client_framew.Json
use fountainer_client_framew.Session.Values.{value_json, elements, int_bits}
use fountainer_client_framew.Dispatcher.Types.{
  RequestSpec, OperationPriority, interactive_control, interactive_read,
}
use fountainer_client_framew.Dispatcher.Store.{Map}
use fountainer_client_framew.Datapoint.{DatapointValue}
use fountainer_client_framew.Catalog.{find, all_names}
use fountainer_client_framew.Codec.{Floats, value_to_json}
use fountainer_client_framew.Snapshot.{
  DatapointSource, write_readback, DatapointSnapshot, empty_snapshot, add_unknown, find_value,
  decode_dp_object, WriteError, WriteResult,
}
use fountainer_client_framew.WriteSet.{validate}
use fountainer_client_framew.Manager.{Manager, Call, update_cache}

-- What the answers need of nlohmann::json: `dump`, and the low byte of `get<int>()` of a double.
pub record JsonLibrary : Type 0 where
  pub dump : Json → String
  pub float_byte : ℕ → ℕ

unfoldable pub names_array : List String → Items
names_array [] = nil
names_array (name ∷ names) = cons (text name) (names_array names)

-- The loop over the names in `async_read`.
unfoldable pub first_unknown : List String → Option String
first_unknown [] = none
first_unknown (name ∷ names) = elim (find name) [ none ↦ some name | some _ ↦ first_unknown names ]

-- `async_read` up to the call of `submit`, with the error that it completes with otherwise.
unfoldable pub read_request : List String → OperationPriority → String → Result RequestSpec
read_request [] priority coalesce_key = err (
    validation_error ErrorCode.empty_selection
      "read() needs explicit names — an empty dp_read would only return the volatile datapoints on the local transport"
      "")
read_request (name ∷ names) priority coalesce_key = elim (first_unknown (name ∷ names)) [
  | some x ↦ err (
      validation_error ErrorCode.unknown_datapoint (concat ("unknown datapoint '" ∷ x ∷ "'" ∷ []))
        x)
  | none ↦ ok (record {
    type = "dp_read";
    body = object (field "names" (array (names_array (name ∷ names))) end);
    timeout = none;
    priority = priority;
    coalesce_key = coalesce_key;
  })
]

-- `async_read_all`.
unfoldable pub read_all_request : Result RequestSpec
unfolding read_request
read_all_request = read_request all_names interactive_read "read_all"

unfoldable pub add_unknowns : Items → DatapointSnapshot → DatapointSnapshot
add_unknowns nil s = s
add_unknowns (cons (text name) xs) s = add_unknowns xs (add_unknown name s)
add_unknowns (cons _ xs) s = add_unknowns xs s

module _ {V : Type 0} (f : Floats V) where
  -- The handler that `async_read` submits, on an answer that is an object: the new state, the calls of
  -- subscribers, and what the completion is called with after them.
  unfoldable pub read_response :
      ℕ → DatapointSource → Result Json → Manager → Manager × List Call × Result DatapointSnapshot
  unfolding add_unknowns
  read_response now source (err e) m = (m, [], err e)
  read_response now source (ok response) m =
      let snapshot =
        add_unknowns (elements (value_json response "unknown" (array nil)))
          (decode_dp_object f (value_json response "dp" (object end))) in
      let (m', calls) = update_cache f now source none snapshot m in (m', calls, ok snapshot)

  -- `read(name)` once the names have been read.
  unfoldable pub read_value : String → Result DatapointSnapshot → Result DatapointValue
  read_value name (err e) = err e
  read_value name (ok snapshot) = elim (find_value name snapshot) [
    | some value ↦ ok value
    | none ↦ err (
        validation_error ErrorCode.unknown_datapoint
          (concat ("device did not return '" ∷ name ∷ "'" ∷ [])) name)
  ]

  -- The object that `async_write` builds.
  unfoldable pub dp_object : Map DatapointValue → Fields → Option Fields
  dp_object [] fs = some fs
  dp_object ((name, value) ∷ values) fs = elim (find name) [
    | none ↦ none
    | some d ↦ value_to_json f d value >>= λ json. dp_object values (set_field name json fs)
  ]

  abbrev pub write_spec : Fields → RequestSpec
  write_spec fs = record {
    type = "dp_write";
    body = object (field "dp" (object fs) end);
    timeout = none;
    priority = interactive_control;
    coalesce_key = "";
  }

  -- `async_write` up to the call of `submit`.
  unfoldable pub write_request : Map DatapointValue → Option (Result RequestSpec)
  unfolding dp_object
  write_request changes = elim (validate f changes) [
    | err e ↦ some (err e)
    | ok _ ↦ dp_object changes end >>= λ fs. some (ok (write_spec fs))
  ]

  module _ (lib : JsonLibrary) where
    unfoldable pub reason_of : Json → String
    reason_of (text s) = s
    reason_of v = lib.dump v

    unfoldable pub error_entries : Fields → List WriteError
    unfolding reason_of
    error_entries end = []
    error_entries (field name reason fs) =
        record { datapoint = name; reason = reason_of reason } ∷ error_entries fs

    -- The member `errors`.
    unfoldable pub named_errors : Option Json → List WriteError
    unfolding error_entries
    named_errors (some (object fs)) = error_entries fs
    named_errors _ = []

    -- The member `error`.
    unfoldable pub single_error : Option Json → List WriteError
    single_error (some (text s)) = record { datapoint = ""; reason = s } ∷ []
    single_error _ = []

    unfoldable pub warning_of : Option Json → Option String
    warning_of (some (text s)) = some s
    warning_of _ = none

    -- `static_cast<std::uint8_t>(it->get<int>())` of a number.
    unfoldable pub save_of : Option Json → Option ℕ
    save_of (some (number_integer n)) = some (int_bits 256 n)
    save_of (some (number_unsigned n)) = some (n % 256)
    save_of (some (number_float bits)) = some (lib.float_byte bits)
    save_of _ = none

    -- The member `readback`, if it is an object.
    unfoldable pub readback_of : Option Json → Option Json
    readback_of (some (object fs)) = some (object fs)
    readback_of _ = none

    -- The result of a write but for the readback.
    unfoldable pub result_of : String → Json → WriteResult
    result_of status message = record {
      status = status;
      errors =
          named_errors (Json.find message "errors") ++ single_error (Json.find message "error");
      warning = warning_of (Json.find message "warning");
      network_save = save_of (Json.find message "network_save");
      readback = empty_snapshot;
    }

    -- A readback goes into the cache.
    unfoldable pub take_readback :
        ℕ → WriteResult → Option Json → Manager → Manager × List Call × WriteResult
    take_readback now result none m = (m, [], result)
    take_readback now result (some dp) m =
        let snapshot = decode_dp_object f dp in
        let (m', calls) = update_cache f now write_readback none snapshot m in
        (m', calls, record result { readback = snapshot })

    unfoldable pub parse_write_result :
        ℕ → Json → Manager → Option (Manager × List Call × WriteResult)
    parse_write_result now message m = do
      status ← value_text message "status"
      some (
          take_readback now (result_of status message) (readback_of (Json.find message "readback"))
            m)

    -- The handler that `async_write_json` submits.
    unfoldable pub write_response :
        ℕ → Result Json → Manager → Option (Manager × List Call × Result WriteResult)
    write_response now (err e) m = some (m, [], err e)
    write_response now (ok response) m = do
      (m', calls, result) ← parse_write_result now response m
      some (m', calls, ok result)

    -- `write(changes)`, where the blocking runner takes the work. `wire` is what happens between the
    -- request and its answer: the answer, and the manager as the other threads leave it.
    unfoldable pub write :
        ℕ
        → (RequestSpec → Manager → Manager × Result Json)
        → Map DatapointValue
        → Manager
        → Option (Manager × List Call × Result WriteResult)
    write now wire changes m = do
      request ← write_request changes
      elim request [
        | err e ↦ some (m, [], err e)
        | ok spec ↦ let (m', response) = wire spec m in write_response now response m'
      ]
