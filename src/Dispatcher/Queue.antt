-- ===== src/Dispatcher/Queue.antt =====
-- The parts of src/protocol/dispatcher.cpp that work on the two containers and on the handlers.
use fountainer_client_framew.Common.{
  ℕ, max, Bool, true, false, ◌||◌, Option, none, some, String, List, [], ◌∷◌, ◌++◌, ltb, leb, ◌==◌,
  same_text, if◌then◌else◌,
}
use fountainer_client_framew.Error.{Result, err, timeout_error}
use fountainer_client_framew.Json.{Json}
use fountainer_client_framew.Dispatcher.Store.{Map}
use fountainer_client_framew.Dispatcher.Types.{
  OperationPriority, rank, RequestSpec, Waiting, Pending, Event, called, incr,
}

-- `if (handler) handler(result)`.
unfoldable pub invoke : Option ℕ → Result Json → List Event → List Event
invoke none result trace = trace
invoke (some h) result trace = called h result ∷ trace

unfoldable pub complete : List (Option ℕ) → Result Json → List Event → List Event
unfolding invoke
complete [] result trace = trace
complete (h ∷ hs) result trace = complete hs result (invoke h result trace)

-- What the loops of `tick` leave: the entries kept, the trace, and the count of timeouts.
pub record Swept (A : Type 0) : Type 0 where
  pub kept : List A
  pub trace : List Event
  pub timeouts : ℕ

keep_entry : {A : Type 0} → A → Swept A → Swept A
keep_entry a s = record s { kept = a ∷ s.kept }

-- The loop over the waiting requests in `tick`.
unfoldable pub sweep_queue : ℕ → List Waiting → List Event → ℕ → Swept Waiting
unfolding keep_entry
sweep_queue now [] trace n = record { kept = []; trace = trace; timeouts = n }
sweep_queue now (w ∷ ws) trace n = elim (leb w.deadline now) [
  | true ↦ sweep_queue now ws (complete w.handlers (err (timeout_error w.spec.type)) trace) (incr n)
  | false ↦ keep_entry w (sweep_queue now ws trace n)
]

-- The loop over the open requests in `tick`.
unfoldable pub sweep_pending : ℕ → Map Pending → List Event → ℕ → Swept (String × Pending)
unfolding keep_entry
sweep_pending now [] trace n = record { kept = []; trace = trace; timeouts = n }
sweep_pending now ((id, p) ∷ ps) trace n = elim (leb p.deadline now) [
  | true ↦ sweep_pending now ps (complete p.handlers (err (timeout_error p.type)) trace) (incr n)
  | false ↦ keep_entry (id, p) (sweep_pending now ps trace n)
]

-- The comparison that `drain` hands to `std::min_element`.
abbrev pub before : Waiting → Waiting → Bool
before a b =
    if rank a.spec.priority == rank b.spec.priority
    then ltb a.sequence b.sequence
    else ltb (rank a.spec.priority) (rank b.spec.priority)

-- The first smallest entry of a queue that is not empty, and the queue without it.
unfoldable pub take_next : Waiting → List Waiting → Waiting × List Waiting
take_next w [] = (w, [])
take_next w (x ∷ xs) =
    let (least, rest) = take_next x xs in if before least w then (least, w ∷ rest) else (w, x ∷ xs)

-- `std::find_if` over the coalescing keys, and the merge with the entry found.
unfoldable pub has_key : String → List Waiting → Bool
has_key key [] = false
has_key key (w ∷ ws) = same_text w.spec.coalesce_key key || has_key key ws

abbrev pub urgent : OperationPriority → OperationPriority → OperationPriority
urgent new old = if ltb (rank new) (rank old) then new else old

unfoldable pub merge : Waiting → RequestSpec → Option ℕ → ℕ → Waiting
merge w spec handler deadline = record {
  spec = record {
    type = w.spec.type;
    body = w.spec.body;
    timeout = w.spec.timeout;
    priority = urgent spec.priority w.spec.priority;
    coalesce_key = w.spec.coalesce_key;
  };
  handlers = w.handlers ++ handler ∷ [];
  deadline = max w.deadline deadline;
  sequence = w.sequence;
}

unfoldable pub merge_into : List Waiting → RequestSpec → Option ℕ → ℕ → List Waiting
unfolding merge
merge_into [] spec handler deadline = []
merge_into (w ∷ ws) spec handler deadline =
    if same_text w.spec.coalesce_key spec.coalesce_key
    then merge w spec handler deadline ∷ ws
    else w ∷ merge_into ws spec handler deadline

abbrev pub value_or : Option ℕ → ℕ → ℕ
value_or none d = d
value_or (some n) d = n

-- The loops of `fail_all`.
unfoldable pub fail_pending : Map Pending → Result Json → List Event → List Event
fail_pending [] failure trace = trace
fail_pending ((id, p) ∷ ps) failure trace =
    fail_pending ps failure (complete p.handlers failure trace)

unfoldable pub fail_queue : List Waiting → Result Json → List Event → List Event
fail_queue [] failure trace = trace
fail_queue (w ∷ ws) failure trace = fail_queue ws failure (complete w.handlers failure trace)
