-- ===== src/Dispatcher/Handlers/Loops.antt =====
-- Each loop of src/protocol/dispatcher.cpp hands every handler it drops exactly one call.
use fountainer_client_framew.Common.{
  ℕ, ◌+◌, ◌≡◌, refl, true, Option, none, some, String, List, [], ◌∷◌, ◌++◌, arith,
}
use fountainer_client_framew.Error.{Result, err, timeout_error}
use fountainer_client_framew.Json.{Json}
use fountainer_client_framew.Dispatcher.Store.{Map, get, emplace, erase}
use fountainer_client_framew.Dispatcher.Types.{RequestSpec, Waiting, Pending, Event, called, incr}
use fountainer_client_framew.Dispatcher.Queue.{
  complete, sweep_queue, sweep_pending, take_next, has_key, merge_into, fail_pending, fail_queue,
}
use fountainer_client_framew.Dispatcher.Counts.{
  is_handler, count_handlers, count_waiting, count_pending, calls,
}

pub calls-complete :
    (h : ℕ) (hs : List (Option ℕ)) (r : Result Json) (t : List Event)
    → calls h (complete hs r t) ≡ count_handlers h hs + calls h t
unfolding complete count_handlers calls
calls-complete h [] r t = omega arith
calls-complete h (none ∷ hs) r t = omega (arith, calls-complete h hs r t)
calls-complete h (some g ∷ hs) r t = omega (arith, calls-complete h hs r (called g r ∷ t))

pub sweep_queue-calls :
    (h now : ℕ) (q : List Waiting) (t : List Event) (n : ℕ)
    → let s = sweep_queue now q t n in
      count_waiting h s.kept + calls h s.trace ≡ count_waiting h q + calls h t
unfolding sweep_queue count_waiting
sweep_queue-calls h now [] t n = refl
sweep_queue-calls h now (w ∷ ws) t n =
    let t' = complete w.handlers (err (timeout_error w.spec.type)) t in
    ground (
      arith,
      calls-complete h w.handlers (err (timeout_error w.spec.type)) t,
      sweep_queue-calls h now ws t' (incr n),
      sweep_queue-calls h now ws t n,
    )

pub sweep_pending-calls :
    (h now : ℕ) (q : Map Pending) (t : List Event) (n : ℕ)
    → let s = sweep_pending now q t n in
      count_pending h s.kept + calls h s.trace ≡ count_pending h q + calls h t
unfolding sweep_pending count_pending
sweep_pending-calls h now [] t n = refl
sweep_pending-calls h now ((id, p) ∷ ps) t n =
    let t' = complete p.handlers (err (timeout_error p.type)) t in
    ground (
      arith,
      calls-complete h p.handlers (err (timeout_error p.type)) t,
      sweep_pending-calls h now ps t' (incr n),
      sweep_pending-calls h now ps t n,
    )

pub take_next-count :
    (h : ℕ) (w : Waiting) (ws : List Waiting)
    → let (least, rest) = take_next w ws in
      count_handlers h least.handlers + count_waiting h rest
      ≡ count_handlers h w.handlers + count_waiting h ws
unfolding take_next count_waiting
take_next-count h w [] = refl
take_next-count h w (x ∷ xs) = ground (arith, take_next-count h x xs)

pub count_handlers-append :
    (h : ℕ) (xs ys : List (Option ℕ))
    → count_handlers h (xs ++ ys) ≡ count_handlers h xs + count_handlers h ys
unfolding count_handlers
count_handlers-append h [] ys = omega arith
count_handlers-append h (x ∷ xs) ys = omega (arith, count_handlers-append h xs ys)

pub count_waiting-append :
    (h : ℕ) (xs ys : List Waiting)
    → count_waiting h (xs ++ ys) ≡ count_waiting h xs + count_waiting h ys
unfolding count_waiting
count_waiting-append h [] ys = omega arith
count_waiting-append h (x ∷ xs) ys = omega (arith, count_waiting-append h xs ys)

pub merge_into-count :
    (h : ℕ) (q : List Waiting) (spec : RequestSpec) (g : Option ℕ) (deadline : ℕ)
    → has_key spec.coalesce_key q ≡ true
    → count_waiting h (merge_into q spec g deadline) ≡ is_handler h g + count_waiting h q
unfolding merge_into has_key count_waiting count_handlers
merge_into-count h [] spec g deadline e = cc
merge_into-count h (w ∷ ws) spec g deadline e =
    ground
      (arith, count_handlers-append h w.handlers (g ∷ []), merge_into-count h ws spec g deadline)

pub emplace-count :
    (h : ℕ) (id : String) (p : Pending) (m : Map Pending)
    → get id m ≡ none
    → count_pending h (emplace id p m) ≡ count_handlers h p.handlers + count_pending h m
unfolding emplace get count_pending
emplace-count h id p [] e = refl
emplace-count h id p ((j, v) ∷ m) e = ground (arith, emplace-count h id p m)

pub erase-count :
    (h : ℕ) (id : String) (p : Pending) (m : Map Pending)
    → get id m ≡ some p
    → count_pending h m ≡ count_handlers h p.handlers + count_pending h (erase id m)
unfolding erase get count_pending
erase-count h id p [] e = cc
erase-count h id p ((j, v) ∷ m) e = ground (arith, erase-count h id p m)

pub fail_pending-calls :
    (h : ℕ) (ps : Map Pending) (r : Result Json) (t : List Event)
    → calls h (fail_pending ps r t) ≡ count_pending h ps + calls h t
unfolding fail_pending count_pending
fail_pending-calls h [] r t = omega arith
fail_pending-calls h ((id, p) ∷ ps) r t =
    omega
      (arith, fail_pending-calls h ps r (complete p.handlers r t), calls-complete h p.handlers r t)

pub fail_queue-calls :
    (h : ℕ) (q : List Waiting) (r : Result Json) (t : List Event)
    → calls h (fail_queue q r t) ≡ count_waiting h q + calls h t
unfolding fail_queue count_waiting
fail_queue-calls h [] r t = omega arith
fail_queue-calls h (w ∷ ws) r t =
    omega
      (arith, fail_queue-calls h ws r (complete w.handlers r t), calls-complete h w.handlers r t)
