-- ===== src/Dispatcher/Accounting.antt =====
-- The counters of `DispatcherMetrics` account for every request.
use fountainer_client_framew.Common.{
  ℕ, suc, ◌+◌, ◌%◌, ◌≡◌, refl, ap, Option, none, some, String, List, [], ◌∷◌, arith, length,
  length-append, u64_mod,
}
use fountainer_client_framew.Error.{Result, ok, err, timeout_error}
use fountainer_client_framew.Json.{Json}
use fountainer_client_framew.Dispatcher.{
  refill, after_send, expire_queue, expire_pending, coalesce, enqueue, warn, answer, reject, accept,
  fail_all, send_next,
}
use fountainer_client_framew.Dispatcher.Store.{Map, get, emplace, erase}
use fountainer_client_framew.Dispatcher.Types.{
  RequestSpec, RateBudget, Waiting, Pending, Event, Dispatcher, incr,
}
use fountainer_client_framew.Dispatcher.Queue.{
  complete, sweep_queue, sweep_pending, take_next, merge_into,
}
use fountainer_client_framew.Dispatcher.Sender.{
  FreshIds, AllKeys, get_none, emplace-AllKeys, erase-AllKeys, sweep_pending-AllKeys,
  AllKeys-weaken,
}
use fountainer_client_framew.Dispatcher.Flight.{length-take_next}
use fountainer_client_framew.Dispatcher.Run.{Call, init, run}
use fountainer_client_framew.Dispatcher.History.{Kept, Allows-any, run_inv}

-- Where each request went: still waiting or open, or counted when it left.
unfoldable pub settled : {S : Type 0} → Dispatcher S → ℕ
settled d =
    d.metrics.coalesced
    + d.metrics.completed
    + d.metrics.unexpected_responses
    + d.metrics.timeouts
    + d.metrics.send_failures
    + d.metrics.disconnect_failures
    + length d.queue
    + length d.pending

length-emplace_new :
    {V : Type 0} (id : String) (v : V) (m : Map V)
    → get id m ≡ none
    → length (emplace id v m) ≡ suc (length m)
unfolding emplace get
length-emplace_new id v [] e = refl
length-emplace_new id v ((j, w) ∷ m) e = ground (arith, length-emplace_new id v m)

length-erase_found :
    {V : Type 0} (id : String) (v : V) (m : Map V)
    → get id m ≡ some v
    → length m ≡ suc (length (erase id m))
unfolding erase get
length-erase_found id v [] e = cc
length-erase_found id v ((j, w) ∷ m) e = ground (arith, length-erase_found id v m)

length-merge_into :
    (q : List Waiting) (spec : RequestSpec) (g : Option ℕ) (deadline : ℕ)
    → length (merge_into q spec g deadline) ≡ length q
unfolding merge_into
length-merge_into [] spec g deadline = refl
length-merge_into (w ∷ ws) spec g deadline = ground (arith, length-merge_into ws spec g deadline)

sweep_queue-counted :
    (now : ℕ) (q : List Waiting) (t : List Event) (n : ℕ)
    → let s = sweep_queue now q t n in
      (s.timeouts + length s.kept) % u64_mod ≡ (n + length q) % u64_mod
unfolding sweep_queue
sweep_queue-counted now [] t n = refl
sweep_queue-counted now (w ∷ ws) t n = ground (
  arith,
  sweep_queue-counted now ws t n,
  sweep_queue-counted now ws (complete w.handlers (err (timeout_error w.spec.type)) t) (incr n),
)

sweep_pending-counted :
    (now : ℕ) (m : Map Pending) (t : List Event) (n : ℕ)
    → let s = sweep_pending now m t n in
      (s.timeouts + length s.kept) % u64_mod ≡ (n + length m) % u64_mod
unfolding sweep_pending
sweep_pending-counted now [] t n = refl
sweep_pending-counted now ((id, p) ∷ m) t n = ground (
  arith,
  sweep_pending-counted now m t n,
  sweep_pending-counted now m (complete p.handlers (err (timeout_error p.type)) t) (incr n),
)

module _ {S : Type 0} (send_ : S → RequestSpec → Result String × S) (ids : FreshIds send_) where
  open ids use {issued, fresh, records, keeps}

  pub record Accounted (d : Dispatcher S) : Type 0 where
    pub balanced : d.metrics.submitted % u64_mod ≡ settled d % u64_mod
    pub covered : AllKeys (issued d.sender) d.pending

  after_send-Accounted :
      (w : Waiting) (s : S) (r : Result String) (d : Dispatcher S)
      → (send_ s w.spec).0 ≡ r
      → d.sender ≡ (send_ s w.spec).1
      → AllKeys (issued s) d.pending
      → d.metrics.submitted % u64_mod ≡ (settled d + 1) % u64_mod
      → Accounted (after_send w r d)
  unfolding after_send settled
  after_send-Accounted w s (err e) d eq same a b = record {
    balanced = omega (arith, b);
    covered =
        rw same
          (AllKeys-weaken (issued s) (issued (send_ s w.spec).1) d.pending (keeps s w.spec) a);
  }
  after_send-Accounted w s (ok id) d eq same a b = record {
    balanced = omega (
      arith,
      b,
      length-emplace_new id
          (record { type = w.spec.type; handlers = w.handlers; deadline = w.deadline }) d.pending
          (get_none (issued s) id d.pending a (fresh s w.spec id eq)),
    );
    covered = rw same (
        emplace-AllKeys (issued (send_ s w.spec).1) id _ d.pending
          (AllKeys-weaken (issued s) (issued (send_ s w.spec).1) d.pending (keeps s w.spec) a)
          (records s w.spec id eq));
  }

  send_next-Accounted :
      (d : Dispatcher S) (w : Waiting) (ws : List Waiting)
      → d.queue ≡ w ∷ ws
      → Accounted d
      → Accounted (send_next send_ w ws d)
  unfolding send_next settled
  send_next-Accounted d w ws e v =
      after_send-Accounted (take_next w ws).0 d.sender (send_ d.sender (take_next w ws).0.spec).0 _
        refl refl v.covered (omega (arith, v.balanced, ap length e, length-take_next w ws))

  answer-Accounted :
      (id type : String) (p : Pending) (message : Json) (d : Dispatcher S)
      → get id d.pending ≡ some p
      → Accounted d
      → Accounted (answer id p type message d)
  unfolding answer reject accept warn settled
  answer-Accounted id type p message d found v = ground (
    arith,
    length-erase_found id p d.pending found,
    erase-AllKeys (issued d.sender) id d.pending v.covered,
  )

  Accounted-Kept : Kept send_ (λ _. Unit {0}) Accounted
  unfolding refill expire_queue expire_pending coalesce enqueue warn fail_all settled
  Accounted-Kept = record {
    on_refill = λ now d v. ground arith;
    on_expire_queue =
        λ now d v. ground (arith, sweep_queue-counted now d.queue d.trace d.metrics.timeouts);
    on_expire_pending = λ now d v. ground (
      arith,
      sweep_pending-counted now d.pending d.trace d.metrics.timeouts,
      sweep_pending-AllKeys (issued d.sender) now d.pending d.trace d.metrics.timeouts v.covered,
    );
    on_round = λ d w ws e _ _ v. send_next-Accounted d w ws e v;
    on_defer = λ d v. ground arith;
    on_flag = λ d b v. ground arith;
    on_coalesce =
        λ spec g deadline d e v. ground (arith, length-merge_into d.queue spec g deadline);
    on_enqueue = λ spec g deadline d e v. grind (arith, length-append);
    on_warn = λ reason type d v. ground arith;
    on_answer = answer-Accounted;
    on_fail_all = λ error d v. ground arith;
    on_budget = λ b d a v. ground arith;
    on_timeout = λ t d v. ground arith;
    on_warning = λ b d v. ground arith;
    on_enabled = λ b d v. ground arith;
  }

  -- Where `send_` hands out fresh ids, then after any history of calls on a new dispatcher the
  -- `submitted` counter is, modulo 2^64, the sum of the counters of requests that were merged,
  -- answered, rejected, timed out, not sent or cut off, and of the requests that wait or are open.
  pub submitted-run :
      (cs : List Call) (s : S) (budget : RateBudget) (timeout : ℕ)
      → let d = run send_ cs (init s budget timeout) in
        d.metrics.submitted % u64_mod ≡ settled d % u64_mod
  unfolding settled
  submitted-run cs s budget timeout =
      (run_inv send_ _ _ Accounted-Kept cs (init s budget timeout) (Allows-any cs)
        (record { balanced = refl; covered = tt })).balanced
