-- ===== src/Dispatcher/Flight.antt =====
-- How many requests are open at once, and when `drain` stops.
use fountainer_client_framew.Common.{
  ℕ, zero, suc, ◌≤◌, ◌<◌, ◌≡◌, ◌⊎◌, inl, inr, refl, ap, ◌∙◌, true, false, not, ◌||◌, String, List,
  [], ◌∷◌, arith, length, ltb, ltb→lt, ltb→ge, Bool-cases, List-cases, length-eq_zero,
}
use fountainer_client_framew.Error.{Result, ok, err}
use fountainer_client_framew.Dispatcher.{
  refill, after_send, expire_queue, expire_pending, coalesce, enqueue, warn, answer, reject, accept,
  fail_all, send_next, drain_loop, drain, tick,
}
use fountainer_client_framew.Dispatcher.Store.{Map, emplace, erase}
use fountainer_client_framew.Dispatcher.Types.{
  RequestSpec, RateBudget, Waiting, Pending, Event, Dispatcher, token_unit,
}
use fountainer_client_framew.Dispatcher.Queue.{sweep_pending, take_next}
use fountainer_client_framew.Dispatcher.Run.{Call, init, run}
use fountainer_client_framew.Dispatcher.History.{Kept, Allows, run_inv}

pub length-emplace :
    {V : Type 0} (id : String) (v : V) (m : Map V) → length (emplace id v m) ≤ suc (length m)
unfolding emplace
length-emplace id v [] = omega arith
length-emplace id v ((j, w) ∷ m) = ground (arith, length-emplace id v m)

length-erase : {V : Type 0} (id : String) (m : Map V) → length (erase id m) ≤ length m
unfolding erase
length-erase id [] = omega arith
length-erase id ((j, w) ∷ m) = ground (arith, length-erase id m)

length-sweep_pending :
    (now : ℕ) (m : Map Pending) (t : List Event) (n : ℕ)
    → length (sweep_pending now m t n).kept ≤ length m
unfolding sweep_pending
length-sweep_pending now [] t n = omega arith
length-sweep_pending now ((id, p) ∷ m) t n = grind (arith, length-sweep_pending now m)

pub length-take_next : (w : Waiting) (ws : List Waiting) → length (take_next w ws).1 ≡ length ws
unfolding take_next
length-take_next w [] = refl
length-take_next w (x ∷ xs) = ground (arith, length-take_next x xs)

-- At most `cap` requests are open, and the budget allows no more.
pub record Bounded (cap : ℕ) {S : Type 0} (d : Dispatcher S) : Type 0 where
  pub allowed : d.budget.max_in_flight ≤ cap
  pub few : length d.pending ≤ cap

module _ {S : Type 0} (send_ : S → RequestSpec → Result String × S) (cap : ℕ) where
  after_send-Bounded :
      (w : Waiting) (r : Result String) (d : Dispatcher S)
      → length d.pending < d.budget.max_in_flight
      → Bounded cap d
      → Bounded cap (after_send w r d)
  unfolding after_send
  after_send-Bounded w (err e) d room v = record { allowed = v.allowed; few = v.few }
  after_send-Bounded w (ok id) d room v = record {
    allowed = v.allowed;
    few = omega (
      arith,
      v.allowed,
      length-emplace id
          (record { type = w.spec.type; handlers = w.handlers; deadline = w.deadline }) d.pending,
    );
  }

  Bounded-Kept : Kept send_ (λ b. b.max_in_flight ≤ cap) (λ (d : Dispatcher S). Bounded cap d)
  unfolding refill expire_queue expire_pending coalesce enqueue warn answer reject accept fail_all
      send_next
  Bounded-Kept = record {
    on_refill = λ now d v. ground arith;
    on_expire_queue = λ now d v. ground arith;
    on_expire_pending =
        λ now d v. ground (arith, length-sweep_pending now d.pending d.trace d.metrics.timeouts);
    on_round = λ d w ws _ _ room v.
        let sent = send_ d.sender (take_next w ws).0.spec in
        after_send-Bounded (take_next w ws).0 sent.0
          (record d { queue = (take_next w ws).1; sender = sent.1 }) room
          (record { allowed = v.allowed; few = v.few });
    on_defer = λ d v. ground arith;
    on_flag = λ d b v. ground arith;
    on_coalesce = λ spec g deadline d e v. ground arith;
    on_enqueue = λ spec g deadline d e v. ground arith;
    on_warn = λ reason type d v. ground arith;
    on_answer = λ id type p message d found v. ground (arith, length-erase id d.pending);
    on_fail_all = λ error d v. ground arith;
    on_budget = λ b d a v. ground arith;
    on_timeout = λ t d v. ground arith;
    on_warning = λ b d v. ground arith;
    on_enabled = λ b d v. ground arith;
  }

  -- A new dispatcher whose budget, and every later budget, allows at most `cap` requests in flight
  -- has at most `cap` open requests after any history.
  pub pending-run :
      (cs : List Call) (s : S) (budget : RateBudget) (timeout : ℕ)
      → budget.max_in_flight ≤ cap
      → Allows (λ b. b.max_in_flight ≤ cap) cs
      → length (run send_ cs (init s budget timeout)).pending ≤ cap
  pending-run cs s budget timeout h a =
      (run_inv send_ _ _ Bounded-Kept cs (init s budget timeout) a
        (record { allowed = h; few = omega arith })).few

-- Nothing more can be sent: the queue is empty, the budget of open requests is used up, or a token
-- is missing.
abbrev pub Exhausted : {S : Type 0} → Dispatcher S → Type 0
Exhausted d =
    (d.queue ≡ []) ⊎ ((d.budget.max_in_flight ≤ length d.pending) ⊎ (d.tokens < token_unit))

module _ {S : Type 0} (send_ : S → RequestSpec → Result String × S) where
  after_send-queue :
      (w : Waiting) (r : Result String) (d : Dispatcher S) → (after_send w r d).queue ≡ d.queue
  unfolding after_send
  after_send-queue w (err e) d = refl
  after_send-queue w (ok id) d = refl

  pub send_next-queue :
      (w : Waiting) (ws : List Waiting) (d : Dispatcher S)
      → (send_next send_ w ws d).queue ≡ (take_next w ws).1
  unfolding send_next
  send_next-queue w ws d =
      let sent = send_ d.sender (take_next w ws).0.spec in
      after_send-queue (take_next w ws).0 sent.0
        (record d { queue = (take_next w ws).1; sender = sent.1 })

  drain_loop-Exhausted :
      (fuel : ℕ) (d : Dispatcher S) → length d.queue ≤ fuel → Exhausted (drain_loop send_ fuel d)
  unfolding drain_loop
  drain_loop-Exhausted zero d h = inl (length-eq_zero d.queue (omega arith))
  drain_loop-Exhausted (suc fuel) d h = elim (List-cases d.queue) [
    | inl e ↦ rw (e, drain_loop) (inl e)
    | inr (w, ws, e) ↦ elim (Bool-cases (ltb (length d.pending) d.budget.max_in_flight)) [
      | inr full ↦ rw (e, drain_loop, full) (inr (inl (ltb→ge _ _ full)))
      | inl room ↦ elim (Bool-cases (ltb d.tokens token_unit)) [
        | inl poor ↦ rw (e, drain_loop, room, poor) (inr (inr (ltb→lt _ _ poor)))
        | inr rich ↦
            rw (e, drain_loop, room, rich)
              (drain_loop-Exhausted fuel (send_next send_ w ws d)
                (rw send_next-queue (omega (arith, ap length e, length-take_next w ws))))
      ]
    ]
  ]

  drain-Exhausted :
      (d : Dispatcher S) → d.sending_enabled ≡ true → d.draining ≡ false → Exhausted (drain send_ d)
  unfolding drain
  drain-Exhausted d on idle =
      let e : (not d.sending_enabled || d.draining) ≡ false = ground arith in
      rw e (drain_loop-Exhausted (length d.queue) (record d { draining = true }) (omega arith))

  refill_flags :
      (now : ℕ) (d : Dispatcher S)
      → ((refill now d).sending_enabled ≡ d.sending_enabled)
        × ((refill now d).draining ≡ d.draining)
  unfolding refill
  refill_flags now d = ground arith

  -- A dispatcher that may send, and is not in a `drain` already, is after `tick` left with nothing
  -- that it could still send: the loop of `drain` ends by its own tests and never by its fuel.
  pub tick-Exhausted :
      (now : ℕ) (d : Dispatcher S)
      → d.sending_enabled ≡ true
      → d.draining ≡ false
      → Exhausted (tick send_ now d)
  unfolding tick expire_queue expire_pending
  tick-Exhausted now d on idle =
      let f = refill_flags now d in
      drain-Exhausted (expire_pending now (expire_queue now (refill now d))) (f.0 ∙ on) (f.1 ∙ idle)
