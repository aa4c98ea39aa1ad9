-- ===== src/Dispatcher/Deadlines.antt =====
-- After a tick nothing that waits or is open is past its deadline.
use fountainer_client_framew.Common.{ℕ, ◌<◌, ◌≡◌, String, List, [], ◌∷◌, arith, All}
use fountainer_client_framew.Error.{Result, ok, err, timeout_error}
use fountainer_client_framew.Dispatcher.{
  refill, after_send, expire_queue, expire_pending, send_next, tick,
}
use fountainer_client_framew.Dispatcher.Store.{Map, emplace}
use fountainer_client_framew.Dispatcher.Types.{
  RequestSpec, Waiting, Pending, Event, Dispatcher, incr,
}
use fountainer_client_framew.Dispatcher.Queue.{complete, sweep_queue, sweep_pending, take_next}
use fountainer_client_framew.Dispatcher.Rules.{drain_inv}

abbrev pub QueueAfter : ℕ → List Waiting → Type 0
QueueAfter now = All (λ w. now < w.deadline)

abbrev pub OpenAfter : ℕ → Map Pending → Type 0
OpenAfter now [] = Unit {0}
OpenAfter now ((id, p) ∷ m) = (now < p.deadline) × OpenAfter now m

sweep_queue-QueueAfter :
    (now : ℕ) (q : List Waiting) (t : List Event) (n : ℕ)
    → QueueAfter now (sweep_queue now q t n).kept
unfolding sweep_queue
sweep_queue-QueueAfter now [] t n = tt
sweep_queue-QueueAfter now (w ∷ ws) t n = ground (
  arith,
  sweep_queue-QueueAfter now ws t n,
  sweep_queue-QueueAfter now ws (complete w.handlers (err (timeout_error w.spec.type)) t) (incr n),
)

sweep_pending-OpenAfter :
    (now : ℕ) (m : Map Pending) (t : List Event) (n : ℕ)
    → OpenAfter now (sweep_pending now m t n).kept
unfolding sweep_pending
sweep_pending-OpenAfter now [] t n = tt
sweep_pending-OpenAfter now ((id, p) ∷ m) t n = ground (
  arith,
  sweep_pending-OpenAfter now m t n,
  sweep_pending-OpenAfter now m (complete p.handlers (err (timeout_error p.type)) t) (incr n),
)

take_next-QueueAfter :
    (now : ℕ) (w : Waiting) (ws : List Waiting)
    → QueueAfter now (w ∷ ws)
    → (now < (take_next w ws).0.deadline) × QueueAfter now (take_next w ws).1
unfolding take_next
take_next-QueueAfter now w [] a = (a.0, tt)
take_next-QueueAfter now w (x ∷ xs) a = ground (arith, take_next-QueueAfter now x xs a.1)

emplace-OpenAfter :
    (now : ℕ) (id : String) (p : Pending) (m : Map Pending)
    → OpenAfter now m
    → now < p.deadline
    → OpenAfter now (emplace id p m)
unfolding emplace
emplace-OpenAfter now id p [] a h = (h, tt)
emplace-OpenAfter now id p ((j, w) ∷ m) a h = ground (arith, emplace-OpenAfter now id p m a.1 h)

module _ {S : Type 0} (send_ : S → RequestSpec → Result String × S) where
  pub record Timely (now : ℕ) (d : Dispatcher S) : Type 0 where
    pub waiting : QueueAfter now d.queue
    pub open' : OpenAfter now d.pending

  after_send-Timely :
      (now : ℕ) (w : Waiting) (r : Result String) (d : Dispatcher S)
      → now < w.deadline
      → Timely now d
      → Timely now (after_send w r d)
  unfolding after_send
  after_send-Timely now w (err e) d h v = record { waiting = v.waiting; open' = v.open' }
  after_send-Timely now w (ok id) d h v = record {
    waiting = v.waiting;
    open' = emplace-OpenAfter now id _ d.pending v.open' h;
  }

  send_next-Timely :
      (now : ℕ) (d : Dispatcher S) (w : Waiting) (ws : List Waiting)
      → d.queue ≡ w ∷ ws
      → Timely now d
      → Timely now (send_next send_ w ws d)
  unfolding send_next
  send_next-Timely now d w ws e v =
      let t = take_next-QueueAfter now w ws (rw e at v.waiting) in
      let sent = send_ d.sender (take_next w ws).0.spec in
      after_send-Timely now (take_next w ws).0 sent.0
        (record d { queue = (take_next w ws).1; sender = sent.1 }) t.0
        (record { waiting = t.1; open' = v.open' })

  -- After `tick(now)`, with every setting of the dispatcher, each request that still waits and each
  -- request that is open, those sent by this very tick included, has a deadline later than `now`.
  pub tick-Timely : (now : ℕ) (d : Dispatcher S) → Timely now (tick send_ now d)
  unfolding tick expire_queue expire_pending
  tick-Timely now d =
      drain_inv send_ (Timely now) (λ d w ws e _ _ v. send_next-Timely now d w ws e v)
        (λ d v. record { waiting = v.waiting; open' = v.open' })
        (λ d b v. record { waiting = v.waiting; open' = v.open' }) _
        (record {
          waiting = sweep_queue-QueueAfter now (refill now d).queue _ _;
          open' = sweep_pending-OpenAfter now (refill now d).pending _ _;
        })
