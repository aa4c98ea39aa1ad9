-- ===== src/Dispatcher/Keys.antt =====
-- The invariants of the queue: one entry for each coalescing key, and sequence numbers that rise.
use fountainer_client_framew.Common.{
  ℕ, ◌≡◌, ◌⊎◌, inr, refl, true, false, not, ◌&&◌, ◌||◌, Option, String, List, [], ◌∷◌, ◌++◌, arith,
  same_text, same_text_iff, is_empty,
}
use fountainer_client_framew.Error.{Result, err, timeout_error}
use fountainer_client_framew.Dispatcher.{
  refill, expire_queue, expire_pending, coalesce, enqueue, warn, answer, reject, accept, fail_all,
}
use fountainer_client_framew.Dispatcher.Types.{
  RequestSpec, RateBudget, Waiting, Event, Dispatcher, incr,
}
use fountainer_client_framew.Dispatcher.Queue.{
  complete, sweep_queue, take_next, merge_into, has_key,
}
use fountainer_client_framew.Dispatcher.Flight.{send_next-queue}
use fountainer_client_framew.Dispatcher.Run.{Call, init, run}
use fountainer_client_framew.Dispatcher.History.{Kept, Allows-any, run_inv}

-- Behind each entry with a coalescing key no entry has that key.
abbrev pub KeysDistinct : List Waiting → Type 0
KeysDistinct [] = Unit {0}
KeysDistinct (w ∷ ws) =
    ((is_empty w.spec.coalesce_key ≡ true) ⊎ (has_key w.spec.coalesce_key ws ≡ false))
    × KeysDistinct ws

sweep_queue-has_key :
    (k : String) (now : ℕ) (q : List Waiting) (t : List Event) (n : ℕ)
    → has_key k q ≡ false
    → has_key k (sweep_queue now q t n).kept ≡ false
unfolding sweep_queue has_key
sweep_queue-has_key k now [] t n h = refl
sweep_queue-has_key k now (w ∷ ws) t n h = grind (arith, sweep_queue-has_key k now ws)

sweep_queue-KeysDistinct :
    (now : ℕ) (q : List Waiting) (t : List Event) (n : ℕ)
    → KeysDistinct q
    → KeysDistinct (sweep_queue now q t n).kept
unfolding sweep_queue
sweep_queue-KeysDistinct now [] t n v = tt
sweep_queue-KeysDistinct now (w ∷ ws) t n v = ground (
  arith,
  sweep_queue-has_key w.spec.coalesce_key now ws t n,
  sweep_queue-KeysDistinct now ws t n v.1,
  sweep_queue-KeysDistinct now ws (complete w.handlers (err (timeout_error w.spec.type)) t) (incr n)
      v.1,
)

take_next-has_key :
    (k : String) (w : Waiting) (ws : List Waiting)
    → has_key k ((take_next w ws).0 ∷ (take_next w ws).1) ≡ has_key k (w ∷ ws)
unfolding take_next has_key
take_next-has_key k w [] = refl
take_next-has_key k w (x ∷ xs) = ground (arith, take_next-has_key k x xs)

take_next-KeysDistinct :
    (w : Waiting) (ws : List Waiting) → KeysDistinct (w ∷ ws) → KeysDistinct (take_next w ws).1
unfolding take_next has_key
take_next-KeysDistinct w [] v = tt
take_next-KeysDistinct w (x ∷ xs) v =
    ground (arith, take_next-has_key w.spec.coalesce_key x xs, take_next-KeysDistinct x xs v.1)

merge_into-has_key :
    (k : String) (q : List Waiting) (spec : RequestSpec) (g : Option ℕ) (deadline : ℕ)
    → has_key k (merge_into q spec g deadline) ≡ has_key k q
unfolding merge_into has_key
merge_into-has_key k [] spec g deadline = refl
merge_into-has_key k (w ∷ ws) spec g deadline =
    ground (arith, merge_into-has_key k ws spec g deadline)

merge_into-KeysDistinct :
    (q : List Waiting) (spec : RequestSpec) (g : Option ℕ) (deadline : ℕ)
    → KeysDistinct q
    → KeysDistinct (merge_into q spec g deadline)
unfolding merge_into
merge_into-KeysDistinct [] spec g deadline v = tt
merge_into-KeysDistinct (w ∷ ws) spec g deadline v = ground (
  arith,
  merge_into-has_key w.spec.coalesce_key ws spec g deadline,
  merge_into-KeysDistinct ws spec g deadline v.1,
)

snoc-has_key :
    (k : String) (q : List Waiting) (x : Waiting)
    → has_key k (q ++ x ∷ []) ≡ (has_key k q || same_text x.spec.coalesce_key k)
unfolding has_key
snoc-has_key k [] x = ground arith
snoc-has_key k (w ∷ ws) x = ground (arith, snoc-has_key k ws x)

snoc-KeysDistinct :
    (q : List Waiting) (x : Waiting)
    → (not (is_empty x.spec.coalesce_key) && has_key x.spec.coalesce_key q) ≡ false
    → KeysDistinct q
    → KeysDistinct (q ++ x ∷ [])
unfolding has_key
snoc-KeysDistinct [] x h v = (inr refl, tt)
snoc-KeysDistinct (w ∷ ws) x h v = ground (
  arith,
  snoc-has_key w.spec.coalesce_key ws x,
  snoc-KeysDistinct ws x,
  same_text_iff w.spec.coalesce_key x.spec.coalesce_key,
  same_text_iff x.spec.coalesce_key w.spec.coalesce_key,
)

module _ {S : Type 0} (send_ : S → RequestSpec → Result String × S) where
  -- A record, so that a history keeps it as one statement.
  pub record OnePerKey (d : Dispatcher S) : Type 0 where
    pub distinct : KeysDistinct d.queue

  OnePerKey-Kept : Kept send_ (λ _. Unit {0}) OnePerKey
  unfolding refill expire_queue expire_pending coalesce enqueue warn answer reject accept fail_all
  OnePerKey-Kept = record {
    on_refill = λ now d v. ground arith;
    on_expire_queue = λ now d v. record {
      distinct = sweep_queue-KeysDistinct now d.queue d.trace d.metrics.timeouts v.distinct;
    };
    on_expire_pending = λ now d v. record { distinct = v.distinct };
    on_round = λ d w ws e _ _ v. record {
      distinct = rw send_next-queue (take_next-KeysDistinct w ws (rw e at v.distinct));
    };
    on_defer = λ d v. record { distinct = v.distinct };
    on_flag = λ d b v. record { distinct = v.distinct };
    on_coalesce = λ spec g deadline d e v. record {
      distinct = merge_into-KeysDistinct d.queue spec g deadline v.distinct;
    };
    on_enqueue =
        λ spec g deadline d e v. record { distinct = snoc-KeysDistinct d.queue _ e v.distinct };
    on_warn = λ reason type d v. ground arith;
    on_answer = λ id type p message d found v. ground arith;
    on_fail_all = λ error d v. record { distinct = tt };
    on_budget = λ b d a v. record { distinct = v.distinct };
    on_timeout = λ t d v. record { distinct = v.distinct };
    on_warning = λ b d v. record { distinct = v.distinct };
    on_enabled = λ b d v. record { distinct = v.distinct };
  }

  -- After any history of calls on a new dispatcher no two waiting requests have the same coalescing
  -- key, the empty key apart.
  pub run-KeysDistinct :
      (cs : List Call) (s : S) (budget : RateBudget) (timeout : ℕ)
      → KeysDistinct (run send_ cs (init s budget timeout)).queue
  run-KeysDistinct cs s budget timeout =
      (run_inv send_ _ _ OnePerKey-Kept cs (init s budget timeout) (Allows-any cs)
        (record { distinct = tt })).distinct
