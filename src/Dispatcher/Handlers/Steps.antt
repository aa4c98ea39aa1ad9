-- ===== src/Dispatcher/Handlers/Steps.antt =====
-- Every operation of the dispatcher keeps the account of each handler.
use fountainer_client_framew.Common.{
  ℕ, ◌+◌, ◌≡◌, refl, ◌∙◌, Bool, true, not, Option, some, String, List, ◌∷◌, arith, Bool-cases, inl,
  inr, is_empty, ◌&&◌,
}
use fountainer_client_framew.Error.{Error, Result, ok, err}
use fountainer_client_framew.Json.{Json}
use fountainer_client_framew.Messages.{find_meta}
use fountainer_client_framew.Dispatcher.{
  refill, after_send, expire_queue, expire_pending, coalesce, enqueue, warn, answer, on_message,
  fail_all, send_next, drain, tick, submit, mismatched, reject, accept,
}
use fountainer_client_framew.Dispatcher.Store.{get, erase}
use fountainer_client_framew.Dispatcher.Types.{RequestSpec, Waiting, Pending, sent, Dispatcher}
use fountainer_client_framew.Dispatcher.Queue.{take_next, has_key}
use fountainer_client_framew.Dispatcher.Counts.{
  is_handler, count_handlers, count_waiting, count_pending, calls, account,
}
use fountainer_client_framew.Dispatcher.Sender.{
  FreshIds, AllKeys, get_none, emplace-AllKeys, erase-AllKeys, sweep_pending-AllKeys,
  AllKeys-weaken,
}
use fountainer_client_framew.Dispatcher.Inversion.{
  spontaneous, straggler, answered, on_message-Outcome,
}
use fountainer_client_framew.Dispatcher.Rules.{drain_inv}
use fountainer_client_framew.Dispatcher.Handlers.Loops.{
  calls-complete, sweep_queue-calls, sweep_pending-calls, take_next-count, count_waiting-append,
  merge_into-count, emplace-count, erase-count, fail_pending-calls, fail_queue-calls,
}

module _ {S : Type 0} (send_ : S → RequestSpec → Result String × S) (ids : FreshIds send_) where
  open ids use {issued, fresh, records, keeps}

  -- Every open request has an id that `send_` handed out.
  abbrev pub Covered : Dispatcher S → Type 0
  Covered d = AllKeys (issued d.sender) d.pending

  -- The account of `h` is `n`, and the open requests are covered.
  pub record Holds (h n : ℕ) (d : Dispatcher S) : Type 0 where
    pub balanced : account h d ≡ n
    pub covered : Covered d

  after_send-Holds :
      (h n : ℕ) (w : Waiting) (s : S) (r : Result String) (d : Dispatcher S)
      → (send_ s w.spec).0 ≡ r
      → d.sender ≡ (send_ s w.spec).1
      → AllKeys (issued s) d.pending
      → count_handlers h w.handlers
          + count_waiting h d.queue
          + count_pending h d.pending
          + calls h d.trace
        ≡ n
      → Holds h n (after_send w r d)
  unfolding after_send account calls
  after_send-Holds h n w s (err e) d eq same a b = record {
    balanced =
        omega (arith, b, calls-complete h w.handlers (err e) (sent w.spec (err e) ∷ d.trace));
    covered =
        rw same
          (AllKeys-weaken (issued s) (issued (send_ s w.spec).1) d.pending (keeps s w.spec) a);
  }
  after_send-Holds h n w s (ok id) d eq same a b = record {
    balanced = omega (
      arith,
      b,
      emplace-count h id
          (record { type = w.spec.type; handlers = w.handlers; deadline = w.deadline }) d.pending
          (get_none (issued s) id d.pending a (fresh s w.spec id eq)),
    );
    covered = rw same (
        emplace-AllKeys (issued (send_ s w.spec).1) id _ d.pending
          (AllKeys-weaken (issued s) (issued (send_ s w.spec).1) d.pending (keeps s w.spec) a)
          (records s w.spec id eq));
  }

  send_next-Holds :
      (h n : ℕ) (d : Dispatcher S) (w : Waiting) (ws : List Waiting)
      → d.queue ≡ w ∷ ws
      → Holds h n d
      → Holds h n (send_next send_ w ws d)
  unfolding send_next account count_waiting
  send_next-Holds h n d w ws e v =
      after_send-Holds h n (take_next w ws).0 d.sender (send_ d.sender (take_next w ws).0.spec).0 _
        refl refl v.covered (let b = rw e at v.balanced in omega (arith, b, take_next-count h w ws))

  drain-Holds : (h n : ℕ) (d : Dispatcher S) → Holds h n d → Holds h n (drain send_ d)
  unfolding account
  drain-Holds h n =
      drain_inv send_ (Holds h n) (λ d w ws e _ _ v. send_next-Holds h n d w ws e v)
        (λ d v. record { balanced = v.balanced; covered = v.covered })
        (λ d b v. record { balanced = v.balanced; covered = v.covered })

  refill-Holds : (h n now : ℕ) (d : Dispatcher S) → Holds h n d → Holds h n (refill now d)
  unfolding refill account
  refill-Holds h n now d v = ground arith

  expire_queue-Holds :
      (h n now : ℕ) (d : Dispatcher S) → Holds h n d → Holds h n (expire_queue now d)
  unfolding expire_queue account
  expire_queue-Holds h n now d v = record {
    balanced =
        omega (arith, v.balanced, sweep_queue-calls h now d.queue d.trace d.metrics.timeouts);
    covered = v.covered;
  }

  expire_pending-Holds :
      (h n now : ℕ) (d : Dispatcher S) → Holds h n d → Holds h n (expire_pending now d)
  unfolding expire_pending account
  expire_pending-Holds h n now d v = record {
    balanced =
        omega (arith, v.balanced, sweep_pending-calls h now d.pending d.trace d.metrics.timeouts);
    covered =
        sweep_pending-AllKeys (issued d.sender) now d.pending d.trace d.metrics.timeouts v.covered;
  }

  pub tick-Holds : (h n now : ℕ) (d : Dispatcher S) → Holds h n d → Holds h n (tick send_ now d)
  unfolding tick
  tick-Holds h n now d v =
      drain-Holds h n _
        (expire_pending-Holds h n now _ (expire_queue-Holds h n now _ (refill-Holds h n now d v)))

  enqueue-Holds :
      (h n : ℕ) (spec : RequestSpec) (g : Option ℕ) (deadline : ℕ) (d : Dispatcher S)
      → Holds h n d
      → Holds h (is_handler h g + n) (enqueue spec g deadline d)
  unfolding enqueue account count_waiting count_handlers
  enqueue-Holds h n spec g deadline d v = record {
    balanced = rw count_waiting-append (omega (arith, v.balanced));
    covered = v.covered;
  }

  coalesce-Holds :
      (h n : ℕ) (spec : RequestSpec) (g : Option ℕ) (deadline : ℕ) (d : Dispatcher S)
      → has_key spec.coalesce_key d.queue ≡ true
      → Holds h n d
      → Holds h (is_handler h g + n) (coalesce spec g deadline d)
  unfolding coalesce account
  coalesce-Holds h n spec g deadline d e v = record {
    balanced = omega (arith, v.balanced, merge_into-count h d.queue spec g deadline e);
    covered = v.covered;
  }

  pub submit-Holds :
      (h n now : ℕ) (spec : RequestSpec) (g : Option ℕ) (d : Dispatcher S)
      → Holds h n d
      → Holds h (is_handler h g + n) (submit send_ spec g now d)
  unfolding submit account
  submit-Holds h n now spec g d v =
      elim (Bool-cases (not (is_empty spec.coalesce_key) && has_key spec.coalesce_key d.queue)) [
        | inl e ↦ rw e (
            coalesce-Holds h n spec g _ _ (ground arith)
              (record { balanced = v.balanced; covered = v.covered }))
        | inr e ↦ rw e (
            tick-Holds h _ now _ (
              enqueue-Holds h n spec g _ _ (record { balanced = v.balanced; covered = v.covered })))
      ]

  warn-Holds :
      (h n : ℕ) (reason type : String) (d : Dispatcher S)
      → Holds h n d
      → Holds h n (warn reason type d)
  unfolding warn account calls
  warn-Holds h n reason type d v = ground arith

  erase-Holds :
      (h n : ℕ) (id : String) (p : Pending) (d : Dispatcher S)
      → get id d.pending ≡ some p
      → Holds h n d
      → (count_handlers h p.handlers + account h (record d { pending = erase id d.pending }) ≡ n)
        × Covered (record d { pending = erase id d.pending })
  unfolding account
  erase-Holds h n id p d e v = (
    omega (arith, v.balanced, erase-count h id p d.pending e),
    erase-AllKeys (issued d.sender) id d.pending v.covered,
  )

  reject-account :
      (h : ℕ) (p : Pending) (type : String) (d : Dispatcher S)
      → (account h (reject p type d) ≡ count_handlers h p.handlers + account h d)
        × ((reject p type d).sender ≡ d.sender)
        × ((reject p type d).pending ≡ d.pending)
  unfolding reject account calls
  reject-account h p type d = elim (Bool-cases d.warning) [
    | inl on ↦ rw on (rw calls-complete (omega arith), refl, refl)
    | inr off ↦ rw off (rw calls-complete (omega arith), refl, refl)
  ]

  accept-account :
      (h : ℕ) (p : Pending) (message : Json) (d : Dispatcher S)
      → account h (accept p message d) ≡ count_handlers h p.handlers + account h d
  unfolding accept account
  accept-account h p message d = omega (arith, calls-complete h p.handlers (ok message) d.trace)

  answer-Holds :
      (h n : ℕ) (id : String) (p : Pending) (type : String) (message : Json) (d : Dispatcher S)
      → get id d.pending ≡ some p
      → Holds h n d
      → Holds h n (answer id p type message d)
  unfolding answer
  answer-Holds h n id p type message d e v =
      let d' = record d { pending = erase id d.pending } in
      let (b, c) = erase-Holds h n id p d e v in
      elim (Bool-cases (mismatched (find_meta p.type) type)) [
        | inl bad ↦
            let (a, s, q) = reject-account h p type d' in
            rw bad (record { balanced = a ∙ b; covered = rw (s, q) c })
        | inr good ↦
            rw good (record {
              balanced = accept-account h p message d' ∙ b;
              covered = unfold accept in c;
            })
      ]

  pub on_message-Holds :
      (h n : ℕ) (message : Json) (d d' : Dispatcher S) (b : Bool)
      → on_message message d ≡ some (b, d')
      → Holds h n d
      → Holds h n d'
  on_message-Holds h n message d d' b e v = elim (on_message-Outcome message d d' b e) [
    | spontaneous _ same ↦ rw same v
    | straggler id reason type _ _ _ same ↦ rw same (warn-Holds h n reason type d v)
    | answered id type p _ _ _ found same ↦ rw same (answer-Holds h n id p type message d found v)
  ]

  pub fail_all-Holds :
      (h n : ℕ) (error : Error) (d : Dispatcher S) → Holds h n d → Holds h n (fail_all error d)
  unfolding fail_all account count_waiting count_pending
  fail_all-Holds h n error d v = record {
    balanced = omega (
      arith,
      v.balanced,
      fail_pending-calls h d.pending (err error) d.trace,
      fail_queue-calls h d.queue (err error) _,
    );
    covered = tt;
  }
