-- ===== src/Dispatcher/Rate/Span.antt =====
-- The rate bound over every history of calls that leaves the budget alone.
use fountainer_client_framew.Common.{ℕ, ◌+◌, ◌*◌, ◌≤◌, ◌≡◌, refl, true, String, List, arith}
use fountainer_client_framew.Error.{Result}
use fountainer_client_framew.Dispatcher.{
  expire_queue, expire_pending, coalesce, enqueue, warn, answer, reject, accept, fail_all,
}
use fountainer_client_framew.Dispatcher.Types.{RequestSpec, Dispatcher, token_unit}
use fountainer_client_framew.Dispatcher.Run.{Call, run}
use fountainer_client_framew.Dispatcher.History.{Kept, Allows, run_inv}
use fountainer_client_framew.Dispatcher.Rate.{
  frames, frames-complete, frames-sweep_queue, frames-sweep_pending, frames-fail_pending,
  frames-fail_queue, Metered, refill-Metered, send_next-Metered,
}

module _ {S : Type 0} (send_ : S → RequestSpec → Result String × S) (rate burst t0 base : ℕ) where
  Metered-Kept : Kept send_ (λ _. ⊥) (λ (d : Dispatcher S). Metered rate burst t0 base d)
  unfolding expire_queue expire_pending coalesce enqueue warn answer reject accept fail_all frames
  Metered-Kept = record {
    on_refill = refill-Metered send_ rate burst t0 base;
    on_expire_queue =
        λ now d v. ground (arith, frames-sweep_queue now d.queue d.trace d.metrics.timeouts);
    on_expire_pending =
        λ now d v. ground (arith, frames-sweep_pending now d.pending d.trace d.metrics.timeouts);
    on_round = λ d w ws _ rich _ v. send_next-Metered send_ rate burst t0 base d w ws rich v;
    on_defer = λ d v. ground arith;
    on_flag = λ d b v. ground arith;
    on_coalesce = λ spec g deadline d e v. ground arith;
    on_enqueue = λ spec g deadline d e v. ground arith;
    on_warn = λ reason type d v. ground arith;
    on_answer = λ id type p message d found v. grind (arith, frames-complete);
    on_fail_all = λ error d v. grind (arith, frames-fail_pending, frames-fail_queue);
    on_budget = λ b d a v. absurd a;
    on_timeout = λ t d v. ground arith;
    on_warning = λ b d v. ground arith;
    on_enabled = λ b d v. ground arith;
  }

-- From a dispatcher that has refilled before and holds at most `burst` tokens, over any history that
-- sets no other budget: the frames sent cost no more than the tokens held at the start and those that
-- the rate earns between the first and the last refill, and the tokens stay within `burst`.
pub frames-run :
    {S : Type 0} (send_ : S → RequestSpec → Result String × S) (cs : List Call) (d : Dispatcher S)
    → d.refill_initialised ≡ true
    → d.tokens ≤ d.budget.burst
    → Allows (λ _. ⊥) cs
    → let d' = run send_ cs d in
      (token_unit * frames d'.trace + d.budget.requests_per_second * d.last_refill
        ≤ d.tokens + token_unit * frames d.trace + d.budget.requests_per_second * d'.last_refill)
      × (d'.tokens ≤ d.budget.burst)
frames-run send_ cs d started capped k =
    let rate = d.budget.requests_per_second in
    let base = d.tokens + token_unit * frames d.trace in
    let v : Metered rate d.budget.burst d.last_refill base d = record {
      rate_kept = refl;
      burst_kept = refl;
      started = started;
      capped = capped;
      earned = omega arith;
    } in
    let w =
      run_inv send_ (λ _. ⊥) (λ e. Metered rate d.budget.burst d.last_refill base e)
        (Metered-Kept send_ rate d.budget.burst d.last_refill base) cs d k v in
    (omega (arith, w.earned), w.capped)
