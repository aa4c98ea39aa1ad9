-- ===== src/Dispatcher/History.antt =====
-- An invariant of the dispatcher's parts is an invariant of every history of calls.
use fountainer_client_framew.Common.{
  ℕ, ◌≤◌, ◌<◌, ◌≡◌, inl, inr, Bool, true, false, not, ◌&&◌, Option, some, String, List, [], ◌∷◌,
  arith, length, is_empty, Bool-cases, Option-cases,
}
use fountainer_client_framew.Error.{Error, Result}
use fountainer_client_framew.Json.{Json}
use fountainer_client_framew.Dispatcher.{
  refill, defer, count_submitted, expire_queue, expire_pending, coalesce, enqueue, warn, answer,
  on_message, fail_all, send_next, tick, submit,
}
use fountainer_client_framew.Dispatcher.Store.{get}
use fountainer_client_framew.Dispatcher.Types.{
  RequestSpec, RateBudget, Waiting, Pending, Dispatcher, token_unit,
}
use fountainer_client_framew.Dispatcher.Queue.{has_key}
use fountainer_client_framew.Dispatcher.Inversion.{
  spontaneous, straggler, answered, on_message-Outcome,
}
use fountainer_client_framew.Dispatcher.Rules.{drain_inv}
use fountainer_client_framew.Dispatcher.Run.{
  Call, submits, ticks, receives, fails, budgets, timeouts, warns, enables, received, step, run,
}

-- `P` is kept by every part of every method. A new budget may be one of `allowed` only.
pub record Kept {ℓ} {S : Type 0} (send_ : S → RequestSpec → Result String × S)
    (allowed : RateBudget → Type 0) (P : Dispatcher S → Type ℓ) : Type ℓ where
  pub on_refill : (now : ℕ) (d : Dispatcher S) → P d → P (refill now d)
  pub on_expire_queue : (now : ℕ) (d : Dispatcher S) → P d → P (expire_queue now d)
  pub on_expire_pending : (now : ℕ) (d : Dispatcher S) → P d → P (expire_pending now d)
  pub on_round :
      (d : Dispatcher S) (w : Waiting) (ws : List Waiting)
      → d.queue ≡ w ∷ ws
      → token_unit ≤ d.tokens
      → length d.pending < d.budget.max_in_flight
      → P d
      → P (send_next send_ w ws d)
  pub on_defer : (d : Dispatcher S) → P d → P (defer d)
  pub on_flag : (d : Dispatcher S) (b : Bool) → P d → P (record d { draining = b })
  pub on_coalesce :
      (spec : RequestSpec) (g : Option ℕ) (deadline : ℕ) (d : Dispatcher S)
      → has_key spec.coalesce_key d.queue ≡ true
      → P d
      → P (coalesce spec g deadline (count_submitted d))
  pub on_enqueue :
      (spec : RequestSpec) (g : Option ℕ) (deadline : ℕ) (d : Dispatcher S)
      → (not (is_empty spec.coalesce_key) && has_key spec.coalesce_key d.queue) ≡ false
      → P d
      → P (enqueue spec g deadline (count_submitted d))
  pub on_warn : (reason type : String) (d : Dispatcher S) → P d → P (warn reason type d)
  pub on_answer :
      (id type : String) (p : Pending) (message : Json) (d : Dispatcher S)
      → get id d.pending ≡ some p
      → P d
      → P (answer id p type message d)
  pub on_fail_all : (error : Error) (d : Dispatcher S) → P d → P (fail_all error d)
  pub on_budget :
      (b : RateBudget) (d : Dispatcher S) → allowed b → P d → P (record d { budget = b })
  pub on_timeout : (t : ℕ) (d : Dispatcher S) → P d → P (record d { default_timeout = t })
  pub on_warning : (b : Bool) (d : Dispatcher S) → P d → P (record d { warning = b })
  pub on_enabled : (b : Bool) (d : Dispatcher S) → P d → P (record d { sending_enabled = b })

abbrev pub AllowsCall : (RateBudget → Type 0) → Call → Type 0
AllowsCall allowed (budgets b) = allowed b
AllowsCall allowed _ = Unit {0}

-- Every budget that the history sets is allowed.
abbrev pub Allows : (RateBudget → Type 0) → List Call → Type 0
Allows allowed [] = Unit {0}
Allows allowed (c ∷ cs) = AllowsCall allowed c × Allows allowed cs

module _ {ℓ} {S : Type 0} (send_ : S → RequestSpec → Result String × S)
    (allowed : RateBudget → Type 0) (P : Dispatcher S → Type ℓ) (k : Kept send_ allowed P) where
  tick_inv : (now : ℕ) (d : Dispatcher S) → P d → P (tick send_ now d)
  unfolding tick
  tick_inv now d h =
      drain_inv send_ P k.on_round k.on_defer k.on_flag _
        (k.on_expire_pending now _ (k.on_expire_queue now _ (k.on_refill now d h)))

  submit_inv :
      (spec : RequestSpec) (g : Option ℕ) (now : ℕ) (d : Dispatcher S)
      → P d
      → P (submit send_ spec g now d)
  unfolding submit
  submit_inv spec g now d h =
      elim (Bool-cases (not (is_empty spec.coalesce_key) && has_key spec.coalesce_key d.queue)) [
        | inl e ↦ rw e (k.on_coalesce spec g _ d (ground arith) h)
        | inr e ↦ rw e (tick_inv now _ (k.on_enqueue spec g _ d e h))
      ]

  received_inv : (message : Json) (d : Dispatcher S) → P d → P (received d (on_message message d))
  received_inv message d h = elim (Option-cases (on_message message d)) [
    | inl e ↦ rw e h
    | inr (r, e) ↦ rw e (elim (on_message-Outcome message d r.1 r.0 e) [
      | spontaneous _ same ↦ rw same h
      | straggler id reason type _ _ _ same ↦ rw same (k.on_warn reason type d h)
      | answered id type p _ _ _ found same ↦ rw same (k.on_answer id type p message d found h)
    ])
  ]

  pub step_inv : (c : Call) (d : Dispatcher S) → AllowsCall allowed c → P d → P (step send_ c d)
  unfolding step
  step_inv (submits spec g now) d a h = submit_inv spec g now d h
  step_inv (ticks now) d a h = tick_inv now d h
  step_inv (receives message) d a h = received_inv message d h
  step_inv (fails error) d a h = k.on_fail_all error d h
  step_inv (budgets b) d a h = k.on_budget b d a h
  step_inv (timeouts t) d a h = k.on_timeout t d h
  step_inv (warns b) d a h = k.on_warning b d h
  step_inv (enables b) d a h = k.on_enabled b d h

  pub run_inv : (cs : List Call) (d : Dispatcher S) → Allows allowed cs → P d → P (run send_ cs d)
  unfolding run
  run_inv [] d a h = h
  run_inv (c ∷ cs) d a h = run_inv cs (step send_ c d) a.1 (step_inv c d a.0 h)

pub Allows-any : (cs : List Call) → Allows (λ _. Unit {0}) cs
Allows-any [] = tt
Allows-any (submits _ _ _ ∷ cs) = (tt, Allows-any cs)
Allows-any (_ ∷ cs) = (tt, Allows-any cs)
