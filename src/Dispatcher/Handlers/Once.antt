-- ===== src/Dispatcher/Handlers/Once.antt =====
-- Over any history every handler is called as often as it was submitted, once it is owed nothing.
use fountainer_client_framew.Common.{
  ℕ, ◌+◌, ◌≡◌, ◌∙◌, String, List, [], ◌∷◌, arith, Option-cases, inl, inr,
}
use fountainer_client_framew.Error.{Error, Result}
use fountainer_client_framew.Json.{Json}
use fountainer_client_framew.Dispatcher.{on_message, fail_all}
use fountainer_client_framew.Dispatcher.Types.{RequestSpec, RateBudget, Dispatcher}
use fountainer_client_framew.Dispatcher.Counts.{
  is_handler, count_waiting, count_pending, calls, outstanding, account,
}
use fountainer_client_framew.Dispatcher.Sender.{FreshIds}
use fountainer_client_framew.Dispatcher.Run.{
  init, Call, submits, ticks, receives, fails, step, run, received,
}
use fountainer_client_framew.Dispatcher.Handlers.Steps.{
  Holds, tick-Holds, submit-Holds, on_message-Holds, fail_all-Holds,
}

-- How often a call submits the handler.
abbrev pub owed : ℕ → Call → ℕ
owed h (submits spec g now) = is_handler h g
owed h _ = 0

-- How often a history submits the handler.
unfoldable pub submissions : ℕ → List Call → ℕ
submissions h [] = 0
submissions h (c ∷ cs) = owed h c + submissions h cs

pub outstanding-fail_all :
    {S : Type 0} (h : ℕ) (error : Error) (d : Dispatcher S) → outstanding h (fail_all error d) ≡ 0
unfolding outstanding fail_all count_waiting count_pending
outstanding-fail_all h error d = omega arith

module _ {S : Type 0} (send_ : S → RequestSpec → Result String × S) (ids : FreshIds send_) where
  pub Holds-eq :
      (h n m : ℕ) (d : Dispatcher S) → n ≡ m → Holds send_ ids h n d → Holds send_ ids h m d
  Holds-eq h n m d e v = record { balanced = v.balanced ∙ e; covered = v.covered }

  received-Holds :
      (h n : ℕ) (message : Json) (d : Dispatcher S)
      → Holds send_ ids h n d
      → Holds send_ ids h n (received d (on_message message d))
  received-Holds h n message d v = elim (Option-cases (on_message message d)) [
    | inl e ↦ rw e v
    | inr (r, e) ↦ rw e (on_message-Holds send_ ids h n message d r.1 r.0 e v)
  ]

  pub step-Holds :
      (h n : ℕ) (c : Call) (d : Dispatcher S)
      → Holds send_ ids h n d
      → Holds send_ ids h (owed h c + n) (step send_ c d)
  unfolding step account
  step-Holds h n (submits spec g now) d v = submit-Holds send_ ids h n now spec g d v
  step-Holds h n (ticks now) d v = Holds-eq h n _ _ (omega arith) (tick-Holds send_ ids h n now d v)
  step-Holds h n (receives message) d v =
      Holds-eq h n _ _ (omega arith) (received-Holds h n message d v)
  step-Holds h n (fails e) d v = Holds-eq h n _ _ (omega arith) (fail_all-Holds send_ ids h n e d v)
  step-Holds h n _ d v = record { balanced = omega (arith, v.balanced); covered = v.covered }

  run-Holds :
      (h n : ℕ) (cs : List Call) (d : Dispatcher S)
      → Holds send_ ids h n d
      → Holds send_ ids h (submissions h cs + n) (run send_ cs d)
  unfolding run submissions
  run-Holds h n [] d v = Holds-eq h n _ _ (omega arith) v
  run-Holds h n (c ∷ cs) d v =
      Holds-eq h (submissions h cs + (owed h c + n)) _ _ (omega arith)
        (run-Holds h (owed h c + n) cs (step send_ c d) (step-Holds h n c d v))

  pub init-Holds :
      (h : ℕ) (s : S) (budget : RateBudget) (timeout : ℕ)
      → Holds send_ ids h 0 (init s budget timeout)
  unfolding account count_waiting count_pending calls
  init-Holds h s budget timeout = record { balanced = omega arith; covered = tt }

  -- Where `send_` hands out fresh ids, then after any history of calls on a new dispatcher a handler
  -- has been called as often as it was submitted, less the calls that it is still owed; and a
  -- disconnect then calls it for all that it is owed, so that the two numbers are equal.
  pub calls-run :
      (h : ℕ) (s : S) (budget : RateBudget) (timeout : ℕ) (cs : List Call) (error : Error)
      → let d = run send_ cs (init s budget timeout) in
        (outstanding h d + calls h d.trace ≡ submissions h cs)
        × (calls h (fail_all error d).trace ≡ submissions h cs)
  unfolding outstanding account
  calls-run h s budget timeout cs error =
      let v = run-Holds h 0 cs (init s budget timeout) (init-Holds h s budget timeout) in
      let w = fail_all-Holds send_ ids h (submissions h cs + 0) error _ v in
      (
        omega (arith, v.balanced),
        omega (
          arith,
          w.balanced,
          outstanding-fail_all h error (run send_ cs (init s budget timeout)),
        ),
      )
