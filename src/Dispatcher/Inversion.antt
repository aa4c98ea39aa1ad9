-- ===== src/Dispatcher/Inversion.antt =====
-- The three ways in which `on_message` returns.
use fountainer_client_framew.Common.{
  ◌≡◌, Bool, true, false, none, some, String, arith, Bool-cases, Option-cases, inl, inr, is_empty,
}
use fountainer_client_framew.Json.{Json, value_text}
use fountainer_client_framew.Dispatcher.{warn, answer, correlate, on_message}
use fountainer_client_framew.Dispatcher.Store.{get}
use fountainer_client_framew.Dispatcher.Types.{Pending, Dispatcher}

module _ {S : Type 0} (message : Json) (d : Dispatcher S) where
  -- No correlation, an unknown id, or the answer to an open request.
  pub data Outcome (d' : Dispatcher S) : Bool → Type 0 where
    spontaneous : {b : Bool} → b ≡ false → d' ≡ d → Outcome d' b
    straggler :
        {b : Bool}
        → (id reason type : String) → b ≡ true
        → value_text message "in_reply_to" ≡ some id
        → get id d.pending ≡ none
        → d' ≡ warn reason type d
        → Outcome d' b
    answered :
        {b : Bool}
        → (id type : String) (p : Pending) → b ≡ true
        → value_text message "in_reply_to" ≡ some id
        → value_text message "type" ≡ some type
        → get id d.pending ≡ some p
        → d' ≡ answer id p type message d
        → Outcome d' b

  correlate-Outcome :
      (id : String) (d' : Dispatcher S) (b : Bool)
      → value_text message "in_reply_to" ≡ some id
      → correlate id message d ≡ some (b, d')
      → Outcome d' b
  unfolding correlate warn
  correlate-Outcome id d' b ei e = elim (Option-cases (get id d.pending)) [
    | inl g ↦ elim (Bool-cases d.warning) [
      | inr off ↦ straggler id "" "" (ground arith) ei g (ground arith)
      | inl on ↦ elim (Option-cases (value_text message "type")) [
        | inl none' ↦ absurd (ground arith)
        | inr (type, t) ↦
            straggler id "response for an unknown or expired request" type (ground arith) ei g
              (ground arith)
      ]
    ]
    | inr (p, g) ↦ elim (Option-cases (value_text message "type")) [
      | inl none' ↦ absurd (ground arith)
      | inr (type, t) ↦ answered id type p (ground arith) ei t g (ground arith)
    ]
  ]

  pub on_message-Outcome :
      (d' : Dispatcher S) (b : Bool) → on_message message d ≡ some (b, d') → Outcome d' b
  unfolding on_message
  on_message-Outcome d' b e = elim (Option-cases (value_text message "in_reply_to")) [
    | inl none' ↦ absurd (ground arith)
    | inr (id, t) ↦ elim (Bool-cases (is_empty id)) [
      | inl blank ↦ spontaneous (ground arith) (ground arith)
      | inr full ↦ correlate-Outcome id d' b t (ground arith)
    ]
  ]
