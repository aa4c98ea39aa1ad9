-- ===== src/Dispatcher/Rules.antt =====
-- What every round of the sending loop keeps, `drain` keeps.
use fountainer_client_framew.Common.{
  ℕ, zero, suc, ◌≤◌, ◌<◌, ◌≡◌, Bool, true, false, not, ◌||◌, String, List, ◌∷◌, length, ltb, ltb→lt,
  ltb→ge, Bool-cases, List-cases, inl, inr,
}
use fountainer_client_framew.Error.{Result}
use fountainer_client_framew.Dispatcher.{send_next, drain_loop, drain, defer}
use fountainer_client_framew.Dispatcher.Types.{RequestSpec, Waiting, Dispatcher, token_unit}

module _ {ℓ} {S : Type 0} (send_ : S → RequestSpec → Result String × S) (P : Dispatcher S → Type ℓ)
    (round : (d : Dispatcher S) (w : Waiting) (ws : List Waiting)
      → d.queue ≡ w ∷ ws
      → token_unit ≤ d.tokens
      → length d.pending < d.budget.max_in_flight
      → P d
      → P (send_next send_ w ws d))
    (deferred : (d : Dispatcher S) → P d → P (defer d)) where
  pub drain_loop_inv : (fuel : ℕ) (d : Dispatcher S) → P d → P (drain_loop send_ fuel d)
  unfolding drain_loop
  drain_loop_inv zero d h = h
  drain_loop_inv (suc fuel) d h = elim (List-cases d.queue) [
    | inl e ↦ rw (e, drain_loop) h
    | inr (w, ws, e) ↦ elim (Bool-cases (ltb (length d.pending) d.budget.max_in_flight)) [
      | inr full ↦ rw (e, drain_loop, full) h
      | inl room ↦ elim (Bool-cases (ltb d.tokens token_unit)) [
        | inl poor ↦ rw (e, drain_loop, room, poor) (deferred d h)
        | inr rich ↦
            rw (e, drain_loop, room, rich)
              (drain_loop_inv fuel (send_next send_ w ws d)
                (round d w ws e (ltb→ge _ _ rich) (ltb→lt _ _ room) h))
      ]
    ]
  ]

  pub drain_inv :
      ((d : Dispatcher S) (b : Bool) → P d → P (record d { draining = b }))
      → (d : Dispatcher S) → P d
      → P (drain send_ d)
  unfolding drain
  drain_inv flag d h = elim (Bool-cases (not d.sending_enabled || d.draining)) [
    | inl closed ↦ rw closed h
    | inr open' ↦ rw open' (flag _ false (drain_loop_inv (length d.queue) _ (flag d true h)))
  ]
