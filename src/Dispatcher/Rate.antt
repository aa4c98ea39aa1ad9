-- ===== src/Dispatcher/Rate.antt =====
-- The rate budget: how many frames leave in a span of time, and how many requests are open.
pub mod Span
use fountainer_client_framew.Common.{
  ℕ, ◌+◌, ◌-◌, ◌*◌, ◌≤◌, ◌<◌, ◌≡◌, refl, Bool, true, false, String, List, [], ◌∷◌, arith, length,
  ltb, Bool-cases, inl, inr, Option, none, some, ltb→lt, not, ◌&&◌, ◌||◌, is_empty, same_text, min,
}
use fountainer_client_framew.Error.{Error, Result, ok, err}
use fountainer_client_framew.Json.{Json}
use fountainer_client_framew.Dispatcher.{
  refill, after_send, expire_queue, expire_pending, send_next, drain, tick, coalesce, enqueue,
  submit, warn, answer, on_message, fail_all,
}
use fountainer_client_framew.Dispatcher.Store.{Map, emplace, erase}
use fountainer_client_framew.Dispatcher.Types.{
  RequestSpec, Waiting, Pending, Event, called, sent, warned, Dispatcher, token_unit, incr,
}
use fountainer_client_framew.Dispatcher.Queue.{
  invoke, complete, sweep_queue, sweep_pending, take_next, has_key, fail_pending, fail_queue,
}
use fountainer_client_framew.Dispatcher.Rules.{drain_inv}

-- The frames that `send_` accepted.
abbrev pub is_frame : Event → ℕ
is_frame (called h r) = 0
is_frame (sent spec (ok id)) = 1
is_frame (sent spec (err e)) = 0
is_frame (warned reason type) = 0

unfoldable pub frames : List Event → ℕ
frames [] = 0
frames (e ∷ es) = is_frame e + frames es

pub frames-complete :
    (hs : List (Option ℕ)) (r : Result Json) (t : List Event) → frames (complete hs r t) ≡ frames t
unfolding complete frames
frames-complete [] r t = refl
frames-complete (none ∷ hs) r t = frames-complete hs r t
frames-complete (some g ∷ hs) r t = omega (arith, frames-complete hs r (called g r ∷ t))

pub frames-sweep_queue :
    (now : ℕ) (q : List Waiting) (t : List Event) (n : ℕ)
    → frames (sweep_queue now q t n).trace ≡ frames t
unfolding sweep_queue
frames-sweep_queue now [] t n = refl
frames-sweep_queue now (w ∷ ws) t n = grind (arith, frames-sweep_queue now ws, frames-complete)

pub frames-sweep_pending :
    (now : ℕ) (q : Map Pending) (t : List Event) (n : ℕ)
    → frames (sweep_pending now q t n).trace ≡ frames t
unfolding sweep_pending
frames-sweep_pending now [] t n = refl
frames-sweep_pending now ((id, p) ∷ ps) t n =
    grind (arith, frames-sweep_pending now ps, frames-complete)

pub frames-fail_pending :
    (ps : Map Pending) (r : Result Json) (t : List Event) → frames (fail_pending ps r t) ≡ frames t
unfolding fail_pending
frames-fail_pending [] r t = refl
frames-fail_pending ((id, p) ∷ ps) r t =
    omega
      (arith, frames-fail_pending ps r (complete p.handlers r t), frames-complete p.handlers r t)

pub frames-fail_queue :
    (q : List Waiting) (r : Result Json) (t : List Event) → frames (fail_queue q r t) ≡ frames t
unfolding fail_queue
frames-fail_queue [] r t = refl
frames-fail_queue (w ∷ ws) r t =
    omega (arith, frames-fail_queue ws r (complete w.handlers r t), frames-complete w.handlers r t)

pub ruleset frame_counts = (
  frames-complete, frames-sweep_queue, frames-sweep_pending, frames-fail_pending, frames-fail_queue,
)

refill_product : (last now rate : ℕ) → last < now → (now - last) * rate + rate * last ≡ rate * now
refill_product last now rate h = grind arith

-- Since the time `t0` of an earlier refill the tokens and the frames have grown by what time earns.
pub record Metered (rate burst t0 base : ℕ) {S : Type 0} (d : Dispatcher S) : Type 0 where
  pub rate_kept : d.budget.requests_per_second ≡ rate
  pub burst_kept : d.budget.burst ≡ burst
  pub started : d.refill_initialised ≡ true
  pub capped : d.tokens ≤ burst
  pub earned : d.tokens + token_unit * frames d.trace + rate * t0 ≤ base + rate * d.last_refill

module _ {S : Type 0} (send_ : S → RequestSpec → Result String × S) (rate burst t0 base : ℕ) where
  abbrev M : Dispatcher S → Type 0
  M d = Metered rate burst t0 base d

  refill-Metered : (now : ℕ) (d : Dispatcher S) → M d → M (refill now d)
  unfolding refill
  refill-Metered now d v = ground (arith, refill_product d.last_refill now rate)

  after_send-Metered :
      (w : Waiting) (r : Result String) (d : Dispatcher S)
      → token_unit ≤ d.tokens
      → M d
      → M (after_send w r d)
  unfolding after_send frames
  after_send-Metered w (err e) d h v =
      ground (arith, frames-complete w.handlers (err e) (sent w.spec (err e) ∷ d.trace))
  after_send-Metered w (ok id) d h v = ground arith

  send_next-Metered :
      (d : Dispatcher S) (w : Waiting) (ws : List Waiting)
      → token_unit ≤ d.tokens
      → M d
      → M (send_next send_ w ws d)
  unfolding send_next
  send_next-Metered d w ws h v =
      let sent = send_ d.sender (take_next w ws).0.spec in
      after_send-Metered (take_next w ws).0 sent.0
        (record d { queue = (take_next w ws).1; sender = sent.1 }) h
        (record {
          rate_kept = v.rate_kept;
          burst_kept = v.burst_kept;
          started = v.started;
          capped = v.capped;
          earned = v.earned;
        })
