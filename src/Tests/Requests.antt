-- ===== src/Tests/Requests.antt =====
-- The dispatcher's theorems at a short history over a running session's sender.
use fountainer_client_framew.Common.{
  decimal, ℕ, ◌+◌, ◌*◌, ◌%◌, ◌≤◌, ◌≡◌, refl, true, some, List, [], ◌∷◌, String, arith, length, All,
  u64_mod,
}
use mathlib.Core.List.{Perm}
use fountainer_client_framew.Error.{Result, ok, disconnected_error}
use fountainer_client_framew.Json.{object, field, text, end}
use fountainer_client_framew.Dispatcher.{tick, send_next, fail_all}
use fountainer_client_framew.Dispatcher.Types.{
  polling, RequestSpec, Waiting, Dispatcher, token_unit,
}
use fountainer_client_framew.Dispatcher.Queue.{take_next}
use fountainer_client_framew.Dispatcher.Counts.{calls, outstanding}
use fountainer_client_framew.Dispatcher.Run.{init, Call, submits, ticks, receives, run}
use fountainer_client_framew.Dispatcher.Handlers.Once.{calls-run, submissions}
use fountainer_client_framew.Dispatcher.Rate.{frames}
use fountainer_client_framew.Dispatcher.Rate.Span.{frames-run}
use fountainer_client_framew.Dispatcher.Order.{send_next-least, NotBefore}
use fountainer_client_framew.Dispatcher.Deadlines.{tick-Timely, Timely}
use fountainer_client_framew.Dispatcher.Flight.{tick-Exhausted, pending-run, Exhausted}
use fountainer_client_framew.Dispatcher.Accounting.{submitted-run, settled}
use fountainer_client_framew.Dispatcher.Keys.{run-KeysDistinct, KeysDistinct}
use fountainer_client_framew.Session.Types.{running, Link}
use fountainer_client_framew.Session.Sender.{
  encode_and_send, send_request, secure, send_encoded, byte_size, char_bytes, transmit_text,
  next_msg_id,
}
use fountainer_client_framew.Messages.{MessageMeta, find_meta}
use fountainer_client_framew.Session.Ids.{Sends, session_ids, encode_and_send-Sends}
use fountainer_client_framew.Session.Frames.{Acceptable, encode_and_send-Acceptable}
use fountainer_client_framew.Tests.Bench.{bench, link_in, budget, read_request, write_request}

abbrev sender : Link ℕ → RequestSpec → Result String × Link ℕ
sender = encode_and_send bench

abbrev history : List Call
history =
    submits (read_request polling "poll") (some 1) 10
    ∷ submits (read_request polling "poll") (some 2) 20
    ∷ receives (object (field "in_reply_to" (text "s-1") (field "type" (text "dp_report") end)))
    ∷ ticks 90
    ∷ []

abbrev fresh : Dispatcher (Link ℕ)
fresh = init (link_in running) budget 100

abbrev refilled : Dispatcher (Link ℕ)
refilled = record fresh { last_refill = 5; refill_initialised = true }

abbrev waiting : ℕ → Waiting
waiting n = record {
  spec = read_request polling "";
  handlers = some 1 ∷ [];
  deadline = 60;
  sequence = n;
}

calls-run_example :
    (outstanding 1 (run sender history fresh) + calls 1 (run sender history fresh).trace
      ≡ submissions 1 history)
    × (calls 1 (fail_all (disconnected_error "test") (run sender history fresh)).trace
        ≡ submissions 1 history)
calls-run_example =
    calls-run sender (session_ids bench) 1 (link_in running) budget 100 history
      (disconnected_error "test")

frames-run_example :
    (token_unit * frames (run sender history refilled).trace + 4000 * 5
      ≤ refilled.tokens
        + token_unit * frames refilled.trace
        + 4000 * (run sender history refilled).last_refill)
    × ((run sender history refilled).tokens ≤ 8000000000000)
frames-run_example =
    frames-run sender history refilled refl (omega arith) (tt, (tt, (tt, (tt, tt))))

send_next-least_example :
    ((send_next sender (waiting 2) (waiting 1 ∷ []) fresh).sender
      ≡ (sender fresh.sender (take_next (waiting 2) (waiting 1 ∷ [])).0.spec).1)
    × All (NotBefore (take_next (waiting 2) (waiting 1 ∷ [])).0) (waiting 2 ∷ waiting 1 ∷ [])
    × Perm (waiting 2 ∷ waiting 1 ∷ []) (
        (take_next (waiting 2) (waiting 1 ∷ [])).0
        ∷ (send_next sender (waiting 2) (waiting 1 ∷ []) fresh).queue)
send_next-least_example = send_next-least sender (waiting 2) (waiting 1 ∷ []) fresh

tick-Timely_example : Timely sender 70 (tick sender 70 (run sender history fresh))
tick-Timely_example = tick-Timely sender 70 (run sender history fresh)

tick-Exhausted_example : Exhausted (tick sender 70 (record fresh { queue = waiting 1 ∷ [] }))
tick-Exhausted_example =
    tick-Exhausted sender 70 (record fresh { queue = waiting 1 ∷ [] }) refl refl

pending-run_example : length (run sender history fresh).pending ≤ 4
pending-run_example =
    pending-run sender 4 history (link_in running) budget 100 (omega arith)
      (tt, (tt, (tt, (tt, tt))))

submitted-run_example :
    (run sender history fresh).metrics.submitted % u64_mod
    ≡ settled (run sender history fresh) % u64_mod
submitted-run_example =
    submitted-run sender (session_ids bench) history (link_in running) budget 100

run-KeysDistinct_example : KeysDistinct (run sender history fresh).queue
run-KeysDistinct_example = run-KeysDistinct sender history (link_in running) budget 100

encode_and_send-Sends_example :
    Sends
      (link_in running)
      (sender (link_in running) write_request).0
      (sender (link_in running) write_request).1
encode_and_send-Sends_example = encode_and_send-Sends bench (link_in running) write_request

-- A request that needs a signature goes out under the first id.
write_request_sent : (sender (link_in running) write_request).0 ≡ ok "s-1"
unfolding encode_and_send send_request secure send_encoded byte_size char_bytes transmit_text
    next_msg_id find_meta decimal
write_request_sent = refl

encode_and_send-Acceptable_example :
    (meta : MessageMeta) × Acceptable bench meta write_request
      (link_in running)
      (sender (link_in running) write_request).1
encode_and_send-Acceptable_example =
    encode_and_send-Acceptable bench (link_in running) write_request "s-1" write_request_sent
