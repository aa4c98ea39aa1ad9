-- ===== src/Tests/Sessions.antt =====
-- The session's theorems at a new session, and at one that waits for the device's proof.
use fountainer_client_framew.Common.{
  ℕ, ◌+◌, ◌≡◌, ◌≢◌, refl, true, none, some, String, List, [], ◌∷◌,
}
use fountainer_client_framew.Error.{disconnected_error}
use fountainer_client_framew.Dispatcher.Types.{interactive_read}
use fountainer_client_framew.Dispatcher.Counts.{calls, outstanding}
use fountainer_client_framew.Session.Types.{
  await_hello, await_proof, running, Session, no_update_policy,
}
use fountainer_client_framew.Session.Machine.{
  link, with_link, new_session, on_transport_closed, request, say, enter,
}
use fountainer_client_framew.Json.{
  Json, pos, text, array, object, nil, cons, end, field, find, value_text,
}
use fountainer_client_framew.Dispatcher.{on_message}
use fountainer_client_framew.Session.Handshake.{handle_hello, choose_key}
use fountainer_client_framew.Session.Guard.{Guarded, dispatch_running-Guarded}
use fountainer_client_framew.Session.Keys.{Agreed}
use fountainer_client_framew.Session.Agreement.{handle_hello-Agreed}
use fountainer_client_framew.Session.Ready.{decided, hears-runs}
use fountainer_client_framew.Session.Answers.{Answered}
use fountainer_client_framew.Messages.{find_meta}
use fountainer_client_framew.Auth.{verify, compute_mac}
use fountainer_client_framew.Auth.Replay.{check}
use fountainer_client_framew.Session.Values.{value_int64, value_json, value_bits, elements}
use fountainer_client_framew.Session.Sender.{send_message, secure, transmit, transmit_text}
use fountainer_client_framew.Session.Reports.{notify, report, warn}
use fountainer_client_framew.Session.Running.{
  on_text, handle_proof, answer_ota_check, dispatch_running, has_auth,
}
use fountainer_client_framew.Session.History.{Occasion, hears, requests, step, run, asked_in}
use fountainer_client_framew.Session.Once.{run-calls}
use fountainer_client_framew.Session.Proof.{Proven, step-Proven}
use fountainer_client_framew.Tests.Bench.{
  bench, bench_config, all_set, link_in, read_request, proof_fields,
}

abbrev begun : Session ℕ
begun = new_session bench_config all_set 0

abbrev asking : List (Occasion ℕ)
asking = requests (read_request interactive_read "") (some 1) ∷ []

abbrev asked_once : Session ℕ
asked_once = request bench (read_request interactive_read "") (some 1) begun

asking-run : run bench asking begun ≡ some asked_once
unfolding run step
asking-run = refl

run-calls_example :
    (outstanding 1 asked_once.dispatcher + calls 1 asked_once.dispatcher.trace ≡ asked_in 1 asking)
    × (calls 1 (on_transport_closed (disconnected_error "test") asked_once).dispatcher.trace
        ≡ asked_in 1 asking)
run-calls_example =
    run-calls bench 1 asking bench_config all_set 0 (disconnected_error "test") asked_once
      (tt, λ s' e. tt) asking-run

abbrev waiting : Session ℕ
waiting = with_link (link_in await_proof) begun

-- What the session is after the proof.
abbrev proved_session : Session ℕ
proved_session = elim (step bench (hears "proof") waiting) [ none ↦ waiting | some t ↦ t ]

proof_heard : step bench (hears "proof") waiting ≡ some proved_session
unfolding step on_text handle_proof verify find value_text compute_mac value_int64 check
    answer_ota_check say send_message secure transmit enter notify no_update_policy find_meta
    transmit_text new_session
proof_heard = refl

proof_runs : (link proved_session).state ≡ running
unfolding step on_text handle_proof verify find value_text compute_mac value_int64 check
    answer_ota_check say send_message secure transmit enter notify no_update_policy find_meta
    transmit_text new_session
proof_runs = refl

not_running : (link waiting).state ≢ running
not_running e = cc

step-Proven_example :
    (frame : String) × (◌≡◌ {A = Occasion ℕ} (hears "proof") (hears frame))
    × Proven bench frame waiting
step-Proven_example =
    step-Proven bench (hears "proof") waiting proved_session not_running proof_heard proof_runs

proof_of_device : Proven bench "proof" waiting
unfolding verify find value_text compute_mac value_int64 check new_session
proof_of_device = record {
  members = proof_fields;
  seq = pos 1;
  parsed = refl;
  awaited = refl;
  authentic = refl;
  numbered = refl;
  newer = refl;
}

proof_type : value_text (object proof_of_device.members) "type" ≡ some "ota_check"
unfolding proof_of_device value_text find
proof_type = refl

proof_version : value_text (object proof_of_device.members) "current_version" ≡ some ""
unfolding proof_of_device value_text find
proof_version = refl

proof_revision : value_text (object proof_of_device.members) "hw_rev" ≡ some ""
unfolding proof_of_device value_text find
proof_revision = refl

proof_id : value_text (object proof_of_device.members) "msg_id" ≡ some ""
unfolding proof_of_device value_text find
proof_id = refl

hears-runs_example :
    (t : Session ℕ) × (step bench (hears "proof") waiting ≡ some t)
    × Answered bench (decided bench waiting "" "") "" (link waiting) (link t).world
    × ((link t).state ≡ running)
hears-runs_example =
    hears-runs bench "proof" waiting proof_of_device "" "" "" proof_type proof_version
      proof_revision proof_id

abbrev serving : Session ℕ
serving = with_link (link_in running) begun

-- The same frame again, at a session that runs.
abbrev heard : Session ℕ
heard = elim (dispatch_running bench (object proof_fields) serving) [ none ↦ serving | some t ↦ t ]

message_heard : dispatch_running bench (object proof_fields) serving ≡ some heard
unfolding dispatch_running verify find value_text compute_mac value_int64 check on_message report
    find_meta notify warn new_session
message_heard = refl

signed_message : has_auth (object proof_fields) ≡ true
unfolding find
signed_message = refl

dispatch_running-Guarded_example : Guarded bench (object proof_fields) serving heard
dispatch_running-Guarded_example =
    dispatch_running-Guarded bench (object proof_fields) serving heard signed_message message_heard

abbrev hello : Json
hello = object (
    field "auth_kids" (array (cons (text "1") nil)) (
      field "auth_schemes" (array (cons (text "hmac-sha256") nil)) (
        field "client_nonce" (text "c")
          (field "device_id" (text "esp32") (field "type" (text "hello") end)))))

abbrev greeting : Session ℕ
greeting = with_link (link_in await_hello) begun

abbrev greeted_session : Session ℕ
greeted_session = elim (handle_hello bench hello greeting) [ none ↦ greeting | some t ↦ t ]

hello_heard : handle_hello bench hello greeting ≡ some greeted_session
unfolding handle_hello find value_text value_json value_bits elements send_message say secure
    transmit transmit_text find_meta enter new_session choose_key
hello_heard = refl

hello_accepted : (link greeted_session).state ≡ await_proof
unfolding handle_hello find value_text value_json value_bits elements send_message say secure
    transmit transmit_text find_meta enter new_session choose_key
hello_accepted = refl

not_awaiting : (link greeting).state ≢ await_proof
not_awaiting e = cc

handle_hello-Agreed_example : Agreed bench hello bench_config (link greeted_session).auth
unfolding new_session
handle_hello-Agreed_example =
    handle_hello-Agreed bench hello greeting greeted_session not_awaiting hello_heard hello_accepted
