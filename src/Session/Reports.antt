-- ===== src/Session/Reports.antt =====
-- The unsolicited messages of a running session, at the end of `dispatch_running`.
use fountainer_client_framew.Common.{ℕ, Option, none, some, String, ◌∷◌, same_text, if◌then◌else◌}
use fountainer_client_framew.Json.{Json, nil, array, object, end, value_text}
use fountainer_client_framew.Messages.{find_meta}
use fountainer_client_framew.Auth.{◌>>=◌}
use fountainer_client_framew.Session.Types.{
  Platform, Session, Callback, on_dp_report, on_heartbeat, on_device_alert, on_ota_status,
  on_error_report, on_unknown, on_warning, Notice, heartbeat, dp_report, device_alert, ota_status,
  error_report, unknown_message, protocol_warning,
}
use fountainer_client_framew.Session.Values.{
  value_json, value_bool, value_bits, optional_float, report_seq,
}

module _ {W : Type 0} where
  unfoldable pub notify : Callback → Notice → Session W → Session W
  notify callback notice s =
      if s.callbacks callback then record s { notices = notice ∷ s.notices } else s

  unfoldable pub warn : String → String → Session W → Session W
  unfolding notify
  warn reason type s = notify on_warning (protocol_warning reason type) s

  -- `if (callback) { read the message; callback(...) }`.
  unfoldable pub reported : Callback → Option Notice → Session W → Option (Session W)
  unfolding notify
  reported callback read s =
      if s.callbacks callback
      then elim read [ none ↦ none | some notice ↦ some (notify callback notice s) ]
      else some s

  -- A type that none of the reports has.
  unfoldable pub other_message : String → Json → Session W → Session W
  unfolding notify warn
  other_message type message s = elim (find_meta type) [
    | none ↦ notify on_unknown (unknown_message type message) s
    | some meta ↦ warn "unsolicited message without a pending request" type s
  ]

  abbrev now_of : Platform W → Session W → ℕ
  now_of p s = p.clock s.dispatcher.sender.world

module _ {W : Type 0} (p : Platform W) where
  pub read_heartbeat : Json → Session W → Option Notice
  read_heartbeat message s = do
    uptime ← value_bits p 4294967296 message "uptime_s"
    version ← value_text message "fw_version"
    fault ← value_bool message "fault_active"
    some (
        heartbeat (record {
          uptime_s = uptime;
          firmware_version = version;
          fault_active = fault;
          received_at = now_of p s;
        }))

  pub read_alert : Json → Session W → Option Notice
  read_alert message s = do
    code ← value_text message "code"
    severity ← value_text message "severity"
    datapoint ← value_text message "datapoint"
    detail ← value_text message "detail"
    some (
        device_alert (record {
          code = code;
          severity = severity;
          datapoint = datapoint;
          value = optional_float p message "value";
          threshold = optional_float p message "threshold";
          detail = detail;
          received_at = now_of p s;
        }))

  pub read_ota_status : Json → Option Notice
  read_ota_status message = do
    version ← value_text message "target_version"
    state ← value_text message "state"
    attempt ← value_bits p 256 message "attempt"
    progress ← value_bits p 256 message "progress_pct"
    error ← value_text message "error"
    detail ← value_text message "error_detail"
    some (
        ota_status (record {
          target_version = version;
          state = state;
          attempt = attempt;
          progress_pct = progress;
          error = error;
          error_detail = detail;
        }))

  pub read_error_report : Json → Option Notice
  read_error_report message = do
    status ← value_text message "status"
    some (
        error_report (record {
          status = status;
          active_faults = value_json message "active_faults" (array nil);
          log = value_json message "log" (array nil);
        }))

  unfoldable pub report : String → Json → Session W → Option (Session W)
  unfolding reported read_heartbeat read_alert read_ota_status read_error_report other_message
  report type message s =
      if same_text type "heartbeat"
      then reported on_heartbeat (read_heartbeat message s) s
      else if same_text type "dp_report"
      then reported on_dp_report
          (some (dp_report (value_json message "dp" (object end)) (report_seq p message))) s
      else if same_text type "device_alert"
      then reported on_device_alert (read_alert message s) s
      else if same_text type "ota_status"
      then reported on_ota_status (read_ota_status message) s
      else if same_text type "error_report"
      then reported on_error_report (read_error_report message) s
      else some (other_message type message s)
