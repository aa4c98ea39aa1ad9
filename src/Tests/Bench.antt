-- ===== src/Tests/Bench.antt =====
-- A platform and values for the tests: a transport that takes every frame, and a proof of the device.
use fountainer_client_framew.Common.{
  ℕ, suc, Bool, true, none, some, String, [], ◌∷◌, same_text, if◌then◌else◌,
}
use fountainer_client_framew.Error.{ok}
use fountainer_client_framew.Json.{pos, number_integer, text, object, Fields, end, field}
use fountainer_client_framew.Auth.{Crypto, AuthContext}
use fountainer_client_framew.Dispatcher.Types.{
  OperationPriority, interactive_read, RequestSpec, RateBudget,
}
use fountainer_client_framew.Session.Types.{SessionState, SessionConfig, Platform, Link, Callback}

abbrev pub toy_crypto : Crypto
toy_crypto = record {
  sha256 = λ s. [];
  hmac_sha256 = λ key raw. 1 ∷ [];
  encode_block = λ bs. "mac";
  canonical_number = λ bits. "0";
}

abbrev pub proof_fields : Fields
proof_fields =
    field "auth"
      (object (
        field "kid" (text "1")
          (field "mac" (text "mac") (field "seq" (number_integer (pos 1)) end))))
      (field "type" (text "ota_check") end)

-- The world counts the frames that it was given.
abbrev pub bench : Platform ℕ
bench = record {
  deliver = λ w frame. (true, suc w);
  clock = λ w. w;
  now_ms = λ w. w;
  random_bytes = λ w. (some (1 ∷ 2 ∷ 3 ∷ 4 ∷ []), w);
  parse = λ frame. if same_text frame "proof" then some (object proof_fields) else none;
  dump = λ message. "frame";
  float_to_bits = λ modulus bits. 0;
  to_float = λ number. 0;
  crypto = toy_crypto;
}

abbrev pub keys : AuthContext
keys = record {
  key = 7 ∷ [];
  kid = "1";
  device_id = "esp32";
  server_nonce = "s";
  client_nonce = "c";
}

abbrev pub link_in : SessionState → Link ℕ
link_in state = record {
  state = state;
  auth = keys;
  s2c_seq = 0;
  msg_seq = 0;
  last_tx = 0;
  world = 0;
}

abbrev pub budget : RateBudget
budget = record { requests_per_second = 4000; burst = 8000000000000; max_in_flight = 4 }

abbrev pub read_request : OperationPriority → String → RequestSpec
read_request priority key = record {
  type = "dp_read";
  body = object end;
  timeout = some 50;
  priority = priority;
  coalesce_key = key;
}

abbrev pub write_request : RequestSpec
write_request = record (read_request interactive_read "") { type = "dp_write" }

abbrev pub bench_config : SessionConfig
bench_config = record {
  credentials = some (λ device kid. ok (7 ∷ []));
  kid = "1";
  expected_device_id = "";
  ota_policy = none;
  handshake_timeout = 15000;
  default_request_timeout = 10000;
  budget = budget;
}

abbrev pub all_set : Callback → Bool
all_set callback = true
