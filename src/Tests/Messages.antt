-- ===== src/Tests/Messages.antt =====
-- The theorems on signing, replay and canonical text at small messages.
use fountainer_client_framew.Common.{◌≡◌, refl, some, [], ◌∷◌}
use fountainer_client_framew.Json.{ℤ, Fields, pos, object, find, value_text}
use fountainer_client_framew.Messages.{c2s, s2c}
use fountainer_client_framew.Auth.{verified, sign, verify, integer, mac_input, compute_mac}
use fountainer_client_framew.Auth.Replay.{
  fresh_replay, let_through, Ascending, let_through-Ascending,
}
use fountainer_client_framew.Auth.Signing.{verify-sign, verify-verified}
use fountainer_client_framew.Tests.Bench.{toy_crypto, keys, proof_fields}

verify-sign_example :
    verify toy_crypto (sign toy_crypto (object proof_fields) keys (pos 3) s2c) keys s2c
    ≡ some verified
verify-sign_example = verify-sign toy_crypto proof_fields keys (pos 3) s2c

proof_verified : verify toy_crypto (object proof_fields) keys c2s ≡ some verified
unfolding verify find value_text compute_mac
proof_verified = refl

verify-verified_example :
    (fs : Fields) × (seq : ℤ) × (find (object proof_fields) "auth" ≡ some (object fs))
    × (value_text (object fs) "kid" ≡ some "1")
    × (integer (find (object fs) "seq") ≡ some seq)
    × (value_text (object fs) "mac"
        ≡ some (
            compute_mac toy_crypto
              (7 ∷ [])
              (mac_input toy_crypto (object proof_fields) keys c2s "1" seq)))
verify-verified_example = verify-verified toy_crypto (object proof_fields) keys c2s proof_verified

let_through-Ascending_example :
    Ascending (pos 0) (let_through fresh_replay (pos 1 ∷ pos 1 ∷ pos 3 ∷ pos 2 ∷ []))
let_through-Ascending_example =
    let_through-Ascending fresh_replay (pos 1 ∷ pos 1 ∷ pos 3 ∷ pos 2 ∷ [])
