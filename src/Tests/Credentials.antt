-- ===== src/Tests/Credentials.antt =====
-- Keys and the security configuration on concrete inputs.
use fountainer_client_framew.Common.{
  ◌≡◌, refl, arith, ℕ, true, none, some, String, List, [], ◌∷◌, inr, same_text, if◌then◌else◌,
}
use fountainer_client_framew.Error.{ok}
use fountainer_client_framew.Auth.{hex_text}
use fountainer_client_framew.Security.{
  Files, TlsCredentials, HmacCredentials, SecurityConfiguration, mutual_tls, verify_dns_name,
  from_file, validate, resolve, FixedCredentialProvider,
}
use fountainer_client_framew.Security.Hex.{is_space}
use fountainer_client_framew.Security.Keys.{plain, from_file_iff}
use fountainer_client_framew.Security.Locking.{Call, tls, hmac, expected_device_id, run}
use fountainer_client_framew.Security.Validation.{IsReady, validate_iff, run-IsReady, resolve_iff}

abbrev key_bytes : List ℕ
key_bytes =
    0 ∷ 1 ∷ 2 ∷ 3 ∷ 4 ∷ 5 ∷ 6 ∷ 7 ∷ 8 ∷ 9 ∷ 10 ∷ 11 ∷ 12 ∷ 13 ∷ 14 ∷ 15 ∷ 240 ∷ 241 ∷ 242 ∷ 243
    ∷ 244 ∷ 245 ∷ 246 ∷ 247 ∷ 248 ∷ 249 ∷ 250 ∷ 251 ∷ 252 ∷ 253 ∷ 254 ∷ 255 ∷ []

abbrev key_contents : String
key_contents = "00010203 04050607 08090a0b 0c0d0e0f\nF0F1F2F3 F4F5F6F7 F8F9FAFB FCFDFEFF\n"

abbrev disk : Files
disk path =
    if same_text path "hmac.key"
    then some key_contents
    else if same_text path "missing"
    then none
    else some "pem"

abbrev credentials : HmacCredentials
credentials = record { kid = "k1"; key = key_bytes }

from_file-iff_example : from_file disk "k1" "hmac.key" ≡ ok credentials
unfolding plain hex_text is_space
from_file-iff_example =
    (from_file_iff disk "k1" "hmac.key" credentials).1
      (key_contents, refl, (refl, refl, refl, omega arith, refl))

abbrev files_given : TlsCredentials
files_given = mutual_tls "ca.pem" "client.pem" "client.key" verify_dns_name

abbrev configured : SecurityConfiguration
configured = record {
  tls = files_given;
  has_tls = true;
  provider = some (resolve (record { kid = "k1"; key = key_bytes; expected_device_id = "" }));
  kid = "k1";
  expected_device_id = "fountain-1";
  locked = true;
}

configured-IsReady : IsReady disk configured
unfolding mutual_tls
configured-IsReady = record {
  tls_given = refl;
  tls_files = record {
    ca = inr (refl, "pem", refl);
    client = inr ((refl, "pem", refl), (refl, "pem", refl));
  };
  provider_given = (_, refl);
}

validate-iff_example : validate disk configured ≡ ok tt
validate-iff_example = (validate_iff disk configured).1 configured-IsReady

abbrev attempts : List Call
attempts = tls files_given ∷ hmac credentials ∷ expected_device_id "fountain-2" ∷ []

run-IsReady_example : IsReady disk (run disk attempts configured).0
run-IsReady_example = run-IsReady disk attempts configured configured-IsReady

abbrev fixed : FixedCredentialProvider
fixed = record { kid = "k1"; key = key_bytes; expected_device_id = "fountain-1" }

resolve-iff_example : resolve fixed "fountain-1" "k1" ≡ ok key_bytes
resolve-iff_example = (resolve_iff fixed "fountain-1" "k1" key_bytes).1 (inr refl, refl, refl)
