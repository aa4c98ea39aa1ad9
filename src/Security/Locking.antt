-- ===== src/Security/Locking.antt =====
-- `SecurityConfiguration::lock` and `unlock` of include/fountainer/security.hpp, and the setters of
-- src/security.cpp between them.
use fountainer_client_framew.Common.{◌≡◌, Bool, true, false, Option, String, List, [], ◌∷◌}
use fountainer_client_framew.Error.{ErrorCode, Status, ok, err}
use fountainer_client_framew.Session.Types.{CredentialProvider}
use fountainer_client_framew.Security.{
  Files, TlsCredentials, HmacCredentials, SecurityConfiguration, set_tls, set_hmac,
  set_credential_provider, set_expected_device_id, lock, unlock,
}

-- A call of a member function that can change the configuration.
pub data Call : Type 0 where
  tls : TlsCredentials → Call
  hmac : HmacCredentials → Call
  credential_provider : Option CredentialProvider → Call
  expected_device_id : String → Call
  locking : Call
  unlocking : Call

module _ (files : Files) where
  -- The configuration after a call, and what the call returns; the last three return nothing.
  unfoldable pub step : Call → SecurityConfiguration → SecurityConfiguration × Status
  step (tls t) c = set_tls files t c
  step (hmac h) c = set_hmac h c
  step (credential_provider p) c = set_credential_provider p c
  step (expected_device_id d) c = (set_expected_device_id d c, ok tt)
  step locking c = (lock c, ok tt)
  step unlocking c = (unlock c, ok tt)

  -- The calls in turn, and what each returned.
  unfoldable pub run : List Call → SecurityConfiguration → SecurityConfiguration × List Status
  unfolding step
  run [] c = (c, [])
  run (call ∷ calls) c =
      let (after, status) = step call c in
      let (last, statuses) = run calls after in (last, status ∷ statuses)

-- What a call gives back on a locked configuration: the setters of credentials refuse, with an error
-- that says so, and the others go through.
abbrev pub IsRefused : Call → Status → Type 0
IsRefused (tls _) (err e) = e.code ≡ ErrorCode.invalid_state
IsRefused (hmac _) (err e) = e.code ≡ ErrorCode.invalid_state
IsRefused (credential_provider _) (err e) = e.code ≡ ErrorCode.invalid_state
IsRefused (expected_device_id _) s = s ≡ ok tt
IsRefused locking s = s ≡ ok tt
IsRefused unlocking s = s ≡ ok tt
IsRefused _ (ok _) = ⊥

abbrev pub AllRefused : List Call → List Status → Type 0
AllRefused [] [] = Unit
AllRefused (call ∷ calls) (s ∷ ss) = IsRefused call s × AllRefused calls ss
AllRefused _ _ = ⊥

abbrev pub is_unlocking : Call → Bool
is_unlocking unlocking = true
is_unlocking _ = false

-- The same credentials under the same lock.
pub record SameCredentials (c d : SecurityConfiguration) : Type 0 where
  pub tls_same : d.tls ≡ c.tls
  pub has_tls_same : d.has_tls ≡ c.has_tls
  pub provider_same : d.provider ≡ c.provider
  pub kid_same : d.kid ≡ c.kid
  pub locked_same : d.locked ≡ c.locked
