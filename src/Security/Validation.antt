-- ===== src/Security/Validation.antt =====
-- `SecurityConfiguration::validate` of src/security.cpp, and what a configuration that has been built
-- by the setters answers.
use fountainer_client_framew.Common.{
  ◌≡◌, refl, ◌⊎◌, ◌↔◌, inl, inr, arith, Bool, true, false, not, if◌then◌else◌, none, some, String,
  Bool-cases, is_empty, Option-cases, same_text_iff, List, [], ◌∷◌, ℕ,
}
use fountainer_client_framew.Error.{Result-cases, Status, ok, err}
use fountainer_client_framew.Session.Types.{CredentialProvider}
use fountainer_client_framew.Security.Locking.{
  Call, tls, hmac, credential_provider, expected_device_id, locking, unlocking, step, run,
}
use fountainer_client_framew.Security.{
  resolve, FixedCredentialProvider, set_credential_provider, lock, unlock, Files, TlsCredentials,
  SecurityConfiguration, require_readable, validate_tls, validate, set_tls, set_hmac,
  set_expected_device_id, uses_mutual_tls, ◌and_then◌,
}

and_then-ok : (a b : Status) → (a and_then b ≡ ok tt) ↔ ((a ≡ ok tt) × (b ≡ ok tt))
and_then-ok (ok _) b = (λ e. (refl, e), λ h. h.1)
and_then-ok (err x) b = (λ e. cc, λ h. cc (h.0))

guarded-ok :
    (t : Bool) (a : Status) → ((if t then a else ok tt) ≡ ok tt) ↔ ((t ≡ false) ⊎ (a ≡ ok tt))
guarded-ok true a = (λ e. inr e, λ h. elim h [ inl off ↦ cc | inr e ↦ e ])
guarded-ok false a = (λ e. inl refl, λ h. refl)

not_iff : (b : Bool) → (not b ≡ false) ↔ (b ≡ true)
not_iff true = (λ e. refl, λ e. refl)
not_iff false = (λ e. cc, λ e. cc)

module _ (files : Files) where
  -- A path that is given and names a file that can be read.
  abbrev pub IsReadable : String → Type 0
  IsReadable path = (is_empty path ≡ false) × (contents : String) × (files path ≡ some contents)

  -- The files that the credentials need: the CA unless verification of the peer is switched off, and
  -- both files of the client once a certificate is named.
  pub record HasFiles (t : TlsCredentials) : Type 0 where
    pub ca : (t.disable_peer_verification ≡ true) ⊎ IsReadable t.ca_file
    pub client :
        (is_empty t.certificate_file ≡ true)
        ⊎ (IsReadable t.certificate_file × IsReadable t.key_file)

  pub record IsReady (c : SecurityConfiguration) : Type 0 where
    pub tls_given : c.has_tls ≡ true
    pub tls_files : HasFiles c.tls
    pub provider_given : (p : CredentialProvider) × (c.provider ≡ some p)

  require_readable_iff :
      (path what : String) → (require_readable files path what ≡ ok tt) ↔ IsReadable path
  unfolding require_readable
  require_readable_iff path what = (
    λ e. elim (Bool-cases (is_empty path)) [
      | inl empty ↦ cc (rw (empty, require_readable) at e)
      | inr named ↦ elim (Option-cases (files path)) [
        | inl missing ↦ cc (rw (named, missing) at e)
        | inr (contents, found) ↦ (named, contents, found)
      ]
    ],
    λ (named, contents, found). rw (named, found) refl,
  )

  validate_tls_iff : (t : TlsCredentials) → (validate_tls files t ≡ ok tt) ↔ HasFiles t
  unfolding validate_tls
  validate_tls_iff t =
      let certificate = require_readable files t.certificate_file "tls client_certificate_file" in
      let key = require_readable files t.key_file "tls client_key_file" in
      let ca = require_readable files t.ca_file "tls ca_file" in
      let server = guarded-ok (not t.disable_peer_verification) ca in
      let both = and_then-ok certificate key in
      let client = guarded-ok (uses_mutual_tls t) (certificate and_then key) in
      let all =
        and_then-ok (if not t.disable_peer_verification then ca else ok tt)
          (if uses_mutual_tls t then certificate and_then key else ok tt) in
      (
        λ e. record {
          ca = elim (server.0 (all.0 e).0) [
            | inl off ↦ inl ((not_iff _).0 off)
            | inr r ↦ inr ((require_readable_iff _ _).0 r)
          ];
          client = elim (client.0 (all.0 e).1) [
            | inl absent ↦ inl ((not_iff _).0 absent)
            | inr r ↦ inr (
              (require_readable_iff _ _).0 (both.0 r).0,
              (require_readable_iff _ _).0 (both.0 r).1,
            )
          ];
        },
        λ h. all.1 (
          server.1 (elim h.ca [
            | inl off ↦ inl ((not_iff _).1 off)
            | inr r ↦ inr ((require_readable_iff _ _).1 r)
          ]),
          client.1 (elim h.client [
            | inl absent ↦ inl ((not_iff _).1 absent)
            | inr (r, k) ↦
                inr (both.1 ((require_readable_iff _ _).1 r, (require_readable_iff _ _).1 k))
          ]),
        ),
      )

  -- A configuration is valid exactly if it has TLS credentials whose files are named and can be read (the CA
  -- unless the verification of the peer is off, certificate and key if a certificate is named),
  -- and a credential provider.
  pub validate_iff : (c : SecurityConfiguration) → (validate files c ≡ ok tt) ↔ IsReady c
  unfolding validate
  validate_iff c = (
    λ e. elim (Bool-cases c.has_tls) [
      | inr missing ↦ cc (rw missing at e)
      | inl given ↦
          let both = (and_then-ok (validate_tls files c.tls) _).0 (rw given at e) in
          elim (Option-cases c.provider) [
            | inl null ↦ cc (rw null at (both.1))
            | inr found ↦ record {
              tls_given = given;
              tls_files = (validate_tls_iff c.tls).0 both.0;
              provider_given = found;
            }
          ]
    ],
    λ h. rw (h.tls_given, (validate_tls_iff c.tls).1 h.tls_files, h.provider_given.1) refl,
  )

  step-IsReady :
      (call : Call) (c : SecurityConfiguration) → IsReady c → IsReady (step files call c).0
  unfolding step set_tls set_hmac set_credential_provider set_expected_device_id lock unlock
  step-IsReady (tls t) c h = elim (Bool-cases c.locked) [
    | inl shut ↦ simp shut h
    | inr free ↦ elim (Result-cases (validate_tls files t)) [
      | inl (s, e) ↦
          simp (free, e)
            (record {
              tls_given = refl;
              tls_files = (validate_tls_iff t).0 e;
              provider_given = h.provider_given;
            })
      | inr (x, e) ↦ simp (free, e) h
    ]
  ]
  step-IsReady (hmac k) c h = elim (Bool-cases c.locked) [
    | inl shut ↦ simp shut h
    | inr free ↦
        simp free
          (record { tls_given = h.tls_given; tls_files = h.tls_files; provider_given = (_, refl) })
  ]
  step-IsReady (credential_provider none) c h = elim (Bool-cases c.locked) [
    | inl shut ↦ simp shut h
    | inr free ↦ simp free h
  ]
  step-IsReady (credential_provider (some p)) c h = elim (Bool-cases c.locked) [
    | inl shut ↦ simp shut h
    | inr free ↦
        simp free
          (record { tls_given = h.tls_given; tls_files = h.tls_files; provider_given = (p, refl) })
  ]
  step-IsReady (expected_device_id d) c h = record {
    tls_given = h.tls_given;
    tls_files = h.tls_files;
    provider_given = h.provider_given;
  }
  step-IsReady locking c h = record {
    tls_given = h.tls_given;
    tls_files = h.tls_files;
    provider_given = h.provider_given;
  }
  step-IsReady unlocking c h = record {
    tls_given = h.tls_given;
    tls_files = h.tls_files;
    provider_given = h.provider_given;
  }

  -- Any calls on a valid configuration leave a valid configuration, while the files stay as they
  -- are.
  pub run-IsReady :
      (calls : List Call) (c : SecurityConfiguration) → IsReady c → IsReady (run files calls c).0
  unfolding run
  run-IsReady [] c h = h
  run-IsReady (call ∷ calls) c h = run-IsReady calls (step files call c).0 (step-IsReady call c h)

-- A fixed provider gives its key exactly for its own key id and, where it expects a device, for that
-- device.
pub resolve_iff :
    (p : FixedCredentialProvider) (device_id kid : String) (key : List ℕ)
    → (resolve p device_id kid ≡ ok key) ↔ (
        ((is_empty p.expected_device_id ≡ true) ⊎ (device_id ≡ p.expected_device_id))
        × (kid ≡ p.kid)
        × (key ≡ p.key))
unfolding resolve
resolve_iff p device_id kid key =
    ground (arith, same_text_iff device_id p.expected_device_id, same_text_iff kid p.kid)
