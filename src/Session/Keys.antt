-- ===== src/Session/Keys.antt =====
-- A session that waits for the proof has agreed on a device, a scheme and a key.
use fountainer_client_framew.Common.{
  ◌≡◌, ◌⊎◌, refl, sym, ap, ◌∙◌, inl, inr, subst, Bool, true, false, not, ◌||◌, ◌&&◌, Option, none,
  some, String, Bool-cases, same_text, same_text_iff, is_empty, arith,
}
use fountainer_client_framew.Error.{Error, Result, ok, err}
use fountainer_client_framew.Json.{Json, Items, nil, cons, text, value_text, array}
use fountainer_client_framew.Session.Types.{
  SessionState, await_proof, CredentialProvider, Platform, Session,
}
use fountainer_client_framew.Session.Values.{elements, value_json}
use fountainer_client_framew.Session.Handshake.{
  Choice, choose_key, stops, chosen, last_error, choose, unresolved, offers_scheme, choice_of,
  is_foreign,
}
use fountainer_client_framew.Auth.{AuthContext}
use fountainer_client_framew.Session.Machine.{same_state, link}
use fountainer_client_framew.Session.States.{Avoids}
use fountainer_client_framew.Session.Types.{SessionConfig}

-- The text stands among the items.
abbrev pub Offers : String → Items → Type 0
Offers kid nil = ⊥
Offers kid (cons (text other) xs) = (kid ≡ other) ⊎ Offers kid xs
Offers kid (cons _ xs) = Offers kid xs

-- The key id was offered, and the provider resolves it to the key.
abbrev pub Resolved : CredentialProvider → String → Items → Choice → Type 0
Resolved resolve device xs c = Offers c.chosen_kid xs × (resolve device c.chosen_kid ≡ ok c.key)

Result-cases {ℓ} :
    {A : Type ℓ} (r : Result A) → ((a : A) × (r ≡ ok a)) ⊎ ((e : Error) × (r ≡ err e))
Result-cases (ok a) = inl (a, refl)
Result-cases (err e) = inr (e, refl)

choose_key-Resolved :
    (resolve : CredentialProvider) (device : String) (e : Error) (xs : Items)
    → is_empty (choose_key resolve device e xs).chosen_kid ≡ false
    → Resolved resolve device xs (choose_key resolve device e xs)
unfolding choose_key
choose_key-Resolved resolve device e nil h = cc
choose_key-Resolved resolve device e (cons (text kid) xs) h =
    elim (Result-cases (resolve device kid)) [
      | inl (key, found) ↦
          let here : choose_key resolve device e (cons (text kid) xs)
              ≡ record { chosen_kid = kid; key = key; resolve_error = e } =
            rw (found, stops, chosen) refl in
          subst (Resolved resolve device (cons (text kid) xs)) (sym here) (inl refl, found)
      | inr (e', missing) ↦
          let on : choose_key resolve device e (cons (text kid) xs)
              ≡ choose_key resolve device e' xs =
            rw (missing, stops, last_error) refl in
          let k =
            choose_key-Resolved resolve device e' xs
              (ap (λ (c : Choice). is_empty c.chosen_kid) (sym on) ∙ h) in
          subst (Resolved resolve device (cons (text kid) xs)) (sym on) (inr k.0, k.1)
    ]
choose_key-Resolved resolve device e (cons _ xs) h = choose_key-Resolved resolve device e xs h

choose-Resolved :
    (credentials : Option CredentialProvider) (device : String) (xs : Items)
    → is_empty (choose credentials device xs).chosen_kid ≡ false
    → (provider : CredentialProvider) × (credentials ≡ some provider)
      × Resolved provider device xs (choose credentials device xs)
unfolding choose
choose-Resolved none device xs h = cc
choose-Resolved (some resolve) device xs h =
    (resolve, refl, choose_key-Resolved resolve device unresolved xs h)

ours_expected :
    (device expected : String)
    → (not (is_empty expected) && not (same_text device expected)) ≡ false
    → (is_empty expected ≡ true) ⊎ (device ≡ expected)
ours_expected device expected h = elim (Bool-cases (is_empty expected)) [
  | inl any ↦ inl any
  | inr one ↦ inr ((same_text_iff device expected).0 (ground arith))
]

module _ {W : Type 0} (p : Platform W) where
  -- What a session that has accepted a hello has agreed on: the device is the one that the
  -- configuration expects, if it expects one, the scheme was offered, and the key is the provider's for
  -- this device and an offered key id.
  pub record Agreed (message : Json) (config : SessionConfig) (a : AuthContext) : Type 0 where
    pub provider : CredentialProvider
    pub configured : config.credentials ≡ some provider
    pub expected :
        (is_empty config.expected_device_id ≡ true) ⊎ (a.device_id ≡ config.expected_device_id)
    pub scheme : offers_scheme p message ≡ true
    pub offered : Offers a.kid (elements (value_json message "auth_kids" (array nil)))
    pub resolved : provider a.device_id a.kid ≡ ok a.key
    pub named : value_text message "device_id" ≡ some a.device_id
    pub nonce : value_text message "client_nonce" ≡ some a.client_nonce

  abbrev pub is_await_proof : SessionState → Bool
  is_await_proof state = same_state state await_proof

  -- The session is not in `AwaitProof`, or has agreed.
  abbrev pub Settles : Json → Session W → Session W → Type 0
  Settles message s t = Avoids is_await_proof t ⊎ Agreed message s.config (link t).auth

  pub choice_of-Agreed :
      (message : Json) (s : Session W)
      → is_foreign p s ≡ false
      → (not (offers_scheme p message) || is_empty (choice_of p message s).chosen_kid) ≡ false
      → value_text message "device_id" ≡ some s.info.device_id
      → value_text message "client_nonce" ≡ some (link s).auth.client_nonce
      → Agreed message s.config (record (link s).auth {
        key = (choice_of p message s).key;
        kid = (choice_of p message s).chosen_kid;
        device_id = s.info.device_id;
      })
  unfolding choice_of
  choice_of-Agreed message s ours fit device nonce =
      let items = elements (value_json message "auth_kids" (array nil)) in
      let r = choose-Resolved s.config.credentials s.info.device_id items (ground arith) in
      record {
        provider = r.0;
        configured = r.1;
        expected = ours_expected s.info.device_id s.config.expected_device_id ours;
        scheme = ground arith;
        offered = r.2.0;
        resolved = r.2.1;
        named = device;
        nonce = nonce;
      }
