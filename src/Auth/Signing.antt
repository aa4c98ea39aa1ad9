-- ===== src/Auth/Signing.antt =====
-- A signed message verifies, and what verifies carries the MAC of its own fields.
use fountainer_client_framew.Common.{
  subst, ◌≡◌, refl, ap, ◌∙◌, false, Option, none, some, String, arith, same_text, same_text_iff,
  same_text_refl, Bool-cases, Option-cases, inl, inr,
}
use fountainer_client_framew.Json.{
  Json, ℤ, number_integer, object, Fields, end, field, find, find_field, set_field, value_text,
}
use fountainer_client_framew.Json.Members.{find_field-set_field}
use fountainer_client_framew.Messages.{Direction}
use fountainer_client_framew.Auth.{
  Crypto, AuthContext, verified, body_fields, body_hash_hex, field_string, mac_input, compute_mac,
  sign, verify, auth_object, field_text, integer, verify_seq, verify_auth, ◌>>=◌,
}

body_fields-set_auth :
    (v : Json) (fs : Fields) → body_fields (set_field "auth" v fs) ≡ body_fields fs
unfolding body_fields set_field
body_fields-set_auth v end = refl
body_fields-set_auth v (field j w fs) =
    ground (arith, same_text_iff "auth" j, body_fields-set_auth v fs)

module _ (c : Crypto) where
  -- A member other than `auth` reads as before.
  field_string-set_auth :
      (v : Json) (fs : Fields) (k : String)
      → same_text k "auth" ≡ false
      → field_string c (object (set_field "auth" v fs)) k ≡ field_string c (object fs) k
  unfolding field_string find
  field_string-set_auth v fs k e =
      ap (field_text c) {y = find (object fs) k} (find_field-set_field "auth" k v fs ∙ rw e)

  body_hash_hex-set_auth :
      (v : Json) (fs : Fields)
      → body_hash_hex c (object (set_field "auth" v fs)) ≡ body_hash_hex c (object fs)
  unfolding body_hash_hex
  body_hash_hex-set_auth v fs = rw (body_fields-set_auth v fs)

  -- The MAC input of a message does not depend on its `auth` member.
  pub mac_input-set_auth :
      (v : Json) (fs : Fields) (ctx : AuthContext) (dir : Direction) (kid : String) (seq : ℤ)
      → mac_input c (object (set_field "auth" v fs)) ctx dir kid seq
        ≡ mac_input c (object fs) ctx dir kid seq
  unfolding mac_input
  mac_input-set_auth v fs ctx dir kid seq = rw (
    field_string-set_auth v fs "v" refl,
    field_string-set_auth v fs "type" refl,
    field_string-set_auth v fs "serial" refl,
    field_string-set_auth v fs "ts" refl,
    field_string-set_auth v fs "msg_id" refl,
    field_string-set_auth v fs "in_reply_to" refl,
    body_hash_hex-set_auth v fs,
  )

  -- What `sign` signs, `verify` accepts in the same context and direction.
  pub verify-sign :
      (fs : Fields) (ctx : AuthContext) (seq : ℤ) (dir : Direction)
      → verify c (sign c (object fs) ctx seq dir) ctx dir ≡ some verified
  unfolding sign verify find verify_auth verify_seq integer find_field value_text
  verify-sign fs ctx seq dir =
      let mac = compute_mac c ctx.key (mac_input c (object fs) ctx dir ctx.kid seq) in
      let a = auth_object c ctx.kid seq mac in
      rw (find_field-set_field "auth" "auth" a fs) (
        rw (same_text_refl ctx.kid)
          (rw (mac_input-set_auth a fs ctx dir ctx.kid seq, same_text_refl mac)))

  -- Signing sets the member `auth`, with the sequence number, and no other.
  pub sign_lem :
      (fs : Fields) (ctx : AuthContext) (seq : ℤ) (dir : Direction)
      → (auth : Json) × (sign c (object fs) ctx seq dir ≡ object (set_field "auth" auth fs))
        × (find auth "seq" ≡ some (number_integer seq))
  unfolding sign find find_field
  sign_lem fs ctx seq dir = (
    auth_object c ctx.kid seq (compute_mac c ctx.key (mac_input c (object fs) ctx dir ctx.kid seq)),
    refl,
    refl,
  )

  verify_seq-verified :
      (msg : Json) (ctx : AuthContext) (dir : Direction) (auth : Json) (kid : String) (o : Option ℤ)
      → verify_seq c msg ctx dir auth kid o ≡ some verified
      → (seq : ℤ) × (o ≡ some seq)
        × (value_text auth "mac" ≡ some (compute_mac c ctx.key (mac_input c msg ctx dir kid seq)))
  unfolding verify_seq
  verify_seq-verified msg ctx dir auth kid none e = cc
  verify_seq-verified msg ctx dir auth kid (some seq) e =
      elim (Option-cases (value_text auth "mac")) [
        | inl n ↦ cc (rw (n, ◌>>=◌) at e)
        | inr (given, g) ↦ (
          seq,
          refl,
          ground (
            arith,
            rw (g, ◌>>=◌) at e,
            same_text_iff (compute_mac c ctx.key (mac_input c msg ctx dir kid seq)) given,
          ),
        )
      ]

  verify_auth-verified :
      (msg : Json) (ctx : AuthContext) (dir : Direction) (o : Option Json)
      → verify_auth c msg ctx dir o ≡ some verified
      → (fs : Fields) × (seq : ℤ) × (o ≡ some (object fs))
        × (value_text (object fs) "kid" ≡ some ctx.kid)
        × (integer (find (object fs) "seq") ≡ some seq)
        × (value_text (object fs) "mac"
            ≡ some (compute_mac c ctx.key (mac_input c msg ctx dir ctx.kid seq)))
  unfolding verify_auth
  verify_auth-verified msg ctx dir (some (object fs)) e =
      elim (Option-cases (value_text (object fs) "kid")) [
        | inl n ↦ cc (rw (n, ◌>>=◌) at e)
        | inr (kid, k) ↦ elim (Bool-cases (same_text kid ctx.kid)) [
          | inr other ↦ cc (rw (k, ◌>>=◌, other) at e)
          | inl same ↦
              let p : kid ≡ ctx.kid = (same_text_iff kid ctx.kid).0 same in
              let (seq, i, g) =
                verify_seq-verified msg ctx dir (object fs) kid (integer (find (object fs) "seq"))
                  (rw (k, ◌>>=◌, same) at e) in
              (
                fs,
                seq,
                refl,
                k ∙ ap some p,
                i,
                subst
                    (λ j.
                      value_text (object fs) "mac"
                      ≡ some (compute_mac c ctx.key (mac_input c msg ctx dir j seq)))
                    p g,
              )
        ]
      ]
  verify_auth-verified msg ctx dir _ e = cc

  -- A message that `verify` accepts has an `auth` object with the key id of the context, an integer
  -- sequence number, and the MAC of the message's own fields under the key of the context.
  pub verify-verified :
      (msg : Json) (ctx : AuthContext) (dir : Direction)
      → verify c msg ctx dir ≡ some verified
      → (fs : Fields) × (seq : ℤ) × (find msg "auth" ≡ some (object fs))
        × (value_text (object fs) "kid" ≡ some ctx.kid)
        × (integer (find (object fs) "seq") ≡ some seq)
        × (value_text (object fs) "mac"
            ≡ some (compute_mac c ctx.key (mac_input c msg ctx dir ctx.kid seq)))
  unfolding verify
  verify-verified msg ctx dir e = verify_auth-verified msg ctx dir (find msg "auth") e
