-- ===== src/Security/Keys.antt =====
-- What a key text may be: `decode_hex_key` of src/security.cpp against the printing of bytes.
use Prim.Native.Char.{code}
use mathlib.Core.List.{append_assoc, append-nil}
use fountainer_client_framew.Common.{
  ℕ, ◌+◌, ◌*◌, ◌/◌, ◌%◌, ◌<◌, ◌≡◌, refl, sym, ap, ◌∙◌, subst, ◌↔◌, inl, inr, arith, true, false,
  ◌&&◌, ltb, leb, ◌==◌, Bool-cases, is_empty, Option, none, some, Option-cases, String, List, [],
  ◌∷◌, ◌++◌, All, length, length-append, List-cases, hex_digit, passes, passes_under, if◌then◌else◌,
}
use fountainer_client_framew.Error.{ok, Result-cases}
use fountainer_client_framew.Auth.{hex_text}
use fountainer_client_framew.Security.{Files, HmacCredentials, from_hex, from_file}
use fountainer_client_framew.Security.Hex.{is_space, nibble, decode_onto, decode_hex_key}

-- The codes of a text.
abbrev pub codes : String → List ℕ
codes String.[] = []
codes (String.◌∷◌ c s) = code c ∷ codes s

-- The code of the small letter for a capital.
abbrev pub small : ℕ → ℕ
small c = if leb 65 c && leb c 90 then c + 32 else c

-- The codes of a text without its white space, capitals made small.
unfoldable pub plain : String → List ℕ
plain String.[] = []
plain (String.◌∷◌ c s) = if is_space (code c) then plain s else small (code c) ∷ plain s

abbrev pub IsByte : ℕ → Type 0
IsByte b = b < 256

abbrev digit_code : ℕ → ℕ
digit_code d = if ltb d 10 then d + 48 else d + 87

digits_table : passes (λ d. code (hex_digit d) == digit_code d) 16 ≡ true
unfolding passes
digits_table = refl

code-hex_digit : (d : ℕ) → d < 16 → code (hex_digit d) ≡ digit_code d
code-hex_digit d h =
    ground (arith, passes_under (λ n. code (hex_digit n) == digit_code n) 16 digits_table d h)

nibble-digit : (c n : ℕ) → nibble c ≡ some n → (n < 16) × (small c ≡ digit_code n)
unfolding nibble
nibble-digit c n e = ground arith

nibble_of_digit : (c n : ℕ) → n < 16 → small c ≡ digit_code n → nibble c ≡ some n
unfolding nibble
nibble_of_digit c n h e = ground arith

is_space-digit : (c n : ℕ) → n < 16 → small c ≡ digit_code n → is_space c ≡ false
unfolding is_space
is_space-digit c n h e = ground arith

-- The digit that waits for its partner.
abbrev waiting : Option ℕ → List ℕ
waiting none = []
waiting (some h) = digit_code h ∷ []

abbrev IsNibble : Option ℕ → Type 0
IsNibble none = Unit {0}
IsNibble (some h) = h < 16

abbrev digits_of : List ℕ → List ℕ
digits_of [] = []
digits_of (b ∷ bs) = digit_code (b / 16) ∷ digit_code (b % 16) ∷ digits_of bs

codes-hex_text : (bs : List ℕ) → All IsByte bs → codes (hex_text bs) ≡ digits_of bs
unfolding hex_text
codes-hex_text [] h = refl
codes-hex_text (b ∷ bs) h = ground (
  arith,
  code-hex_digit (b / 16) (omega arith),
  code-hex_digit (b % 16) (omega arith),
  codes-hex_text bs h.1,
)

-- What has been read in front of what an accepted text holds.
abbrev Reads : String → List ℕ → Option ℕ → List ℕ → Type 0
Reads s bytes high k =
    (rest : List ℕ) × (k ≡ bytes ++ rest)
    × (waiting high ++ plain s ≡ digits_of rest)
    × All IsByte rest
    × (length k ≡ 32)

byte_lem :
    (s : String) (c n h : ℕ) (bytes k : List ℕ)
    → nibble c ≡ some n
    → h < 16
    → Reads s (bytes ++ (h * 16 + n) % 256 ∷ []) none k
    → (rest : List ℕ) × (k ≡ bytes ++ rest)
      × (digit_code h ∷ small c ∷ plain s ≡ digits_of rest)
      × All IsByte rest
      × (length k ≡ 32)
byte_lem s c n h bytes k e lt (rest, split, digits, small_bytes, size) =
    let p = nibble-digit c n e in
    let high : ((h * 16 + n) % 256) / 16 ≡ h = omega (arith, p.0) in
    let low : ((h * 16 + n) % 256) % 16 ≡ n = omega (arith, p.0) in
    (
      (h * 16 + n) % 256 ∷ rest,
      split ∙ append_assoc bytes _ rest,
      rw (high, low, p.1, digits) refl,
      (omega arith, small_bytes),
      size,
    )

decode_onto_sound :
    (s : String) (bytes : List ℕ) (high : Option ℕ) (k : List ℕ)
    → IsNibble high
    → decode_onto s bytes high ≡ ok k
    → Reads s bytes high k
unfolding decode_onto plain
decode_onto_sound String.[] bytes (some h) k lt e = cc
decode_onto_sound String.[] bytes none k lt e = elim (Bool-cases (length bytes == 32)) [
  | inl full ↦
      let p : bytes ≡ k = cc (rw full at e) in
      ([], sym p ∙ sym (append-nil bytes), refl, tt, ground (arith, ap length p))
  | inr other ↦ cc (rw other at e)
]
decode_onto_sound (String.◌∷◌ c s) bytes none k lt e = elim (Bool-cases (is_space (code c))) [
  | inl space ↦ rw space (decode_onto_sound s bytes none k lt (rw space at e))
  | inr visible ↦ rw visible (elim (Option-cases (nibble (code c))) [
    | inl bad ↦ cc (rw (visible, bad) at e)
    | inr (n, good) ↦
        let p = nibble-digit (code c) n good in
        subst
          (λ d.
            (rest : List ℕ) × (k ≡ bytes ++ rest)
            × (d ∷ plain s ≡ digits_of rest)
            × All IsByte rest
            × (length k ≡ 32))
          (sym p.1) (decode_onto_sound s bytes (some n) k p.0 (rw (visible, good) at e))
  ])
]
decode_onto_sound (String.◌∷◌ c s) bytes (some h) k lt e = elim (Bool-cases (is_space (code c))) [
  | inl space ↦ rw space (decode_onto_sound s bytes (some h) k lt (rw space at e))
  | inr visible ↦ rw visible (elim (Option-cases (nibble (code c))) [
    | inl bad ↦ cc (rw (visible, bad) at e)
    | inr (n, good) ↦
        byte_lem s (code c) n h bytes k good lt (
          decode_onto_sound s (bytes ++ (h * 16 + n) % 256 ∷ []) none k tt
            (rw (visible, good) at e))
  ])
]

decode_onto_complete :
    (s : String) (bytes : List ℕ) (high : Option ℕ) (rest : List ℕ)
    → IsNibble high
    → waiting high ++ plain s ≡ digits_of rest
    → All IsByte rest
    → length bytes + length rest ≡ 32
    → decode_onto s bytes high ≡ ok (bytes ++ rest)
unfolding decode_onto plain
decode_onto_complete String.[] bytes none [] lt e h size = ground (arith, append-nil bytes)
decode_onto_complete String.[] bytes none (b ∷ rest) lt e h size = cc
decode_onto_complete String.[] bytes (some d) [] lt e h size = cc
decode_onto_complete String.[] bytes (some d) (b ∷ rest) lt e h size = cc
decode_onto_complete (String.◌∷◌ c s) bytes none rest lt e h size =
    elim (Bool-cases (is_space (code c))) [
      | inl space ↦ rw space (decode_onto_complete s bytes none rest lt (rw space at e) h size)
      | inr visible ↦ elim (List-cases rest) [
        | inl empty ↦ cc (rw (visible, empty) at e)
        | inr (b, more, split) ↦
            let given : small (code c) ∷ plain s ≡ digits_of (b ∷ more) =
              rw (visible, split) at e in
            let byte : All IsByte (b ∷ more) = subst (All IsByte) split h in
            let p : small (code c) ≡ digit_code (b / 16) = cc given in
            let q : plain s ≡ digit_code (b % 16) ∷ digits_of more = cc given in
            let next =
              decode_onto_complete s bytes (some (b / 16)) (b ∷ more) (omega arith)
                (ap (λ t. digit_code (b / 16) ∷ t) q) byte
                (subst (λ t. length bytes + length t ≡ 32) split size) in
            rw (visible, nibble_of_digit (code c) (b / 16) (omega arith) p, split) next
      ]
    ]
decode_onto_complete (String.◌∷◌ c s) bytes (some d) rest lt e h size =
    elim (Bool-cases (is_space (code c))) [
      | inl space ↦ rw space (decode_onto_complete s bytes (some d) rest lt (rw space at e) h size)
      | inr visible ↦ elim (List-cases rest) [
        | inl empty ↦ cc (rw (visible, empty) at e)
        | inr (b, more, split) ↦
            let given : digit_code d ∷ small (code c) ∷ plain s ≡ digits_of (b ∷ more) =
              rw (visible, split) at e in
            let byte : All IsByte (b ∷ more) = subst (All IsByte) split h in
            let n : digit_code d ≡ digit_code (b / 16) = cc given in
            let p : small (code c) ≡ digit_code (b % 16) = cc given in
            let q : plain s ≡ digits_of more = cc given in
            let same : (d * 16 + b % 16) % 256 ≡ b = ground arith in
            let count : length (bytes ++ b ∷ []) + length more ≡ 32 =
              omega (arith, length-append bytes (b ∷ []), ap length split) in
            let next = decode_onto_complete s (bytes ++ b ∷ []) none more tt q byte.1 count in
            rw (visible, nibble_of_digit (code c) (b % 16) (omega arith) p, split, same)
              (next ∙ ap ok (append_assoc bytes (b ∷ []) more))
      ]
    ]

-- A text is accepted with the bytes `k` exactly if `k` is 32 bytes long and the text, without its
-- white space and with its capitals made small, is their hexadecimal.
pub decode_hex_key_iff :
    (s : String) (k : List ℕ)
    → (decode_hex_key s ≡ ok k) ↔ ((plain s ≡ codes (hex_text k)) × All IsByte k × (length k ≡ 32))
unfolding decode_hex_key
decode_hex_key_iff s k = (
  λ e.
      let (rest, split, digits, byte, size) = decode_onto_sound s [] none k tt e in
      let all : All IsByte k = subst (All IsByte) (sym split) byte in
      (digits ∙ ap digits_of (sym split) ∙ sym (codes-hex_text k all), all, size),
  λ (digits, byte, size).
      decode_onto_complete s [] none k tt (digits ∙ codes-hex_text k byte) byte (omega arith),
)

-- What a key file has to hold for the credentials `c` under the key id `kid`.
abbrev pub Accepted : String → String → HmacCredentials → Type 0
Accepted kid hex c =
    (is_empty kid ≡ false)
    × (c.kid ≡ kid)
    × (plain hex ≡ codes (hex_text c.key))
    × All IsByte c.key
    × (length c.key ≡ 32)

-- A text is accepted as a key under a key id exactly if the key id is not empty and the text,
-- without its white space and with its capitals made small, is the hexadecimal of the 32 bytes of
-- the credentials' key, which carry that key id.
pub from_hex_iff :
    (kid hex : String) (c : HmacCredentials) → (from_hex kid hex ≡ ok c) ↔ Accepted kid hex c
unfolding from_hex
from_hex_iff kid hex c = (
  λ e. elim (Bool-cases (is_empty kid)) [
    | inl empty ↦ cc (rw empty at e)
    | inr named ↦ elim (Result-cases (decode_hex_key hex)) [
      | inl (k, good) ↦
          let p : record { kid = kid; key = k } ≡ c = cc (rw (named, good) at e) in
          let h = (decode_hex_key_iff hex k).0 good in
          subst (Accepted kid hex) p (named, refl, h.0, h.1, h.2)
      | inr (x, bad) ↦ cc (rw (named, bad) at e)
    ]
  ],
  λ (named, same, digits, byte, size).
      rw (named, (decode_hex_key_iff hex c.key).1 (digits, byte, size)) (ground arith),
)

-- A key file is accepted under a key id exactly if it can be read and its contents are accepted.
pub from_file_iff :
    (files : Files) (kid path : String) (c : HmacCredentials)
    → (from_file files kid path ≡ ok c)
      ↔ ((contents : String) × (files path ≡ some contents) × Accepted kid contents c)
unfolding from_file
from_file_iff files kid path c = (
  λ e. elim (Option-cases (files path)) [
    | inl missing ↦ cc (rw (missing, from_file) at e)
    | inr (contents, found) ↦ elim (Result-cases (from_hex kid contents)) [
      | inl (d, good) ↦ (
        contents,
        found,
        (from_hex_iff kid contents c).0 (good ∙ rw (found, from_file, good) at e),
      )
      | inr (x, bad) ↦ cc (rw (found, from_file, bad) at e)
    ]
  ],
  λ (contents, found, accepted).
      rw (found, from_file, (from_hex_iff kid contents c).1 accepted) refl,
)
