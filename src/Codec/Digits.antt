-- ===== src/Codec/Digits.antt =====
-- `strtoull` reads what `%016llX` prints.
use Prim.Native.Char.{code}
use fountainer_client_framew.Common.{
  ℕ, zero, suc, ◌*◌, ◌/◌, ◌%◌, ◌<◌, ◌≡◌, refl, sym, ap, ◌∙◌, subst, arith, Bool, true, false, not,
  ◌&&◌, ◌==◌, Option, none, some, String, passes, passes_under, u64_mod,
}
use fountainer_client_framew.Security.Hex.{is_space, nibble}
use fountainer_client_framew.Codec.Wide.{
  upper_digit, digits_onto, print_u64, c_str, skip_spaces, after_sign, after_prefix,
  starts_with_digit, read_digits, strtoull, minus, plus,
}

abbrev is_nibble : Option ℕ → ℕ → Bool
is_nibble none d = false
is_nibble (some n) d = n == d

is_plain_digit : ℕ → Bool
is_plain_digit d =
    let c = code (upper_digit d) in
    is_nibble (nibble c) d
    && not (is_space c)
    && not (c == 0)
    && not (c == minus)
    && not (c == plus)
    && not (c == 120)
    && not (c == 88)

digits_table : passes is_plain_digit 16 ≡ true
unfolding passes is_plain_digit nibble is_space
digits_table = refl

record PlainDigit (d : ℕ) : Type 0 where
  pub value : nibble (code (upper_digit d)) ≡ some d
  pub visible : is_space (code (upper_digit d)) ≡ false
  pub ends : (code (upper_digit d) == 0) ≡ false
  pub no_minus : (code (upper_digit d) == minus) ≡ false
  pub no_plus : (code (upper_digit d) == plus) ≡ false
  pub small_x : (code (upper_digit d) == 120) ≡ false
  pub capital_x : (code (upper_digit d) == 88) ≡ false

plain_digit : (d : ℕ) → d < 16 → PlainDigit d
unfolding is_plain_digit
plain_digit d h = let k = passes_under is_plain_digit 16 digits_table d h in ground arith

-- 16 ^ k.
pow16 : ℕ → ℕ
pow16 zero = 1
pow16 (suc k) = pow16 k * 16

read_digits-digits_onto :
    (k n : ℕ) (s : String) → n < pow16 k → read_digits 0 (digits_onto k n s) ≡ read_digits n s
unfolding digits_onto pow16 read_digits
read_digits-digits_onto zero n s h = ap (λ m. read_digits m s) (omega arith)
read_digits-digits_onto (suc k) n s h =
    let digit = plain_digit (n % 16) (omega arith) in
    let below : n / 16 < pow16 k = omega arith in
    read_digits-digits_onto k (n / 16) (String.◌∷◌ (upper_digit (n % 16)) s) below
    ∙ rw (digit.value, read_digits) (ap (λ m. read_digits m s) (omega arith))

c_str-digits_onto : (k n : ℕ) (s : String) → c_str (digits_onto k n s) ≡ digits_onto k n (c_str s)
unfolding digits_onto c_str
c_str-digits_onto zero n s = refl
c_str-digits_onto (suc k) n s =
    let digit = plain_digit (n % 16) (omega arith) in
    c_str-digits_onto k (n / 16) (String.◌∷◌ (upper_digit (n % 16)) s)
    ∙ ap (digits_onto k (n / 16)) (rw digit.ends refl)

-- Two digits and what follows.
TwoDigits : String → Type 0
TwoDigits t =
    (a b : ℕ) × (s : String) × (a < 16)
    × (b < 16)
    × (t ≡ String.◌∷◌ (upper_digit a) (String.◌∷◌ (upper_digit b) s))

digits_onto-TwoDigits : (k n : ℕ) (s : String) → TwoDigits (digits_onto (suc (suc k)) n s)
unfolding digits_onto TwoDigits
digits_onto-TwoDigits zero n s = (n / 16 % 16, n % 16, s, omega arith, omega arith, refl)
digits_onto-TwoDigits (suc k) n s =
    digits_onto-TwoDigits k (n / 16) (String.◌∷◌ (upper_digit (n % 16)) s)

-- Two digits are no white space, no sign and no prefix.
module _ (a b : ℕ) (s : String) (ha : a < 16) (hb : b < 16) where
  abbrev shown : String
  shown = String.◌∷◌ (upper_digit a) (String.◌∷◌ (upper_digit b) s)

  skip_spaces-shown : skip_spaces shown ≡ shown
  unfolding skip_spaces
  skip_spaces-shown = rw (plain_digit a ha).visible refl

  after_sign-shown : after_sign shown ≡ (false, shown)
  unfolding after_sign
  after_sign-shown = rw ((plain_digit a ha).no_minus, (plain_digit a ha).no_plus) refl

  after_prefix-shown : after_prefix shown ≡ shown
  unfolding after_prefix
  after_prefix-shown = let d = plain_digit b hb in rw (d.small_x, d.capital_x) (ground arith)

  starts_with_digit-shown : starts_with_digit shown ≡ true
  unfolding starts_with_digit
  starts_with_digit-shown = rw ((plain_digit a ha).value, starts_with_digit) refl

  strtoull-shown :
      (n : ℕ) (rest : String)
      → read_digits 0 shown ≡ (n, rest)
      → n < u64_mod
      → strtoull shown ≡ some (n, false, rest)
  unfolding strtoull
  strtoull-shown n rest e h =
      rw (skip_spaces-shown, after_sign-shown, after_prefix-shown, starts_with_digit-shown, e)
        (ground arith)

pow16-u64 : pow16 16 ≡ u64_mod
unfolding pow16
pow16-u64 = refl

c_str-print_u64 : (n : ℕ) → c_str (print_u64 n) ≡ digits_onto 16 n ""
unfolding print_u64 c_str
c_str-print_u64 n = c_str-digits_onto 16 n ""

read_digits-nil : (n : ℕ) → read_digits n "" ≡ (n, "")
unfolding read_digits
read_digits-nil n = refl

-- What `%016llX` prints is read back, whole and in range.
pub strtoull-print_u64 :
    (n : ℕ) → n < u64_mod → strtoull (c_str (print_u64 n)) ≡ some (n, false, "")
unfolding TwoDigits
strtoull-print_u64 n h =
    let (a, b, s, ha, hb, split) = digits_onto-TwoDigits 14 n "" in
    let all =
      read_digits-digits_onto 16 n "" (subst (λ m. n < m) (sym pow16-u64) h) ∙ read_digits-nil n in
    ap strtoull (c_str-print_u64 n ∙ split)
    ∙ strtoull-shown a b s ha hb n "" (subst (λ t. read_digits 0 t ≡ (n, "")) split all) h
