-- ===== src/Common/Decimal.antt =====
-- `std::to_string` of a number, and how to read it back.
use Prim.Native.Char.{Char, code}
use Prim.Native.String.{String}
use Prim.Native.Nat.{ℕ, zero, suc, ◌+◌, ◌-◌, ◌*◌, ◌/◌, ◌%◌, ◌<◌}
use mathlib.Core.Path.{◌≡◌, refl, sym, ap, ◌∙◌}
use mathlib.Core.Bool.{true, false}
use mathlib.Core.Logic.{inl, inr}
use native.Mathlib.Omega.{arith}
use fountainer_client_framew.Common.Tests.{ltb, Bool-cases, ltb→lt, ltb→ge, if◌then◌else◌}

-- The digit of a value below 16: decimal digits, `%x`, and `hex[…]` of src/protocol/auth.cpp.
abbrev pub hex_digit : ℕ → Char
hex_digit zero = "0"
hex_digit (suc zero) = "1"
hex_digit (suc (suc zero)) = "2"
hex_digit (suc (suc (suc zero))) = "3"
hex_digit (suc (suc (suc (suc zero)))) = "4"
hex_digit (suc (suc (suc (suc (suc zero))))) = "5"
hex_digit (suc (suc (suc (suc (suc (suc zero)))))) = "6"
hex_digit (suc (suc (suc (suc (suc (suc (suc zero))))))) = "7"
hex_digit (suc (suc (suc (suc (suc (suc (suc (suc zero)))))))) = "8"
hex_digit (suc (suc (suc (suc (suc (suc (suc (suc (suc zero))))))))) = "9"
hex_digit (suc (suc (suc (suc (suc (suc (suc (suc (suc (suc zero)))))))))) = "a"
hex_digit (suc (suc (suc (suc (suc (suc (suc (suc (suc (suc (suc zero))))))))))) = "b"
hex_digit (suc (suc (suc (suc (suc (suc (suc (suc (suc (suc (suc (suc zero)))))))))))) = "c"
hex_digit (suc (suc (suc (suc (suc (suc (suc (suc (suc (suc (suc (suc (suc zero))))))))))))) = "d"
hex_digit (suc (suc (suc (suc (suc (suc (suc (suc (suc (suc (suc (suc (suc (suc zero)))))))))))))) =
    "e"
hex_digit _ = "f"

-- The value of a digit, as its code gives it.
abbrev pub hex_value : ℕ → ℕ
hex_value n = if ltb n 58 then n - 48 else n - 87

pub hex_value-hex_digit : (d : ℕ) → d < 16 → hex_value (code (hex_digit d)) ≡ d
hex_value-hex_digit zero h = refl
hex_value-hex_digit (suc zero) h = refl
hex_value-hex_digit (suc (suc zero)) h = refl
hex_value-hex_digit (suc (suc (suc zero))) h = refl
hex_value-hex_digit (suc (suc (suc (suc zero)))) h = refl
hex_value-hex_digit (suc (suc (suc (suc (suc zero))))) h = refl
hex_value-hex_digit (suc (suc (suc (suc (suc (suc zero)))))) h = refl
hex_value-hex_digit (suc (suc (suc (suc (suc (suc (suc zero))))))) h = refl
hex_value-hex_digit (suc (suc (suc (suc (suc (suc (suc (suc zero)))))))) h = refl
hex_value-hex_digit (suc (suc (suc (suc (suc (suc (suc (suc (suc zero))))))))) h = refl
hex_value-hex_digit (suc (suc (suc (suc (suc (suc (suc (suc (suc (suc zero)))))))))) h = refl
hex_value-hex_digit (suc (suc (suc (suc (suc (suc (suc (suc (suc (suc (suc zero))))))))))) h = refl
hex_value-hex_digit (suc (suc (suc (suc (suc (suc (suc (suc (suc (suc (suc (suc zero)))))))))))) h =
    refl
hex_value-hex_digit
      (suc (suc (suc (suc (suc (suc (suc (suc (suc (suc (suc (suc (suc zero))))))))))))) h =
    refl
hex_value-hex_digit
      (suc (suc (suc (suc (suc (suc (suc (suc (suc (suc (suc (suc (suc (suc zero)))))))))))))) h =
    refl
hex_value-hex_digit
      (suc (suc (suc (suc (suc (suc (suc (suc (suc (suc (suc (suc (suc (suc (suc zero)))))))))))))))
      h =
    refl
hex_value-hex_digit
      (suc
        (suc (suc (suc (suc (suc (suc (suc (suc (suc (suc (suc (suc (suc (suc (suc d))))))))))))))))
      h =
    absurd (omega arith)

-- The digits of `n` in front of `s`; a number has no more digits than its value plus one.
show_onto : ℕ → ℕ → String → String
show_onto zero n s = s
show_onto (suc fuel) n s = elim (ltb n 10) [
  | true ↦ String.◌∷◌ (hex_digit n) s
  | false ↦ show_onto fuel (n / 10) (String.◌∷◌ (hex_digit (n % 10)) s)
]

unfoldable pub decimal : ℕ → String
unfolding show_onto
decimal n = show_onto (suc n) n ""

read_onto : ℕ → String → ℕ
read_onto n String.[] = n
read_onto n (String.◌∷◌ c s) = read_onto (n * 10 + hex_value (code c)) s

read_onto-show_onto :
    (fuel n : ℕ) (s : String) → n < fuel → read_onto 0 (show_onto fuel n s) ≡ read_onto n s
unfolding show_onto read_onto
read_onto-show_onto zero n s h = absurd (omega arith)
read_onto-show_onto (suc fuel) n s h = elim (Bool-cases (ltb n 10)) [
  | inl small ↦
      let c = hex_value-hex_digit n (omega (arith, ltb→lt n 10 small)) in
      rw (small, show_onto) (ap (λ k. read_onto k s) (omega (arith, c)))
  | inr big ↦
      let c = hex_value-hex_digit (n % 10) (omega arith) in
      let below : n / 10 < fuel = omega (arith, ltb→ge n 10 big) in
      rw (big, show_onto)
        (read_onto-show_onto fuel (n / 10) _ below ∙ ap (λ k. read_onto k s) (omega (arith, c)))
]

-- Different numbers have different decimals.
pub decimal_injective : (m n : ℕ) → decimal m ≡ decimal n → m ≡ n
unfolding decimal read_onto
decimal_injective m n e =
    sym (read_onto-show_onto (suc m) m "" (omega arith))
    ∙ ap (read_onto 0) e
    ∙ read_onto-show_onto (suc n) n "" (omega arith)
