-- ===== src/Prelude/Decimal.antt =====
-- `String(n)` for a natural number, and the number that a row of decimal digits denotes.
use jobrunner.Prelude.Tests.{ltb, if◌then◌else◌}
use jobrunner.Prelude.Text.{JsString}
use Prim.Native.Nat.{ℕ, zero, suc, ◌+◌, ◌-◌, ◌*◌, ◌/◌, ◌%◌, ◌<◌}
use mathlib.Core.Path.{◌≡◌, refl, sym, ap, ◌∙◌}
use mathlib.Core.List.{[], ◌∷◌, ◌++◌}
use native.Mathlib.Omega.{arith}

digits_from : ℕ → ℕ → JsString
digits_from zero n = []
digits_from (suc fuel) n =
    let more = digits_from fuel (n / 10) ++ (b'0' + n % 10) ∷ [] in
    if ltb n 10 then (b'0' + n) ∷ [] else more

-- A number has no more digits than its successor says.
unfoldable pub to_decimal : ℕ → JsString
unfolding digits_from
to_decimal n = digits_from (suc n) n

value_from : ℕ → JsString → ℕ
value_from acc [] = acc
value_from acc (c ∷ s) = value_from (acc * 10 + (c - b'0')) s

pub decimal_value : JsString → ℕ
decimal_value s = value_from 0 s

value_from-concat :
    (acc : ℕ) (s : JsString) (c : ℕ)
    → value_from acc (s ++ c ∷ []) ≡ value_from acc s * 10 + (c - b'0')
unfolding value_from
value_from-concat acc [] c = refl
value_from-concat acc (d ∷ s) c = value_from-concat (acc * 10 + (d - b'0')) s c

value-digits_from : (fuel n : ℕ) → n < fuel → value_from 0 (digits_from fuel n) ≡ n
unfolding digits_from value_from
value-digits_from zero n h = absurd (omega arith)
value-digits_from (suc fuel) n h = ground (
  arith,
  value-digits_from fuel (n / 10),
  value_from-concat 0 (digits_from fuel (n / 10)) (b'0' + n % 10),
)

pub decimal_value-to_decimal : (n : ℕ) → decimal_value (to_decimal n) ≡ n
unfolding decimal_value to_decimal
decimal_value-to_decimal n = value-digits_from (suc n) n (omega arith)

pub to_decimal-injective : (m n : ℕ) → to_decimal m ≡ to_decimal n → m ≡ n
to_decimal-injective m n e =
    sym (decimal_value-to_decimal m) ∙ ap decimal_value e ∙ decimal_value-to_decimal n
