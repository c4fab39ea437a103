-- ===== src/Base/Decimal.antt =====
-- `strconv.Itoa` and `%d` on natural numbers, and the reading of their digits.
use Prim.Native.Char.{Char, code}
use Prim.Native.Nat.{ℕ, zero, suc, ◌+◌, ◌-◌, ◌*◌, ◌/◌, ◌%◌, ◌<◌}
use Prim.Native.String.{String, char_at}
use mathlib.Core.Path.{◌≡◌, refl}
use mathlib.Core.Logic.{inl, inr}
use mathlib.Core.Bool.{◌&&◌}
use mathlib.Core.Option.{Option, none, some}
use native.Mathlib.Omega.{arith}
use consul_ecs.Base.Tests.{ltb, leb, Bool-cases, if◌then◌else◌}

unfoldable pub digit : ℕ → Char
digit n = char_at "0123456789" n

-- The digits of `n` in front of those made so far: one round for each digit, on fuel.
unfoldable pub digits : ℕ → ℕ → String → String
unfolding digit
digits zero n out = out
digits (suc fuel) n out =
    let more = digits fuel (n / 10) (String.◌∷◌ (digit (n % 10)) out) in
    if ltb n 10 then String.◌∷◌ (digit n) out else more

unfoldable pub itoa : ℕ → String
unfolding digits
itoa n = digits (suc n) n ""

-- The number that the digits spell behind `n`.
unfoldable pub read_digits : ℕ → String → Option ℕ
read_digits n String.[] = some n
read_digits n (String.◌∷◌ c s) =
    let rest = read_digits (n * 10 + (code c - b'0')) s in
    if leb b'0' (code c) && leb (code c) b'9' then rest else none

pub digit_code : (d : ℕ) → d < 10 → code (digit d) ≡ b'0' + d
unfolding digit
digit_code zero h = refl
digit_code (suc zero) h = refl
digit_code (suc (suc zero)) h = refl
digit_code (suc (suc (suc zero))) h = refl
digit_code (suc (suc (suc (suc zero)))) h = refl
digit_code (suc (suc (suc (suc (suc zero))))) h = refl
digit_code (suc (suc (suc (suc (suc (suc zero)))))) h = refl
digit_code (suc (suc (suc (suc (suc (suc (suc zero))))))) h = refl
digit_code (suc (suc (suc (suc (suc (suc (suc (suc zero)))))))) h = refl
digit_code (suc (suc (suc (suc (suc (suc (suc (suc (suc zero))))))))) h = refl
digit_code (suc (suc (suc (suc (suc (suc (suc (suc (suc (suc d)))))))))) h = absurd (omega arith)

read_digit :
    (n d : ℕ) (s : String)
    → d < 10
    → read_digits n (String.◌∷◌ (digit d) s) ≡ read_digits (n * 10 + d) s
unfolding read_digits
read_digit n d s h = ground (arith, digit_code d h)

read-digits :
    (fuel n : ℕ) (out : String) → n < fuel → read_digits 0 (digits fuel n out) ≡ read_digits n out
unfolding digits
read-digits zero n out h = absurd (omega arith)
read-digits (suc fuel) n out h = elim (Bool-cases (ltb n 10)) [
  | inl small ↦ ground (arith, read_digit 0 n out)
  | inr large ↦ ground (
    arith,
    read-digits fuel (n / 10) (String.◌∷◌ (digit (n % 10)) out),
    read_digit (n / 10) (n % 10) out,
  )
]

-- A number is read back from its print.
pub read-itoa : (n : ℕ) → read_digits 0 (itoa n) ≡ some n
unfolding itoa read_digits
read-itoa n = ground (arith, read-digits (suc n) n "")
