-- ===== src/Text/Decimal.antt =====
-- `str(n)` of a natural number, and that two numbers with one text are equal.
-- Models no file of the repository.
use deepdive.Base.{
  ℕ, zero, suc, ◌+◌, ◌-◌, ◌*◌, ◌/◌, ◌%◌, ◌<◌, ◌≤◌, ◌≡◌, [], ◌∷◌, arith, ltb, if◌then◌else◌, All,
}
use deepdive.Text.{Text}

-- The fuel is above the number, so each round may divide by ten.
unfoldable pub digits_fuel : ℕ → ℕ → Text → Text
digits_fuel zero n out = out
digits_fuel (suc f) n out =
    let more = digits_fuel f (n / 10) ((b'0' + n % 10) ∷ out) in
    if ltb n 10 then (b'0' + n) ∷ out else more

-- `str(n)`
unfoldable pub decimal : ℕ → Text
unfolding digits_fuel
decimal n = digits_fuel (suc n) n []

-- The number that a row of digits stands for, after a prefix that stands for `acc`.
read_digits : ℕ → Text → ℕ
read_digits acc [] = acc
read_digits acc (c ∷ s) = read_digits (acc * 10 + (c - b'0')) s

read_digits-digits_fuel :
    (f n : ℕ) (out : Text) → n < f → read_digits 0 (digits_fuel f n out) ≡ read_digits n out
unfolding digits_fuel read_digits
read_digits-digits_fuel zero n out h = absurd (omega arith)
read_digits-digits_fuel (suc f) n out h =
    ground (arith, read_digits-digits_fuel f (n / 10) ((b'0' + n % 10) ∷ out))

pub decimal-injective : (n m : ℕ) → decimal n ≡ decimal m → n ≡ m
unfolding decimal read_digits
decimal-injective n m e = cc (
  read_digits-digits_fuel (suc n) n [] (omega arith),
  read_digits-digits_fuel (suc m) m [] (omega arith),
  e,
)

abbrev pub IsDigit : ℕ → Type 0
IsDigit c = (b'0' ≤ c) × (c ≤ b'9')

digits_fuel-IsDigit : (f n : ℕ) (out : Text) → All IsDigit out → All IsDigit (digits_fuel f n out)
unfolding digits_fuel
digits_fuel-IsDigit zero n out h = h
digits_fuel-IsDigit (suc f) n out h =
    ground (arith, digits_fuel-IsDigit f (n / 10) ((b'0' + n % 10) ∷ out))

-- `str(n)` has digits only.
pub decimal-IsDigit : (n : ℕ) → All IsDigit (decimal n)
unfolding decimal
decimal-IsDigit n = digits_fuel-IsDigit (suc n) n [] tt
