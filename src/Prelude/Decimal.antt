-- ===== src/Prelude/Decimal.antt =====
-- Decimal numbers as Rust's `to_string` prints them and `str::parse` reads them.
use Prim.Native.Nat.{ℕ, zero, suc, ◌+◌, ◌-◌, ◌*◌, ◌/◌, ◌%◌, ◌<◌, ◌≤◌}
use mathlib.Core.Path.{◌≡◌, refl, ◌∙◌}
use mathlib.Core.Bool.{Bool, ◌&&◌}
use mathlib.Core.Logic.{inl, inr}
use mathlib.Core.List.{[], ◌∷◌}
use native.Mathlib.Omega.{arith}
use node_access.Prelude.Tests.{ltb, leb, eqb, if◌then◌else◌, Bool-cases}
use node_access.Prelude.Strings.{Text}

-- The digits of a number in front of what follows; each round takes the last one.
unfoldable pub digits : ℕ → ℕ → Text → Text
digits zero n out = out
digits (suc fuel) n out =
    let rest = digits fuel (n / 10) ((48 + n % 10) ∷ out) in
    if ltb n 10 then (48 + n) ∷ out else rest

-- The number is fuel enough, since each round makes a number below it of it.
unfoldable pub to_string : ℕ → Text
unfolding digits
to_string n = digits (suc n) n []

pub data IntError : Type 0 where
  empty_text invalid_digit overflow : IntError

pub data ParsedInt : Type 0 where
  number : ℕ → ParsedInt
  not_int : IntError → ParsedInt

unfoldable pub is_digit : ℕ → Bool
is_digit c = leb 48 c && leb c 57

-- The loop over the digits, of a type that holds the numbers below `bound`.
unfoldable pub parse_digits : ℕ → Text → ℕ → ParsedInt
unfolding is_digit
parse_digits bound [] n = number n
parse_digits bound (c ∷ s) n =
    let m = n * 10 + (c - 48) in
    let rest = parse_digits bound s m in
    if is_digit c then (if ltb m bound then rest else not_int overflow) else not_int invalid_digit

-- What stands behind an optional `+`.
parse_unsigned : ℕ → Text → ParsedInt
unfolding parse_digits
parse_unsigned bound [] = not_int invalid_digit
parse_unsigned bound (c ∷ s) = parse_digits bound (c ∷ s) 0

-- `str::parse` at an unsigned type.
unfoldable pub parse_int : ℕ → Text → ParsedInt
unfolding parse_unsigned
parse_int bound [] = not_int empty_text
parse_int bound (c ∷ s) = if eqb c 43 then parse_unsigned bound s else parse_unsigned bound (c ∷ s)

parse_digits-last :
    (bound n : ℕ) (out : Text)
    → n < bound
    → parse_digits bound ((48 + n % 10) ∷ out) (n / 10) ≡ parse_digits bound out n
unfolding parse_digits is_digit
parse_digits-last bound n out h =
    let e : n / 10 * 10 + (48 + n % 10 - 48) ≡ n = omega arith in rw e (ground arith)

parse_digits-first :
    (bound n : ℕ) (out : Text)
    → n < 10
    → n < bound
    → parse_digits bound ((48 + n) ∷ out) 0 ≡ parse_digits bound out n
unfolding parse_digits is_digit
parse_digits-first bound n out h k =
    let e : 0 * 10 + (48 + n - 48) ≡ n = omega arith in rw e (ground arith)

parse_digits-digits :
    (bound fuel n : ℕ) (out : Text)
    → n < fuel
    → n < bound
    → parse_digits bound (digits fuel n out) 0 ≡ parse_digits bound out n
unfolding digits
parse_digits-digits bound zero n out h k = absurd (omega arith)
parse_digits-digits bound (suc fuel) n out h k = elim (Bool-cases (ltb n 10)) [
  | inl y ↦ rw y (parse_digits-first bound n out (ground arith) k)
  | inr y ↦ rw y (
      parse_digits-digits bound fuel (n / 10) ((48 + n % 10) ∷ out) (ground arith) (omega arith)
      ∙ parse_digits-last bound n out k)
]

-- A text that begins like a digit or behind one.
abbrev StartsLate : Text → Type 0
StartsLate t = (c : ℕ) × (rest : Text) × (48 ≤ c) × (t ≡ c ∷ rest)

digits-StartsLate : (fuel n : ℕ) (out : Text) → n < fuel → StartsLate (digits fuel n out)
unfolding digits
digits-StartsLate zero n out h = absurd (omega arith)
digits-StartsLate (suc fuel) n out h = elim (Bool-cases (ltb n 10)) [
  | inl y ↦ rw y (48 + n, out, omega arith, refl)
  | inr y ↦ rw y (digits-StartsLate fuel (n / 10) ((48 + n % 10) ∷ out) (ground arith))
]

parse_int-late : (bound : ℕ) (t : Text) → StartsLate t → parse_int bound t ≡ parse_digits bound t 0
unfolding parse_int parse_unsigned
parse_int-late bound t (c, rest, h, e) = rw e (ground arith)

-- A number below the bound of its type is read back from its print.
pub parse_int-to_string : (bound n : ℕ) → n < bound → parse_int bound (to_string n) ≡ number n
unfolding to_string parse_digits
parse_int-to_string bound n h =
    parse_int-late bound (digits (suc n) n []) (digits-StartsLate (suc n) n [] (omega arith))
    ∙ parse_digits-digits bound (suc n) n [] (omega arith) h
