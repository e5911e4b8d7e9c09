-- ===== src/Common/Chars/Numbers.antt =====
-- Decimal numbers, as `std::to_string` writes and `std::stoi` and `std::stoull` read them.
use imsystem.Prelude.{
  ℕ, zero, suc, ◌+◌, ◌-◌, ◌*◌, ◌/◌, ◌%◌, ◌^◌, Option, none, some, [], ◌∷◌, ltb, leb, ◌==◌,
  if◌then◌else◌,
}
use imsystem.Prelude.Int.{ℤ, pos, negsuc}
use imsystem.Prelude.Texts.{Text}
use imsystem.Common.Chars.{is_space, is_digit}

-- The digits of n in front of `acc`, on fuel: each round drops the last digit.
unfoldable pub digits : ℕ → ℕ → Text → Text
digits zero n acc = acc
digits (suc fuel) n acc =
    let more = digits fuel (n / 10) ((48 + n % 10) ∷ acc) in
    if ltb n 10 then (48 + n) ∷ acc else more

-- A number below 10 ^ f has at most f digits.
unfoldable pub to_string : ℕ → Text
unfolding digits
to_string n = digits (suc n) n []

-- The value of the digits at the head, or none if there is no digit.
unfoldable pub read_digits : ℕ → Text → ℕ
read_digits acc [] = acc
read_digits acc (c ∷ t) =
    let more = read_digits (acc * 10 + (c - 48)) t in if is_digit c then more else acc

unfoldable pub read_nat : Text → Option ℕ
unfolding read_digits is_digit
read_nat [] = none
read_nat (c ∷ t) = if is_digit c then some (read_digits 0 (c ∷ t)) else none

unfoldable pub skip_spaces : Text → Text
unfolding is_space
skip_spaces [] = []
skip_spaces (c ∷ t) = let rest = skip_spaces t in if is_space c then rest else c ∷ t

-- -n, if it is at least -limit.
abbrev pub negated : ℕ → ℕ → Option ℤ
negated limit zero = some (pos 0)
negated limit (suc n) = if leb (suc n) limit then some (negsuc n) else none

abbrev pub signed_int : Text → Option ℤ
signed_int [] = none
signed_int (c ∷ t) =
    if c == b'-'
    then (elim (read_nat t) [ none ↦ none | some n ↦ negated (2 ^ 31) n ])
    else (elim (read_nat (if c == b'+' then t else c ∷ t)) [
      | none ↦ none
      | some n ↦ if ltb n (2 ^ 31) then some (pos n) else none
    ])

-- `std::stoi`: none is `invalid_argument` or `out_of_range`; what follows the digits is ignored.
unfoldable pub stoi : Text → Option ℤ
unfolding read_nat skip_spaces
stoi s = signed_int (skip_spaces s)

-- A minus sign wraps around, as `strtoull` does.
abbrev pub unsigned_long : Text → Option ℕ
unsigned_long [] = none
unsigned_long (c ∷ t) =
    if c == b'-'
    then (elim (read_nat t) [
      | none ↦ none
      | some n ↦ if ltb n (2 ^ 64) then some ((2 ^ 64 - n) % 2 ^ 64) else none
    ])
    else (elim (read_nat (if c == b'+' then t else c ∷ t)) [
      | none ↦ none
      | some n ↦ if ltb n (2 ^ 64) then some n else none
    ])

-- `std::stoull`
unfoldable pub stoull : Text → Option ℕ
unfolding read_nat skip_spaces
stoull s = unsigned_long (skip_spaces s)
