-- ===== src/Common/Chars.antt =====
-- What the C++ library does that the sources call on bytes and strings: <cctype> in the C locale,
-- `std::to_string`, `std::stoi`, `std::stoull`, and members of `std::string`.
pub mod Numbers
pub mod Decimal
pub mod Finding
use imsystem.Prelude.{
  ℕ, zero, suc, ◌+◌, ◌-◌, ◌^◌, Bool, true, false, ◌&&◌, ◌||◌, Option, none, some, [], ◌∷◌, leb,
  ◌==◌, take, drop, if◌then◌else◌,
}
use imsystem.Prelude.Texts.{Text, text_eq}

unfoldable pub is_space : ℕ → Bool
is_space c = c == 32 || (leb 9 c && leb c 13)

unfoldable pub is_digit : ℕ → Bool
is_digit c = leb b'0' c && leb c b'9'

unfoldable pub to_lower : ℕ → ℕ
to_lower c = if leb b'A' c && leb c b'Z' then c + 32 else c

abbrev pub npos : ℕ
npos = 2 ^ 64 - 1

-- `s.substr(pos, count)`, for a position within the string.
abbrev pub substr : Text → ℕ → ℕ → Text
substr s pos count = take count (drop pos s)

-- `s.find(c)`
unfoldable pub find_char : ℕ → Text → Option ℕ
find_char c [] = none
find_char c (d ∷ t) =
    if d == c then some 0 else (elim (find_char c t) [ none ↦ none | some i ↦ some (suc i) ])

abbrev pub beyond : ℕ → Option ℕ → Option ℕ
beyond start none = none
beyond start (some i) = some (start + i)

-- `s.find(c, start)`, for a position within the string.
unfoldable pub find_from : ℕ → ℕ → Text → Option ℕ
find_from c start s = beyond start (find_char c (drop start s))

-- `s.find_last_of(c)`
unfoldable pub find_last_of : ℕ → Text → Option ℕ
find_last_of c [] = none
find_last_of c (d ∷ t) = elim (find_last_of c t) [
  | some i ↦ some (suc i)
  | none ↦ if d == c then some 0 else none
]

-- The head of the string is the prefix.
unfoldable pub starts_with : Text → Text → Bool
starts_with t [] = true
starts_with [] (p ∷ ps) = false
starts_with (c ∷ t) (p ∷ ps) = c == p && starts_with t ps

-- `s.find(needle)`
unfoldable pub find_text : Text → Text → Option ℕ
unfolding starts_with
find_text needle [] = if starts_with [] needle then some 0 else none
find_text needle (c ∷ t) =
    let later = beyond 1 (find_text needle t) in
    if starts_with (c ∷ t) needle then some 0 else later
