-- ===== src/Common/StringUtils.antt =====
-- common/src/utils/string_utils.cpp
pub mod Splitting
pub mod Trimming
use imsystem.Prelude.{
  ℕ, zero, suc, ◌+◌, ◌-◌, ◌%◌, ◌^◌, ◌&&◌, not, Option, none, some, List, [], ◌∷◌, ◌++◌, ltb, length,
  is_empty, drop, if◌then◌else◌,
}
use imsystem.Prelude.Texts.{Text}
use imsystem.Common.Chars.{is_space, npos, substr, starts_with}

-- `find_first_not_of` and `find_last_not_of` the six white space bytes.
unfoldable pub find_first_not_space : Text → Option ℕ
unfolding is_space
find_first_not_space [] = none
find_first_not_space (c ∷ t) =
    if is_space c
    then (elim (find_first_not_space t) [ none ↦ none | some i ↦ some (suc i) ])
    else some 0

unfoldable pub find_last_not_space : Text → Option ℕ
unfolding is_space
find_last_not_space [] = none
find_last_not_space (c ∷ t) = elim (find_last_not_space t) [
  | some i ↦ some (suc i)
  | none ↦ if is_space c then none else some 0
]

abbrev pub or_npos : Option ℕ → ℕ
or_npos none = npos
or_npos (some i) = i

-- `str.substr(start, end - start + 1)`, or the empty string if there is no start.
abbrev pub between : Text → Option ℕ → Option ℕ → Text
between str none end = []
between str (some start) end = substr str start ((or_npos end + 2 ^ 64 - start + 1) % 2 ^ 64)

unfoldable pub trim : Text → Text
unfolding find_first_not_space find_last_not_space
trim str = between str (find_first_not_space str) (find_last_not_space str)

-- `str.find(delimiter, prev)` on the text behind `prev`, or the length of the text.
unfoldable pub find_or_length : Text → ℕ → Text → ℕ
unfolding starts_with
find_or_length delimiter pos [] = pos
find_or_length delimiter pos (c ∷ t) =
    let later = find_or_length delimiter (pos + 1) t in
    if starts_with (c ∷ t) delimiter then pos else later

abbrev pub push_token : List Text → Text → List Text
push_token tokens token = if not (is_empty token) then tokens ++ token ∷ [] else tokens

-- The `do … while` loop on fuel; an empty delimiter makes no progress, and the loop does not end.
unfoldable pub split_loop : ℕ → Text → Text → ℕ → List Text → Option (List Text)
unfolding find_or_length
split_loop zero str delimiter prev tokens = none
split_loop (suc fuel) str delimiter prev tokens =
    let pos = find_or_length delimiter prev (drop prev str) in
    let tokens' = push_token tokens (substr str prev (pos - prev)) in
    let prev' = pos + length delimiter in
    let rest = split_loop fuel str delimiter prev' tokens' in
    if ltb pos (length str) && ltb prev' (length str) then rest else some tokens'

unfoldable pub split : Text → Text → Option (List Text)
unfolding split_loop
split str delimiter = split_loop (length str + 1) str delimiter 0 []
