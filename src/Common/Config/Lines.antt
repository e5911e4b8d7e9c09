-- ===== src/Common/Config/Lines.antt =====
-- The helpers on one line of config_manager.cpp.
use imsystem.Prelude.{
  ℕ, zero, suc, ◌-◌, Bool, true, ◌&&◌, ◌||◌, not, Option, none, some, List, [], ◌∷◌, ◌++◌, ltb, leb,
  ◌==◌, length, is_empty, if◌then◌else◌,
}
use imsystem.Prelude.Texts.{Text}
use imsystem.Common.Chars.{is_space, substr}

-- A byte of a string, which the callers keep in range.
abbrev pub byte_at : Text → ℕ → ℕ
byte_at [] i = 0
byte_at (c ∷ t) zero = c
byte_at (c ∷ t) (suc i) = byte_at t i

-- The bytes at the head that pass a test: where a loop from the left stops.
unfoldable pub count_leading : (ℕ → Bool) → Text → ℕ
count_leading test [] = 0
count_leading test (c ∷ t) = if test c then suc (count_leading test t) else 0

-- `while (end > start && is_space(s[end - 1])) end--`
unfoldable pub trim_end : Text → ℕ → ℕ → ℕ
unfolding is_space
trim_end s start zero = 0
trim_end s start (suc e) =
    let less = trim_end s start e in
    if ltb start (suc e) && is_space (byte_at s e) then less else suc e

unfoldable pub trim : Text → Text
unfolding count_leading trim_end is_space
trim s =
    let start = count_leading is_space s in
    let end = trim_end s start (length s) in substr s start (end - start)

abbrev pub last_or : ℕ → Text → ℕ
last_or d [] = d
last_or d (c ∷ t) = last_or c t

-- One pair of the same quotes around the value is taken off.
unfoldable pub unquote : Text → Text
unquote v =
    let a = byte_at v 0 in
    let b = last_or 0 v in
    if leb 2 (length v) && ((a == b'"' && b == b'"') || (a == b'\'' && b == b'\''))
    then substr v 1 (length v - 2)
    else v

unfoldable pub count_leading_spaces : Text → ℕ
unfolding count_leading
count_leading_spaces s = count_leading (λ c. c == 32) s

-- The bytes before the first `#` that is at the start or behind a white space; `before` is the byte
-- in front, if there is one.
unfoldable pub strip_from : Option ℕ → Text → Text
unfolding is_space
strip_from before [] = []
strip_from before (c ∷ t) =
    let kept = c ∷ strip_from (some c) t in
    if c == b'#' && (elim before [ none ↦ true | some b ↦ is_space b ]) then [] else kept

unfoldable pub strip_inline_comment : Text → Text
unfolding strip_from
strip_inline_comment s = strip_from none s

-- The loop of `JoinKeys`.
unfoldable pub join_onto : Text → List Text → Text
join_onto out [] = out
join_onto out (k ∷ ks) =
    join_onto
      (if is_empty k then out else ((if not (is_empty out) then out ++ b'.' ∷ [] else out) ++ k)) ks

unfoldable pub join_keys : List Text → Text
unfolding join_onto
join_keys stack = join_onto [] stack
