-- ===== src/Common/StringUtils/Splitting.antt =====
-- When `StringUtils::Split` ends.
use imsystem.Prelude.{
  ℕ, zero, suc, ◌+◌, ◌≤◌, ◌<◌, none, some, List, [], ◌∷◌, ◌≡◌, refl, Bool-cases, inl, inr, ltb,
  lt→ltb, ◌&&◌, length, drop, arith,
}
use imsystem.Prelude.Texts.{Text}
use imsystem.Common.Chars.{starts_with}
use imsystem.Common.StringUtils.{find_or_length, split_loop, split}

le-find_or_length : (delimiter t : Text) (pos : ℕ) → pos ≤ find_or_length delimiter pos t
unfolding find_or_length
le-find_or_length delimiter [] pos = omega arith
le-find_or_length delimiter (c ∷ t) pos = elim (Bool-cases (starts_with (c ∷ t) delimiter)) [
  | inl e ↦ rw e (omega arith)
  | inr e ↦ rw e (omega (arith, le-find_or_length delimiter t (pos + 1)))
]

module _ (str delimiter : Text) (nonempty : 0 < length delimiter) where
  split_loop-ends :
      (fuel prev : ℕ) (tokens : List Text)
      → length str < fuel + prev
      → prev ≤ length str
      → (r : List Text) × (split_loop fuel str delimiter prev tokens ≡ some r)
  unfolding split_loop
  split_loop-ends zero prev tokens enough within = absurd (omega arith)
  split_loop-ends (suc fuel) prev tokens enough within =
      elim (Bool-cases (ltb pos (length str) && ltb (pos + length delimiter) (length str))) [
        | inl e ↦ rw e (
            split_loop-ends fuel (pos + length delimiter) _
              (ground (arith, le-find_or_length delimiter (drop prev str) prev)) (ground arith))
        | inr e ↦ rw e (_, refl)
      ]
    where
      pos : ℕ
      pos = find_or_length delimiter prev (drop prev str)

-- With a delimiter that is not empty the loop ends, within one pass for each byte and one more.
pub split-ends :
    (str delimiter : Text)
    → 0 < length delimiter
    → (tokens : List Text) × (split str delimiter ≡ some tokens)
unfolding split
split-ends str delimiter nonempty =
    split_loop-ends str delimiter nonempty (length str + 1) 0 [] (omega arith) (omega arith)

-- With an empty delimiter and a text that is not empty the loop does not end, however many passes
-- it is given.
pub split_loop-empty_delimiter :
    (fuel : ℕ) (c : ℕ) (t : Text) (tokens : List Text) → split_loop fuel (c ∷ t) [] 0 tokens ≡ none
unfolding split_loop find_or_length starts_with
split_loop-empty_delimiter zero c t tokens = refl
split_loop-empty_delimiter (suc fuel) c t tokens =
    rw (lt→ltb 0 (suc (length t)) (omega arith)) (split_loop-empty_delimiter fuel c t tokens)
