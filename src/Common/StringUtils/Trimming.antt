-- ===== src/Common/StringUtils/Trimming.antt =====
-- `StringUtils::Trim` against the `Trim` of the configuration.
use imsystem.Prelude.{
  ℕ, zero, suc, ◌+◌, ◌-◌, ◌≤◌, ◌<◌, ◌≡◌, ◌%◌, ◌^◌, refl, ap, sym, ◌∙◌, arith, false, ◌&&◌, none,
  some, [], ◌∷◌, length, take, drop, is_empty, if◌then◌else◌, Bool-cases, Option-cases, inl, inr,
}
use imsystem.Prelude.Texts.{Text}
use imsystem.Common.Chars.{is_space}
use imsystem.Common.StringUtils
use imsystem.Common.Config.{trim}
use imsystem.Common.Config.Trimming.{strip_front, strip_end, trim-eq-strip}

first_none : (s : Text) → StringUtils.find_first_not_space s ≡ none → strip_front s ≡ []
unfolding StringUtils.find_first_not_space strip_front
first_none [] h = refl
first_none (c ∷ t) h = ground (arith, first_none t)

last-lt : (s : Text) (j : ℕ) → StringUtils.find_last_not_space s ≡ some j → j < length s
unfolding StringUtils.find_last_not_space
last-lt [] j h = cc
last-lt (c ∷ t) j h = elim (Option-cases (StringUtils.find_last_not_space t)) [
  | inl e ↦ ground arith
  | inr (i, e) ↦ ground (arith, last-lt t i e)
]

last_exists :
    (c : ℕ) (t : Text)
    → is_space c ≡ false
    → (j : ℕ) × (StringUtils.find_last_not_space (c ∷ t) ≡ some j)
unfolding StringUtils.find_last_not_space
last_exists c t h = elim (Option-cases (StringUtils.find_last_not_space t)) [
  | inl e ↦ (0, ground arith)
  | inr (i, e) ↦ (suc i, ground arith)
]

first_some :
    (s : Text) (i : ℕ)
    → StringUtils.find_first_not_space s ≡ some i
    → (drop i s ≡ strip_front s)
      × ((j : ℕ) × (StringUtils.find_last_not_space s ≡ some j) × (i ≤ j))
unfolding StringUtils.find_first_not_space StringUtils.find_last_not_space strip_front
first_some [] i h = cc
first_some (c ∷ t) i h = elim (Bool-cases (is_space c)) [
  | inr e ↦
      let start : i ≡ 0 = ground arith in
      let (j, l) = last_exists c t e in (rw (start, e) refl, (j, l, omega arith))
  | inl e ↦ elim (Option-cases (StringUtils.find_first_not_space t)) [
    | inl f ↦ absurd (ground arith)
    | inr (k, f) ↦
        let start : i ≡ suc k = ground arith in
        let (d, (j, l, le)) = first_some t k f in (rw (start, e) d, (suc j, rw l refl, omega arith))
  ]
]

last_drop :
    (k : ℕ) (s : Text) (j : ℕ)
    → StringUtils.find_last_not_space s ≡ some (k + j)
    → StringUtils.find_last_not_space (drop k s) ≡ some j
unfolding StringUtils.find_last_not_space
last_drop zero s j h = h ∙ ap some (plus_zero' j)
  where
    plus_zero' : (m : ℕ) → 0 + m ≡ m
    plus_zero' m = omega arith
last_drop (suc k) [] j h = cc
last_drop (suc k) (c ∷ t) j h = last_drop k t j (ground arith)

last_none : (s : Text) → StringUtils.find_last_not_space s ≡ none → strip_end s ≡ []
unfolding StringUtils.find_last_not_space strip_end
last_none [] h = refl
last_none (c ∷ t) h = elim (Option-cases (StringUtils.find_last_not_space t)) [
  | inl e ↦ ground (arith, last_none t e)
  | inr (i, e) ↦ absurd (ground arith)
]

last_some :
    (s : Text) (j : ℕ) → StringUtils.find_last_not_space s ≡ some j → strip_end s ≡ take (suc j) s
unfolding StringUtils.find_last_not_space strip_end
last_some [] j h = cc
last_some (c ∷ t) j h = elim (Option-cases (StringUtils.find_last_not_space t)) [
  | inl e ↦
      let only : (is_space c ≡ false) × (j ≡ 0) = ground arith in
      rw (last_none t e, only.0, only.1) refl
  | inr (i, e) ↦
      let deep : j ≡ suc i = ground arith in rw (last_some t i e, deep) (kept t i (last-lt t i e))
]
  where
    kept :
        (t : Text) (i : ℕ)
        → i < length t
        → (if is_empty (take (suc i) t) && is_space c then [] else c ∷ take (suc i) t)
          ≡ c ∷ take (suc i) t
    kept [] i q = absurd (omega arith)
    kept (d ∷ t) i q = refl

wrapped : (i j n : ℕ) → i ≤ j → j < n → n < 2 ^ 63 → (j + 2 ^ 64 - i + 1) % 2 ^ 64 ≡ suc (j - i)
wrapped i j n h k m = omega arith

minus_plus : (i j : ℕ) → i ≤ j → j ≡ i + (j - i)
minus_plus i j h = omega arith

strip_nothing : (s : Text) → strip_front s ≡ [] → strip_end (strip_front s) ≡ []
unfolding strip_end
strip_nothing s e = rw e

-- `StringUtils::Trim` and the `Trim` of the configuration agree on every string shorter than 2^63
-- bytes, although one searches and the other loops.
pub StringUtils-trim-eq-trim : (s : Text) → length s < 2 ^ 63 → StringUtils.trim s ≡ trim s
unfolding StringUtils.trim
StringUtils-trim-eq-trim s small = elim (Option-cases (StringUtils.find_first_not_space s)) [
  | inl e ↦ rw (e, trim-eq-strip, strip_nothing s (first_none s e))
  | inr (i, e) ↦
      let (d, (j, l, le)) = first_some s i e in
      rw (e, l, wrapped i j (length s) le (last-lt s j l) small, trim-eq-strip, ← d)
        (sym
          (last_some (drop i s) (j - i) (last_drop i s (j - i) (l ∙ ap some (minus_plus i j le)))))
]
