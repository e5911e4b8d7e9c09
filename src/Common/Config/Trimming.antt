-- ===== src/Common/Config/Trimming.antt =====
-- `Trim` of config_manager.cpp against a recursion over the bytes.
use imsystem.Prelude.{
  ℕ, zero, suc, ◌+◌, ◌-◌, ◌≤◌, ◌<◌, ◌≡◌, refl, ap, ◌∙◌, arith, Bool, ◌&&◌, [], ◌∷◌, ◌++◌, length,
  take, drop, is_empty, if◌then◌else◌, Bool-cases, inl, inr, length-drop, lt→ltb, le→ltb,
}
use imsystem.Prelude.Texts.{Text}
use imsystem.Common.Chars.{is_space}
use imsystem.Common.Config.Lines.{byte_at, count_leading, trim_end, trim}

unfoldable pub strip_front : Text → Text
strip_front [] = []
strip_front (c ∷ t) = if is_space c then strip_front t else c ∷ t

-- The list without the spaces at its end.
unfoldable pub strip_end : Text → Text
strip_end [] = []
strip_end (c ∷ t) = let rest = strip_end t in if is_empty rest && is_space c then [] else c ∷ rest

drop-count_leading : (s : Text) → drop (count_leading is_space s) s ≡ strip_front s
unfolding count_leading strip_front
drop-count_leading [] = refl
drop-count_leading (c ∷ t) = ground (arith, drop-count_leading t)

count_leading-le : (test : ℕ → Bool) (s : Text) → count_leading test s ≤ length s
unfolding count_leading
count_leading-le test [] = omega arith
count_leading-le test (c ∷ t) = ground (arith, count_leading-le test t)

strip_end-snoc :
    (xs : Text) (x : ℕ)
    → strip_end (xs ++ x ∷ []) ≡ (if is_space x then strip_end xs else xs ++ x ∷ [])
unfolding strip_end
strip_end-snoc [] x = ground arith
strip_end-snoc (c ∷ xs) x = elim (Bool-cases (is_space x)) [
  | inl e ↦ rw (strip_end-snoc xs x, e)
  | inr e ↦ rw (strip_end-snoc xs x, e) (nonempty xs)
]
  where
    nonempty :
        (ys : Text)
        → (if is_empty (ys ++ x ∷ []) && is_space c then [] else c ∷ (ys ++ x ∷ []))
          ≡ c ∷ (ys ++ x ∷ [])
    nonempty [] = refl
    nonempty (y ∷ ys) = refl

take-suc : (n : ℕ) (u : Text) → n < length u → take (suc n) u ≡ take n u ++ byte_at u n ∷ []
take-suc n [] h = absurd (omega arith)
take-suc zero (c ∷ u) h = refl
take-suc (suc n) (c ∷ u) h = ap (λ r. c ∷ r) (take-suc n u (omega arith))

byte_at-drop : (k n : ℕ) (s : Text) → byte_at (drop k s) n ≡ byte_at s (k + n)
byte_at-drop zero n s = ap (byte_at s) (omega arith)
byte_at-drop (suc k) n [] = refl
byte_at-drop (suc k) n (c ∷ s) =
    let next : suc (k + n) ≡ suc k + n = omega arith in
    byte_at-drop k n s ∙ ap (byte_at (c ∷ s)) next

trim_end_self : (s : Text) (k : ℕ) → trim_end s k k ≡ k
unfolding trim_end
trim_end_self s zero = refl
trim_end_self s (suc k) = rw (le→ltb (suc k) (suc k) (omega arith))

trim_end-step :
    (s : Text) (k n : ℕ)
    → trim_end s k (k + suc n)
      ≡ (if is_space (byte_at (drop k s) n) then trim_end s k (k + n) else k + suc n)
unfolding trim_end
trim_end-step s k n =
    let next : k + suc n ≡ suc (k + n) = omega arith in
    rw (next, byte_at-drop k n s, trim_end, lt→ltb k (suc (k + n)) (omega arith)) refl

trim_end_lem :
    (s : Text) (k n : ℕ)
    → n ≤ length (drop k s)
    → take (trim_end s k (k + n) - k) (drop k s) ≡ strip_end (take n (drop k s))
unfolding strip_end
trim_end_lem s k zero h =
    let start : trim_end s k (k + 0) - k ≡ 0 =
      omega (arith, trim_end_self s k, ap (trim_end s k) (plus_zero k)) in
    rw start
  where
    plus_zero : (m : ℕ) → m + 0 ≡ m
    plus_zero m = omega arith
trim_end_lem s k (suc n) h =
    rw (trim_end-step s k n, take-suc n (drop k s) h, strip_end-snoc (take n (drop k s)))
      (elim (Bool-cases (is_space (byte_at (drop k s) n))) [
        | inl e ↦ rw e (trim_end_lem s k n (omega arith))
        | inr e ↦ rw e (ap (λ m. take m (drop k s)) (whole k n) ∙ take-suc n (drop k s) h)
      ])
  where
    whole : (k n : ℕ) → k + suc n - k ≡ suc n
    whole k n = omega arith

take-length : (u : Text) → take (length u) u ≡ u
take-length [] = refl
take-length (c ∷ u) = ap (λ r. c ∷ r) (take-length u)

-- The two index loops of `Trim` drop the white space at both ends.
pub trim-eq-strip : (s : Text) → trim s ≡ strip_end (strip_front s)
unfolding trim
trim-eq-strip s =
    let k = count_leading is_space s in
    let n = length (drop k s) in
    let all : length s ≡ k + n = omega (arith, length-drop k s, count_leading-le is_space s) in
    ap (λ m. take (trim_end s k m - k) (drop k s)) all
    ∙ trim_end_lem s k n (omega arith)
    ∙ ap strip_end (take-length (drop k s) ∙ drop-count_leading s)
