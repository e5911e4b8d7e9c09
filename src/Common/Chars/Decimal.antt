-- ===== src/Common/Chars/Decimal.antt =====
-- What `std::to_string` writes is what `std::stoull` reads.
use imsystem.Prelude.{
  ℕ, zero, suc, ◌+◌, ◌*◌, ◌/◌, ◌%◌, ◌^◌, ◌<◌, ◌≡◌, refl, ap, ◌∙◌, sym, subst, true, false, none,
  some, [], ◌∷◌, ◌++◌, ltb, ◌==◌, length, Bool-cases, lt→ltb, ltb→lt, ==_refl, inl, inr, arith,
}
use imsystem.Prelude.Int.{pos}
use imsystem.Prelude.Texts.{Text}
use imsystem.Common.Chars.{is_digit, is_space, find_last_of}
use imsystem.Common.Chars.Finding.{lacks}
use imsystem.Common.Chars.Numbers.{
  digits, to_string, read_digits, read_nat, skip_spaces, unsigned_long, stoull, signed_int, stoi,
}

pub is_digit-digit : (n : ℕ) → n < 10 → is_digit (48 + n) ≡ true
unfolding is_digit
is_digit-digit n h = ground arith

digit-ne-space : (n : ℕ) → n < 10 → is_space (48 + n) ≡ false
unfolding is_space
digit-ne-space n h = ground arith

read_digits_step :
    (acc n : ℕ) (t : Text) → n < 10 → read_digits acc ((48 + n) ∷ t) ≡ read_digits (acc * 10 + n) t
unfolding read_digits
read_digits_step acc n t h = rw (is_digit-digit n h) (ap (λ k. read_digits k t) (omega arith))

digit-ne_sign : (n c : ℕ) → n < 10 → c < 48 → (48 + n == c) ≡ false
digit-ne_sign n c h k = ground arith

digit-ne_underscore : (n : ℕ) → n < 10 → (48 + n == b'_') ≡ false
digit-ne_underscore n h = ground arith

-- Reading on from the digits of n is reading on from n.
read_digits-digits :
    (fuel n : ℕ) (acc : Text) → n < fuel → read_digits 0 (digits fuel n acc) ≡ read_digits n acc
unfolding digits
read_digits-digits zero n acc h = absurd (omega (arith, h))
read_digits-digits (suc fuel) n acc h = elim (Bool-cases (ltb n 10)) [
  | inl e ↦
      rw e (read_digits_step 0 n acc (ltb→lt n 10 e) ∙ ap (λ k. read_digits k acc) (omega arith))
  | inr e ↦ rw e (
      read_digits-digits fuel (n / 10) ((48 + n % 10) ∷ acc) (ground arith)
      ∙ read_digits_step (n / 10) (n % 10) acc (omega arith)
      ∙ ap (λ k. read_digits k acc) (omega arith))
]

-- The digits start with a digit.
digits-head :
    (fuel n : ℕ) (acc : Text)
    → n < fuel
    → (d : ℕ) × (t : Text) × (d < 10) × (digits fuel n acc ≡ (48 + d) ∷ t)
unfolding digits
digits-head zero n acc h = absurd (omega (arith, h))
digits-head (suc fuel) n acc h = elim (Bool-cases (ltb n 10)) [
  | inl e ↦ (n, acc, ltb→lt n 10 e, rw e refl)
  | inr e ↦ rw e (digits-head fuel (n / 10) ((48 + n % 10) ∷ acc) (ground arith))
]

pub to_string-head : (n : ℕ) → (d : ℕ) × (t : Text) × (d < 10) × (to_string n ≡ (48 + d) ∷ t)
unfolding to_string
to_string-head n = digits-head (suc n) n [] (omega arith)

read_digits-to_string : (n : ℕ) → read_digits 0 (to_string n) ≡ n
unfolding to_string read_digits
read_digits-to_string n = read_digits-digits (suc n) n [] (omega arith)

skip_spaces-digit : (d : ℕ) (t : Text) → d < 10 → skip_spaces ((48 + d) ∷ t) ≡ (48 + d) ∷ t
unfolding skip_spaces
skip_spaces-digit d t h = rw (digit-ne-space d h) refl

read_nat-digits :
    (d : ℕ) (t : Text) → d < 10 → read_nat ((48 + d) ∷ t) ≡ some (read_digits 0 ((48 + d) ∷ t))
unfolding read_nat
read_nat-digits d t h = rw (is_digit-digit d h) refl

unsigned_long-digits :
    (d : ℕ) (t : Text)
    → d < 10
    → read_digits 0 ((48 + d) ∷ t) < 2 ^ 64
    → unsigned_long ((48 + d) ∷ t) ≡ some (read_digits 0 ((48 + d) ∷ t))
unsigned_long-digits d t h small =
    rw
      (
        digit-ne_sign d b'-' h (omega arith),
        digit-ne_sign d b'+' h (omega arith),
        read_nat-digits d t h,
        lt→ltb _ _ small,
      )
      refl

stoull-digits :
    (d : ℕ) (t : Text)
    → d < 10
    → read_digits 0 ((48 + d) ∷ t) < 2 ^ 64
    → stoull ((48 + d) ∷ t) ≡ some (read_digits 0 ((48 + d) ∷ t))
unfolding stoull
stoull-digits d t h small =
    ap unsigned_long (skip_spaces-digit d t h) ∙ unsigned_long-digits d t h small

-- Every 64-bit number is read back from its decimal digits.
pub stoull-to_string : (n : ℕ) → n < 2 ^ 64 → stoull (to_string n) ≡ some n
stoull-to_string n h =
    let (d, t, small, e) = to_string-head n in
    let value = ap (read_digits 0) (sym e) ∙ read_digits-to_string n in
    ap stoull e ∙ stoull-digits d t small (subst (λ k. k < 2 ^ 64) (sym value) h) ∙ ap some value

signed_int-digits :
    (d : ℕ) (t : Text)
    → d < 10
    → read_digits 0 ((48 + d) ∷ t) < 2 ^ 31
    → signed_int ((48 + d) ∷ t) ≡ some (pos (read_digits 0 ((48 + d) ∷ t)))
signed_int-digits d t h small =
    rw
      (
        digit-ne_sign d b'-' h (omega arith),
        digit-ne_sign d b'+' h (omega arith),
        read_nat-digits d t h,
        lt→ltb _ _ small,
      )
      refl

stoi-digits :
    (d : ℕ) (t : Text)
    → d < 10
    → read_digits 0 ((48 + d) ∷ t) < 2 ^ 31
    → stoi ((48 + d) ∷ t) ≡ some (pos (read_digits 0 ((48 + d) ∷ t)))
unfolding stoi
stoi-digits d t h small = ap signed_int (skip_spaces-digit d t h) ∙ signed_int-digits d t h small

-- So is every number that fits an `int`.
pub stoi-to_string : (n : ℕ) → n < 2 ^ 31 → stoi (to_string n) ≡ some (pos n)
stoi-to_string n h =
    let (d, t, small, e) = to_string-head n in
    let value = ap (read_digits 0) (sym e) ∙ read_digits-to_string n in
    ap stoi e
    ∙ stoi-digits d t small (subst (λ k. k < 2 ^ 31) (sym value) h)
    ∙ ap (λ k. some (pos k)) value

-- Two numbers with the same digits are the same.
pub to_string_injective : (m n : ℕ) → to_string m ≡ to_string n → m ≡ n
to_string_injective m n h =
    sym (read_digits-to_string m) ∙ ap (read_digits 0) h ∙ read_digits-to_string n

-- The last `c` of a text is the one after which there is none.
pub find_last_of-append :
    (c : ℕ) (s t : Text) → find_last_of c t ≡ none → find_last_of c (s ++ c ∷ t) ≡ some (length s)
unfolding find_last_of
find_last_of-append c [] t h = rw (h, ==_refl c) refl
find_last_of-append c (x ∷ s) t h = rw (find_last_of-append c s t h) refl

find_last_of-digits :
    (fuel n : ℕ) (acc : Text)
    → find_last_of b'_' acc ≡ none
    → find_last_of b'_' (digits fuel n acc) ≡ none
unfolding digits find_last_of
find_last_of-digits zero n acc h = h
find_last_of-digits (suc fuel) n acc h = elim (Bool-cases (ltb n 10)) [
  | inl e ↦ rw (e, h, digit-ne_underscore n (ltb→lt n 10 e)) refl
  | inr e ↦ rw e (
      find_last_of-digits fuel (n / 10) ((48 + n % 10) ∷ acc)
        (rw (h, digit-ne_underscore (n % 10) (omega arith)) refl))
]

pub find_last_of-to_string : (n : ℕ) → find_last_of b'_' (to_string n) ≡ none
unfolding to_string find_last_of
find_last_of-to_string n = find_last_of-digits (suc n) n [] refl

digits-append : (fuel n : ℕ) (acc t : Text) → digits fuel n acc ++ t ≡ digits fuel n (acc ++ t)
unfolding digits
digits-append zero n acc t = refl
digits-append (suc fuel) n acc t = elim (Bool-cases (ltb n 10)) [
  | inl e ↦ rw e refl
  | inr e ↦ rw e (digits-append fuel (n / 10) ((48 + n % 10) ∷ acc) t)
]

-- Reading stops behind the digits.
pub read_digits-to_string-append :
    (n c : ℕ) (t : Text) → is_digit c ≡ false → read_digits 0 (to_string n ++ c ∷ t) ≡ n
unfolding to_string read_digits
read_digits-to_string-append n c t h =
    ap (read_digits 0) (digits-append (suc n) n [] (c ∷ t))
    ∙ read_digits-digits (suc n) n (c ∷ t) (omega arith)
    ∙ rw h refl

digit-other : (n c : ℕ) → n < 10 → is_digit c ≡ false → (48 + n == c) ≡ false
unfolding is_digit
digit-other n c h k = ground arith

lacks-digits :
    (c fuel n : ℕ) (acc : Text)
    → is_digit c ≡ false
    → lacks c acc ≡ true
    → lacks c (digits fuel n acc) ≡ true
unfolding digits lacks
lacks-digits c zero n acc h k = k
lacks-digits c (suc fuel) n acc h k = elim (Bool-cases (ltb n 10)) [
  | inl e ↦ rw (e, k, digit-other n c (ltb→lt n 10 e) h) refl
  | inr e ↦ rw e (
      lacks-digits c fuel (n / 10) ((48 + n % 10) ∷ acc) h
        (rw (k, digit-other (n % 10) c (omega arith) h) refl))
]

-- Only digits are written.
pub lacks-to_string : (c n : ℕ) → is_digit c ≡ false → lacks c (to_string n) ≡ true
unfolding to_string lacks
lacks-to_string c n h = lacks-digits c (suc n) n [] h refl
