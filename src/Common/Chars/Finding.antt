-- ===== src/Common/Chars/Finding.antt =====
-- Where a search in a text ends.
use imsystem.Prelude.{
  ℕ, suc, ◌+◌, Bool, true, false, not, ◌&&◌, ◌||◌, some, [], ◌∷◌, ◌++◌, ◌==◌, ◌≡◌, refl, ap, ◌∙◌,
  ==_refl, length, take, drop, arith,
}
use imsystem.Prelude.Texts.{Text}
use imsystem.Common.Chars.{find_char, find_from, find_text, starts_with}

-- The byte does not occur in the text.
unfoldable pub lacks : ℕ → Text → Bool
lacks c [] = true
lacks c (d ∷ t) = not (d == c) && lacks c t

pub find_char-append :
    (c : ℕ) (s t : Text) → lacks c s ≡ true → find_char c (s ++ c ∷ t) ≡ some (length s)
unfolding find_char lacks
find_char-append c [] t h = ground arith
find_char-append c (d ∷ s) t h = ground (arith, find_char-append c s t)

pub lacks-append :
    (c : ℕ) (s t : Text) → lacks c s ≡ true → lacks c t ≡ true → lacks c (s ++ t) ≡ true
unfolding lacks
lacks-append c [] t h k = k
lacks-append c (d ∷ s) t h k = ground (arith, lacks-append c s t)

pub take_whole : (s t : Text) (n : ℕ) → n ≡ length s → take n (s ++ t) ≡ s
take_whole s t n e = rw e (go s)
  where
    go : (r : Text) → take (length r) (r ++ t) ≡ r
    go [] = refl
    go (c ∷ r) = ap (λ u. c ∷ u) (go r)

pub drop_whole : (s t : Text) (n : ℕ) → n ≡ length s → drop n (s ++ t) ≡ t
drop_whole s t n e = rw e (go s)
  where
    go : (r : Text) → drop (length r) (r ++ t) ≡ t
    go [] = refl
    go (c ∷ r) = go r

-- The search from a position on, past a text of that length.
pub find_from-append :
    (c n : ℕ) (s t u : Text)
    → n ≡ length s
    → lacks c t ≡ true
    → find_from c n (s ++ (t ++ c ∷ u)) ≡ some (n + length t)
unfolding find_from
find_from-append c n s t u e h = rw (drop_whole s (t ++ c ∷ u) n e, find_char-append c t u h) refl

-- The two texts differ at a position that both have.
abbrev pub clash : Text → Text → Bool
clash (d ∷ p) (c ∷ s) = not (c == d) || clash p s
clash _ _ = false

-- The needle does not start in the text, whatever follows the text.
abbrev pub apart : Text → Text → Bool
apart p [] = true
apart p (c ∷ s) = clash p (c ∷ s) && apart p s

starts_with-clash : (p s t : Text) → clash p s ≡ true → starts_with (s ++ t) p ≡ false
unfolding starts_with
starts_with-clash [] [] t h = absurd (ground arith)
starts_with-clash [] (c ∷ s) t h = absurd (ground arith)
starts_with-clash (d ∷ p) [] t h = absurd (ground arith)
starts_with-clash (d ∷ p) (c ∷ s) t h = ground (arith, starts_with-clash p s t)

find_text-cons :
    (p t : Text) (c i : ℕ)
    → starts_with (c ∷ t) p ≡ false
    → find_text p t ≡ some i
    → find_text p (c ∷ t) ≡ some (1 + i)
unfolding find_text
find_text-cons p t c i h e = rw (h, e) refl

apart_head : (p s : Text) (c : ℕ) → apart p (c ∷ s) ≡ true → clash p (c ∷ s) ≡ true
apart_head p s c h = ground arith

apart_tail : (p s : Text) (c : ℕ) → apart p (c ∷ s) ≡ true → apart p s ≡ true
apart_tail p s c h = ground arith

-- The search passes over such a text.
pub find_text-append :
    (p s t : Text) (i : ℕ)
    → apart p s ≡ true
    → find_text p t ≡ some i
    → find_text p (s ++ t) ≡ some (length s + i)
find_text-append p [] t i h e = e ∙ ap some (omega arith)
find_text-append p (c ∷ s) t i h e =
    find_text-cons p (s ++ t) c (length s + i) (starts_with-clash p (c ∷ s) t (apart_head p s c h))
      (find_text-append p s t i (apart_tail p s c h) e)
    ∙ ap some (omega arith)

-- A text without the first byte of the needle.
pub lacks-apart : (d : ℕ) (p s : Text) → lacks d s ≡ true → apart (d ∷ p) s ≡ true
unfolding lacks
lacks-apart d p [] h = refl
lacks-apart d p (c ∷ s) h = ground (arith, lacks-apart d p s)

pub starts_with-append : (p t : Text) → starts_with (p ++ t) p ≡ true
unfolding starts_with
starts_with-append [] [] = refl
starts_with-append [] (c ∷ t) = refl
starts_with-append (d ∷ p) t = rw (==_refl d) (starts_with-append p t)

pub find_text_here : (d : ℕ) (p t : Text) → find_text (d ∷ p) ((d ∷ p) ++ t) ≡ some 0
unfolding find_text
find_text_here d p t = rw (starts_with-append (d ∷ p) t) refl

-- The first occurrence is where the needle stands, if none starts before it.
pub find_text_first :
    (d : ℕ) (p s t : Text)
    → apart (d ∷ p) s ≡ true
    → find_text (d ∷ p) (s ++ ((d ∷ p) ++ t)) ≡ some (length s)
find_text_first d p s t h =
    find_text-append (d ∷ p) s ((d ∷ p) ++ t) 0 h (find_text_here d p t) ∙ ap some (omega arith)

pub drop-append : (s t : Text) (n : ℕ) → drop (length s + n) (s ++ t) ≡ drop n t
drop-append [] t n = ap (λ k. drop k t) (omega arith)
drop-append (c ∷ s) t n =
    ap (λ k. drop k (c ∷ (s ++ t))) {y = suc (length s + n)} (omega arith) ∙ drop-append s t n
