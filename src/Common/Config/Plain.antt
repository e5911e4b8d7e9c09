-- ===== src/Common/Config/Plain.antt =====
-- Keys and values without special bytes, and what the helpers on a line do with them.
use imsystem.Prelude.{
  ℕ, zero, suc, ◌+◌, ◌≡◌, refl, ap, ◌∙◌, arith, Bool, true, false, ◌&&◌, not, Option, some, [], ◌∷◌,
  ◌++◌, length, take, drop, is_empty, if◌then◌else◌, ◌==◌, replicate, ◌≢◌,
}
use imsystem.Prelude.Texts.{Text, codes}
use imsystem.Common.Chars.{is_space, starts_with, find_char}
use imsystem.Common.Config.Lines.{trim, unquote, count_leading_spaces, strip_from}
use imsystem.Common.Config.Trimming.{strip_front, strip_end, trim-eq-strip}

unfoldable pub all_bytes : (ℕ → Bool) → Text → Bool
all_bytes test [] = true
all_bytes test (c ∷ t) = test c && all_bytes test t

-- A byte without a meaning to the parser.
unfoldable pub is_plain : ℕ → Bool
unfolding is_space
is_plain c =
    not (is_space c)
    && not (c == b':')
    && not (c == b'#')
    && not (c == b'.')
    && not (c == b'"')
    && not (c == b'\'')

-- A key or an unquoted value: plain bytes, and at least one.
abbrev pub IsWord : Text → Type 0
IsWord s = (all_bytes is_plain s ≡ true) × (s ≢ [])

-- "key:" and "key: value" behind n spaces.
abbrev pub section_line : ℕ → Text → Text
section_line n key = replicate n 32 ++ (key ++ b':' ∷ [])

abbrev pub entry_line : ℕ → Text → Text → Text
entry_line n key value = replicate n 32 ++ (key ++ (b':' ∷ 32 ∷ value))

pub all_bytes-append :
    (test : ℕ → Bool) (s t : Text)
    → all_bytes test (s ++ t) ≡ (all_bytes test s && all_bytes test t)
unfolding all_bytes
all_bytes-append test [] t = refl
all_bytes-append test (c ∷ s) t = ground (arith, all_bytes-append test s t)

pub all_bytes_mono :
    (p q : ℕ → Bool) (imp : (c : ℕ) → p c ≡ true → q c ≡ true) (s : Text)
    → all_bytes p s ≡ true
    → all_bytes q s ≡ true
unfolding all_bytes
all_bytes_mono p q imp [] h = refl
all_bytes_mono p q imp (c ∷ s) h = ground (arith, imp c, all_bytes_mono p q imp s)

pub all_bytes-replicate :
    (test : ℕ → Bool) (n c : ℕ) → test c ≡ true → all_bytes test (replicate n c) ≡ true
unfolding all_bytes
all_bytes-replicate test zero c h = refl
all_bytes-replicate test (suc n) c h = ground (arith, all_bytes-replicate test n c h)

abbrev pub no_hash : ℕ → Bool
no_hash c = not (c == b'#')

pub strip_from_clean :
    (before : Option ℕ) (s : Text) → all_bytes no_hash s ≡ true → strip_from before s ≡ s
unfolding strip_from all_bytes
strip_from_clean before [] h = refl
strip_from_clean before (c ∷ s) h = ground (arith, strip_from_clean (some c) s)

pub plain_no_hash : (c : ℕ) → is_plain c ≡ true → no_hash c ≡ true
unfolding is_plain
plain_no_hash c h = ground arith

pub plain_no_space : (c : ℕ) → is_plain c ≡ true → is_space c ≡ false
unfolding is_plain
plain_no_space c h = ground arith

pub count_spaces :
    (n c : ℕ) (t : Text) → (c == 32) ≡ false → count_leading_spaces (replicate n 32 ++ c ∷ t) ≡ n
unfolding count_leading_spaces
count_spaces zero c t h = ground arith
count_spaces (suc n) c t h = ap suc (count_spaces n c t h)

pub strip_front-pad :
    (n c : ℕ) (t : Text) → is_space c ≡ false → strip_front (replicate n 32 ++ c ∷ t) ≡ c ∷ t
unfolding strip_front is_space
strip_front-pad zero c t h = ground arith
strip_front-pad (suc n) c t h = strip_front-pad n c t h

pub strip_end-word : (s : Text) → all_bytes is_plain s ≡ true → strip_end s ≡ s
unfolding strip_end all_bytes
strip_end-word [] h = refl
strip_end-word (c ∷ s) h = ground (arith, strip_end-word s, plain_no_space c)

pub strip_end-append :
    (xs : Text) (y : ℕ) (ys : Text)
    → strip_end (y ∷ ys) ≡ y ∷ ys
    → strip_end (xs ++ y ∷ ys) ≡ xs ++ y ∷ ys
unfolding strip_end
strip_end-append [] y ys h = h
strip_end-append (c ∷ xs) y ys h = rw (strip_end-append xs y ys h) (kept xs)
  where
    kept :
        (zs : Text)
        → (if is_empty (zs ++ y ∷ ys) && is_space c then [] else c ∷ (zs ++ y ∷ ys))
          ≡ c ∷ (zs ++ y ∷ ys)
    kept [] = refl
    kept (z ∷ zs) = refl

-- What stands between spaces on the left and nothing on the right is left by `Trim`.
pub trim-pad :
    (n c : ℕ) (t : Text)
    → is_space c ≡ false
    → strip_end (c ∷ t) ≡ c ∷ t
    → trim (replicate n 32 ++ c ∷ t) ≡ c ∷ t
trim-pad n c t h e =
    trim-eq-strip (replicate n 32 ++ c ∷ t) ∙ ap strip_end (strip_front-pad n c t h) ∙ e

pub trim-word : (s : Text) → IsWord s → trim s ≡ s
unfolding all_bytes
trim-word [] h = absurd (h.1 refl)
trim-word (c ∷ s) h = trim-pad 0 c s (plain_no_space c (ground arith)) (strip_end-word (c ∷ s) h.0)

pub trim-space-word : (s : Text) → IsWord s → trim (32 ∷ s) ≡ s
unfolding all_bytes
trim-space-word [] h = absurd (h.1 refl)
trim-space-word (c ∷ s) h =
    trim-pad 1 c s (plain_no_space c (ground arith)) (strip_end-word (c ∷ s) h.0)

pub trim-nil : trim [] ≡ []
unfolding strip_end strip_front
trim-nil = trim-eq-strip [] ∙ refl

pub find_char-word :
    (key r : Text)
    → all_bytes is_plain key ≡ true
    → find_char b':' (key ++ b':' ∷ r) ≡ some (length key)
unfolding find_char all_bytes is_plain
find_char-word [] r h = refl
find_char-word (c ∷ key) r h = ground (arith, find_char-word key r)

pub take_key : (key r : Text) → take (length key) (key ++ r) ≡ key
take_key [] r = refl
take_key (c ∷ key) r = ap (λ t. c ∷ t) (take_key key r)

pub drop_key : (key r : Text) (c : ℕ) → drop (length key + 1) (key ++ c ∷ r) ≡ r
drop_key key r c = let next : length key + 1 ≡ suc (length key) = omega arith in rw next (go key)
  where
    go : (k : Text) → drop (suc (length k)) (k ++ c ∷ r) ≡ r
    go [] = refl
    go (d ∷ k) = go k

-- A word and a colon do not begin a list item.
pub no_item : (key r : Text) → IsWord key → starts_with (key ++ b':' ∷ r) (codes "- ") ≡ false
unfolding starts_with codes all_bytes is_plain is_space
no_item [] r h = absurd (h.1 refl)
no_item (c ∷ []) r h = ground arith
no_item (c ∷ d ∷ key) r h = ground arith

pub unquote-word : (v : Text) → IsWord v → unquote v ≡ v
unfolding unquote all_bytes is_plain
unquote-word [] h = refl
unquote-word (c ∷ v) h = ground arith
