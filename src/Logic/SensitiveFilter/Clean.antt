-- ===== src/Logic/SensitiveFilter/Clean.antt =====
-- Sensitive words in the text that `Filter` returns.
use imsystem.Prelude.{
  ℕ, zero, suc, ◌+◌, Bool, true, false, Option, none, some, [], ◌∷◌, ◌++◌, ◌≡◌, ◌≢◌, ◌↔◌, refl, ap,
  sym, ◌∙◌, arith, Bool-cases, Option-cases, inl, inr, ◌||◌, ◌==◌,
}
use imsystem.Prelude.Texts.{Text}
use imsystem.Logic.Trie.{TrieNode, find, children}
use imsystem.Logic.Trie.Words.{holds}
use imsystem.Logic.SensitiveFilter.{
  star, reaches_end, has_from, has_sensitive_word, match_end, filter,
}
use imsystem.Logic.SensitiveFilter.Detect.{
  reaches_end-Begins, Begins-reaches_end, has_sensitive_word-eq-has_from,
}
use imsystem.Logic.SensitiveFilter.Mask.{mask, filter-eq-mask}

unfoldable pub mem_byte : ℕ → Text → Bool
mem_byte b [] = false
mem_byte b (c ∷ t) = c == b || mem_byte b t

-- No word of the trie contains the star.
abbrev pub StarFree : TrieNode → Type 0
StarFree root = (w : Text) → holds root w ≡ true → mem_byte star w ≡ false

abbrev is_some : Option ℕ → Bool
is_some none = false
is_some (some m) = true

-- The inner loops of the two functions agree.
reaches_end-match_end :
    (node : TrieNode) (t : Text) (j : ℕ) → reaches_end node t ≡ is_some (match_end node t j)
unfolding reaches_end match_end
reaches_end-match_end node [] j = refl
reaches_end-match_end node (c ∷ t) j = elim (Option-cases (find c (children node))) [
  | inl e ↦ ground arith
  | inr (n, e) ↦ ground (arith, reaches_end-match_end n t (j + 1))
]

star-reaches_end :
    (root : TrieNode) → StarFree root → (u : Text) → reaches_end root (star ∷ u) ≡ false
unfolding mem_byte
star-reaches_end root free u = elim (Bool-cases (reaches_end root (star ∷ u))) [
  | inr e ↦ e
  | inl e ↦
      let b = reaches_end-Begins root (star ∷ u) e in
      absurd (starts b.word b.rest b.nonempty b.split (free b.word b.held))
]
  where
    starts :
        (w r : Text) → w ≢ [] → ◌≡◌ {A = Text} (star ∷ u) (w ++ r) → mem_byte star w ≡ false → ⊥
    starts [] r ne e h = ne refl
    starts (d ∷ w) r ne e h = ground arith

-- What stands at the head of the masked text and has no star stands at the head of the text.
mask-prefix :
    (root : TrieNode) (k : ℕ) (t w r : Text)
    → mask root k t ≡ w ++ r
    → mem_byte star w ≡ false
    → (r' : Text) × (t ≡ w ++ r')
unfolding mask mem_byte
mask-prefix root k t [] r e h = (t, refl)
mask-prefix root k [] (d ∷ w) r e h = cc
mask-prefix root (suc k) (c ∷ t) (d ∷ w) r e h = absurd (ground arith)
mask-prefix root zero (c ∷ t) (d ∷ w) r e h = elim (Option-cases (match_end root (c ∷ t) 0)) [
  | inl m ↦
      let (r', p) = mask-prefix root zero t w r (tail_eq (rw (m, mask) at e)) (ground arith) in
      (r', ground arith)
  | inr (n, m) ↦ absurd (star_eq n (rw (m, mask) at e))
]
  where
    tail_eq : c ∷ mask root 0 t ≡ d ∷ w ++ r → mask root 0 t ≡ w ++ r
    tail_eq q = ground arith

    star_eq : (n : ℕ) → star ∷ mask root n t ≡ d ∷ w ++ r → ⊥
    star_eq n q = ground arith

-- A byte that `mask` keeps starts no word of the masked text.
kept-reaches_end :
    (root : TrieNode) (c : ℕ) (t : Text)
    → StarFree root
    → match_end root (c ∷ t) 0 ≡ none
    → reaches_end root (c ∷ mask root 0 t) ≡ false
unfolding mem_byte
kept-reaches_end root c t free kept = elim (Bool-cases (reaches_end root (c ∷ mask root 0 t))) [
  | inr e ↦ e
  | inl e ↦
      let b = reaches_end-Begins root (c ∷ mask root 0 t) e in
      absurd (stands b.word b.rest b.nonempty b.held b.split (free b.word b.held))
]
  where
    at_head : (w r : Text) → holds root (c ∷ w) ≡ true → t ≡ w ++ r → ⊥
    at_head w r held e = ground (
      arith,
      reaches_end-match_end root (c ∷ t) 0,
      Begins-reaches_end (record {
        word = c ∷ w;
        rest = r;
        nonempty = λ (q : ◌≡◌ {A = Text} (c ∷ w) []). cc;
        held = held;
        split = ap (λ u. c ∷ u) e;
      }),
    )

    stands :
        (w r : Text)
        → w ≢ []
        → holds root w ≡ true
        → c ∷ mask root 0 t ≡ w ++ r
        → mem_byte star w ≡ false
        → ⊥
    stands [] r ne held e h = ne refl
    stands (d ∷ w) r ne held e h =
        let same : c ≡ d = ground arith in
        let (r', p) = mask-prefix root 0 t w r (ground arith) (ground arith) in
        at_head w r' (ap (λ b. holds root (b ∷ w)) same ∙ held) p

has_from-mask :
    (root : TrieNode) (k : ℕ) (t : Text) → StarFree root → has_from root (mask root k t) ≡ false
unfolding has_from mask
has_from-mask root k [] free = refl
has_from-mask root (suc k) (c ∷ t) free =
    rw (star-reaches_end root free (mask root k t)) (has_from-mask root k t free)
has_from-mask root zero (c ∷ t) free = elim (Option-cases (match_end root (c ∷ t) 0)) [
  | inl e ↦
      rw (e, mask) (rw (kept-reaches_end root c t free e, has_from) (has_from-mask root 0 t free))
  | inr (m, e) ↦
      rw (e, mask)
        (rw (star-reaches_end root free (mask root m t), has_from) (has_from-mask root m t free))
]

-- If no word of the trie contains the star, the text that `Filter` returns holds no sensitive word.
pub has_sensitive_word-filter :
    (root : TrieNode) (text : Text)
    → StarFree root
    → has_sensitive_word root (filter root text) ≡ false
has_sensitive_word-filter root text free =
    has_sensitive_word-eq-has_from root (filter root text)
    ∙ ap (has_from root) (filter-eq-mask root text)
    ∙ has_from-mask root 0 text free

mask-clean : (root : TrieNode) (t : Text) → has_from root t ≡ false → mask root 0 t ≡ t
unfolding has_from mask
mask-clean root [] h = refl
mask-clean root (c ∷ t) h = elim (Option-cases (match_end root (c ∷ t) 0)) [
  | inl e ↦ rw (e, mask) (ap (λ r. c ∷ r) (mask-clean root t (ground arith)))
  | inr (m, e) ↦ absurd (ground (arith, reaches_end-match_end root (c ∷ t) 0))
]

-- `Filter` changes no text in which `HasSensitiveWord` detects nothing.
pub filter_clean :
    (root : TrieNode) (text : Text) → has_sensitive_word root text ≡ false → filter root text ≡ text
filter_clean root text h =
    filter-eq-mask root text
    ∙ mask-clean root text (sym (has_sensitive_word-eq-has_from root text) ∙ h)

-- If no word of the trie contains the star, `Filter` changes a text exactly when
-- `HasSensitiveWord` detects something in it.
pub filter_fixed_iff :
    (root : TrieNode) (text : Text)
    → StarFree root
    → (filter root text ≡ text) ↔ (has_sensitive_word root text ≡ false)
filter_fixed_iff root text free = (
  λ e. sym (ap (has_sensitive_word root) e) ∙ has_sensitive_word-filter root text free,
  filter_clean root text,
)
