-- ===== src/Logic/SensitiveFilter/Censor.antt =====
-- What `Filter` does with a list of words, told without the trie and without its loops.
use imsystem.Prelude.{
  ℕ, zero, suc, ◌+◌, Bool, false, Option, none, some, List, [], ◌∷◌, ◌++◌, ◌≡◌, refl, ap, sym, ◌∙◌,
  fun_ext, append_assoc, length, length-append, Option-cases, inl, inr, arith, if◌then◌else◌,
}
use imsystem.Prelude.Texts.{Text}
use imsystem.Logic.Trie.{TrieNode, find, children, is_end, new_node, init}
use imsystem.Logic.Trie.Words.{holds, listed, holds-init, holds-new_node}
use imsystem.Logic.SensitiveFilter.{star, match_end, filter}
use imsystem.Logic.SensitiveFilter.Mask.{mask, filter-eq-mask}

module _ (is_word : Text → Bool) where
  -- Where the shortest word ends that begins with `pre` and goes on into the text, by the place of
  -- its last byte: the prefixes are tried from the shortest on.
  unfoldable pub shortest : Text → Text → Option ℕ
  shortest pre [] = none
  shortest pre (c ∷ t) =
      let more = shortest (pre ++ c ∷ []) t in
      if is_word (pre ++ c ∷ []) then some (length pre) else more

  -- Read from the left: at the first byte of a word the shortest such word is starred out, and the
  -- reading goes on behind it; any other byte is kept. The number is what is left to star out.
  unfoldable pub censor : ℕ → Text → Text
  unfolding shortest
  censor k [] = []
  censor (suc k) (c ∷ t) = star ∷ censor k t
  censor zero (c ∷ t) = elim (shortest [] (c ∷ t)) [
    | none ↦ c ∷ censor 0 t
    | some m ↦ star ∷ censor m t
  ]

-- No word begins with what was read.
shortest-none :
    (is_word : Text → Bool) (pre t : Text)
    → ((w : Text) → is_word (pre ++ w) ≡ false)
    → shortest is_word pre t ≡ none
unfolding shortest
shortest-none is_word pre [] h = refl
shortest-none is_word pre (c ∷ t) h =
    rw
      (
        h (c ∷ []),
        shortest-none is_word (pre ++ c ∷ []) t
            (λ w. ap is_word (append_assoc pre (c ∷ []) w) ∙ h (c ∷ w)),
      )
      refl

holds-none :
    (node : TrieNode) (c : ℕ) (w : Text)
    → find c (children node) ≡ none
    → holds node (c ∷ w) ≡ false
unfolding holds
holds-none node c w e = rw (e, holds) refl

holds-some :
    (node n : TrieNode) (c : ℕ) (w : Text)
    → find c (children node) ≡ some n
    → holds node (c ∷ w) ≡ holds n w
unfolding holds
holds-some node n c w e = rw (e, holds) refl

holds-nil : (n : TrieNode) → holds n [] ≡ is_end n
unfolding holds
holds-nil n = refl

length-suc : (pre : Text) (c : ℕ) → length (pre ++ c ∷ []) ≡ length pre + 1
length-suc pre c = omega (arith, length-append pre (c ∷ []))

shortest-step :
    (is_word : Text → Bool) (pre : Text) (c : ℕ) (t : Text) (b : Bool) (m : Option ℕ)
    → is_word (pre ++ c ∷ []) ≡ b
    → shortest is_word (pre ++ c ∷ []) t ≡ m
    → shortest is_word pre (c ∷ t) ≡ (if b then some (length pre) else m)
unfolding shortest
shortest-step is_word pre c t b m h k = rw (h, k) refl

-- A walk through the trie, from a node that `pre` leads to.
match_end-shortest :
    (is_word : Text → Bool) (node : TrieNode) (pre t : Text)
    → ((w : Text) → is_word (pre ++ w) ≡ holds node w)
    → match_end node t (length pre) ≡ shortest is_word pre t
unfolding match_end shortest
match_end-shortest is_word node pre [] h = refl
match_end-shortest is_word node pre (c ∷ t) h = elim (Option-cases (find c (children node))) [
  | inl e ↦
      let none_held : (w : Text) → is_word (pre ++ c ∷ w) ≡ false =
        λ w. h (c ∷ w) ∙ holds-none node c w e in
      let nothing =
        shortest-none is_word (pre ++ c ∷ []) t
          (λ w. ap is_word (append_assoc pre (c ∷ []) w) ∙ none_held w) in
      rw (e, match_end) (sym (shortest-step is_word pre c t false none (none_held []) nothing))
  | inr (n, e) ↦
      let further : (w : Text) → is_word ((pre ++ c ∷ []) ++ w) ≡ holds n w =
        λ w. ap is_word (append_assoc pre (c ∷ []) w) ∙ h (c ∷ w) ∙ holds-some node n c w e in
      let ih = match_end-shortest is_word n (pre ++ c ∷ []) t further in
      rw (e, match_end)
        (ap (λ k. if is_end n then some (length pre) else match_end n t k) (sym (length-suc pre c))
          ∙ sym (
              shortest-step is_word pre c t (is_end n) _
                (h (c ∷ []) ∙ holds-some node n c [] e ∙ holds-nil n) (sym ih)))
]

mask-eq-censor : (root : TrieNode) (k : ℕ) (t : Text) → mask root k t ≡ censor (holds root) k t
unfolding mask censor
mask-eq-censor root k [] = refl
mask-eq-censor root (suc k) (c ∷ t) = ap (λ r. star ∷ r) (mask-eq-censor root k t)
mask-eq-censor root zero (c ∷ t) =
    let same = match_end-shortest (holds root) root [] (c ∷ t) (λ w. refl) in
    ended (match_end root (c ∷ t) 0) (shortest (holds root) [] (c ∷ t)) same
      (mask-eq-censor root 0 t) (λ m. mask-eq-censor root m t)
  where
    ended :
        (m n : Option ℕ)
        → m ≡ n
        → mask root 0 t ≡ censor (holds root) 0 t
        → ((i : ℕ) → mask root i t ≡ censor (holds root) i t)
        → elim m [ none ↦ c ∷ mask root 0 t | some i ↦ star ∷ mask root i t ]
          ≡ elim n [ none ↦ c ∷ censor (holds root) 0 t | some i ↦ star ∷ censor (holds root) i t ]
    ended none none e h k = ap (λ r. c ∷ r) h
    ended none (some j) e h k = absurd (ground arith)
    ended (some i) none e h k = absurd (ground arith)
    ended (some i) (some j) e h k =
        let same : i ≡ j = ground arith in
        ap (λ r. star ∷ r) (k i ∙ ap (λ a. censor (holds root) a t) same)

holds-listed : (ws : List Text) → holds (init new_node ws) ≡ (λ w. listed w ws)
holds-listed ws = fun_ext λ w. holds-init new_node ws w ∙ rw (holds-new_node w) (ground arith)

-- After `Init` of an empty trie with a list of words, `Filter` censors the words of the list: read
-- from the left, at the first byte of a word it stars out the shortest non-empty word of the list
-- that begins there and goes on behind it, and it keeps every other byte.
pub filter-eq-censor :
    (ws : List Text) (text : Text)
    → filter (init new_node ws) text ≡ censor (λ w. listed w ws) 0 text
filter-eq-censor ws text =
    filter-eq-mask (init new_node ws) text
    ∙ mask-eq-censor (init new_node ws) 0 text
    ∙ ap (λ p. censor p 0 text) (holds-listed ws)
