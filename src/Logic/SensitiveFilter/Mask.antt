-- ===== src/Logic/SensitiveFilter/Mask.antt =====
-- The loops of `Filter` against a plain recursion over the text, `mask`.
use imsystem.Prelude.{
  ℕ, zero, suc, ◌+◌, ◌-◌, ◌≤◌, true, none, some, [], ◌∷◌, ◌++◌, ◌≡◌, refl, ap, sym, ◌∙◌, arith,
  length, take, drop, replicate, Bool-cases, Option-cases, append_assoc, length-drop, inl, inr,
  lt→ltb, le→ltb,
}
use imsystem.Prelude.Texts.{Text}
use imsystem.Logic.Trie.{TrieNode, trie_node, no_children, child, find, childless}
use imsystem.Logic.SensitiveFilter.{star, match_end, star_out, filter_loop, filter}
use imsystem.Logic.SensitiveFilter.Reading.{
  shift, match_end-lt, At, length-At, keep-At, star-At, match_end-At,
}

-- Read from the left: at the first byte of a word the shortest such word is starred out, and the
-- reading goes on behind it; any other byte is kept. The number is what is left to star out.
unfoldable pub mask : TrieNode → ℕ → Text → Text
mask root k [] = []
mask root (suc k) (c ∷ t) = star ∷ mask root k t
mask root zero (c ∷ t) = elim (match_end root (c ∷ t) 0) [
  | none ↦ c ∷ mask root 0 t
  | some m ↦ star ∷ mask root m t
]

mask-skip :
    (root : TrieNode) (m : ℕ) (t : Text)
    → m ≤ length t
    → mask root m t ≡ replicate m star ++ mask root 0 (drop m t)
unfolding mask
mask-skip root zero t h = refl
mask-skip root (suc m) [] h = absurd (omega arith)
mask-skip root (suc m) (c ∷ t) h = ap (λ r. star ∷ r) (mask-skip root m t (omega arith))

-- One round of the loop while bytes are left.
filter_loop-step :
    (fuel : ℕ) (root : TrieNode) {text : Text} {i : ℕ} {result pre : Text} (c : ℕ) (t : Text)
    {done : Text}
    → At text i result pre (c ∷ t) done
    → filter_loop (suc fuel) root text i result ≡ (elim (shift i (match_end root (c ∷ t) 0)) [
      | none ↦ filter_loop fuel root text (i + 1) result
      | some j ↦ filter_loop fuel root text (j + 1) (star_out (j + 1 - i) i result)
    ])
unfolding filter_loop
filter_loop-step fuel root {text} {i} c t a =
    rw (lt→ltb i (length text) (omega (arith, length-At a)), match_end-At root a)

filter_loop-mask :
    (fuel : ℕ) (root : TrieNode) (text : Text) (i : ℕ) (result pre rest done : Text)
    → At text i result pre rest done
    → length rest ≤ fuel
    → filter_loop fuel root text i result ≡ done ++ mask root 0 rest
unfolding filter_loop mask
filter_loop-mask zero root text i result pre [] done a h = a.written
filter_loop-mask zero root text i result pre (c ∷ t) done a h = absurd (omega arith)
filter_loop-mask (suc f) root text i result pre [] done a h =
    rw (le→ltb i (length text) (omega (arith, length-At a))) a.written
filter_loop-mask (suc f) root text i result pre (c ∷ t) done a h =
    filter_loop-step f root c t a ∙ elim (Option-cases (match_end root (c ∷ t) 0)) [
      | inl e ↦
          rw (e, mask)
            (filter_loop-mask f root text (i + 1) result (pre ++ c ∷ []) t (done ++ c ∷ [])
                (keep-At c t a) (omega arith)
              ∙ append_assoc done (c ∷ []) (mask root 0 t))
      | inr (m, e) ↦
          let short : m ≤ length t = omega (arith, match_end-lt root (c ∷ t) 0 m e) in
          rw (e, mask)
            (ap (λ k. filter_loop f root text k (star_out (i + m + 1 - i) i result)) (next m)
              ∙ ap (λ n. filter_loop f root text (i + suc m) (star_out n i result)) (rounds m)
              ∙ filter_loop-mask f root text (i + suc m) (star_out (suc m) i result)
                  (pre ++ take (suc m) (c ∷ t)) (drop m t) (done ++ replicate (suc m) star)
                  (star-At (suc m) (c ∷ t) (omega arith) a) (omega (arith, length-drop m t))
              ∙ append_assoc done (replicate (suc m) star) (mask root 0 (drop m t))
              ∙ ap (λ r. done ++ star ∷ r) (sym (mask-skip root m t short)))
    ]
  where
    next : (m : ℕ) → i + m + 1 ≡ i + suc m
    next m = omega arith

    rounds : (m : ℕ) → i + m + 1 - i ≡ suc m
    rounds m = omega arith

mask-childless : (root : TrieNode) (t : Text) → childless root ≡ true → mask root 0 t ≡ t
unfolding mask match_end find
mask-childless root [] h = refl
mask-childless (trie_node no_children e) (c ∷ t) h =
    ap (λ r. c ∷ r) (mask-childless (trie_node no_children e) t h)
mask-childless (trie_node (child d n cs) e) (c ∷ t) h = cc

-- `Filter` on fuel, the length of the text, is `mask`: the fuel is enough, and the byte offsets of
-- the two loops agree.
pub filter-eq-mask : (root : TrieNode) (text : Text) → filter root text ≡ mask root 0 text
unfolding filter mask
filter-eq-mask root [] = refl
filter-eq-mask root (c ∷ t) = elim (Bool-cases (childless root)) [
  | inl e ↦ rw e (ap (λ r. r) (sym (mask-childless root (c ∷ t) e)))
  | inr e ↦ rw e (
      filter_loop-mask (length (c ∷ t)) root (c ∷ t) 0 (c ∷ t) [] (c ∷ t) []
        (record { read = refl; written = refl; index = refl; same = refl }) (omega arith))
]
