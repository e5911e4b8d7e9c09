-- ===== src/Logic/SensitiveFilter/Loaded.antt =====
-- A filter that was loaded with words that do not contain the star.
use imsystem.Prelude.{Bool, true, false, ◌&&◌, not, List, [], ◌∷◌, ◌≡◌, Bool-cases, inl, inr, arith}
use imsystem.Prelude.Texts.{Text, text_eq, text_eq_iff}
use imsystem.Logic.Trie.{TrieNode, new_node, init}
use imsystem.Logic.Trie.Words.{holds-new_node, listed, holds-init}
use imsystem.Logic.SensitiveFilter.{star}
use imsystem.Logic.SensitiveFilter.Clean.{StarFree, mem_byte}

unfoldable pub star_free_words : List Text → Bool
star_free_words [] = true
star_free_words (w ∷ ws) = not (mem_byte star w) && star_free_words ws

listed-star_free :
    (ws : List Text) (v : Text)
    → star_free_words ws ≡ true
    → listed v ws ≡ true
    → mem_byte star v ≡ false
unfolding star_free_words listed
listed-star_free [] v h l = absurd (ground arith)
listed-star_free (w ∷ ws) v h l = elim (Bool-cases (text_eq v w)) [
  | inl e ↦ rw ((text_eq_iff v w).0 e) (ground arith)
  | inr e ↦ listed-star_free ws v (ground arith) (ground arith)
]

new_node-StarFree : StarFree new_node
new_node-StarFree w h = absurd (ground (arith, holds-new_node w))

-- `Init` with words that do not contain the star keeps the trie free of it.
pub init-StarFree :
    (root : TrieNode) (ws : List Text)
    → star_free_words ws ≡ true
    → StarFree root
    → StarFree (init root ws)
init-StarFree root ws h free w k = elim (Bool-cases (listed w ws)) [
  | inl e ↦ listed-star_free ws w h e
  | inr e ↦ free w (ground (arith, holds-init root ws w))
]

pub loaded-StarFree : (ws : List Text) → star_free_words ws ≡ true → StarFree (init new_node ws)
loaded-StarFree ws h = init-StarFree new_node ws h new_node-StarFree
