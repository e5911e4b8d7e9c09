-- ===== src/Logic/Trie/Words.antt =====
-- Which words a trie holds.
use imsystem.Prelude.{
  ℕ, Bool, false, ◌||◌, not, none, some, List, [], ◌∷◌, ◌==◌, if◌then◌else◌, ◌≡◌, refl, arith,
  is_empty, ◌&&◌, ◌∙◌, ap,
}
use imsystem.Prelude.Texts.{Text, text_eq}
use imsystem.Logic.Trie.{
  TrieNode, Children, no_children, child, children, is_end, new_node, find, put, child_or_new,
  insert_from, add_word, init,
}

-- The word leads to a node that is marked.
unfoldable pub holds : TrieNode → Text → Bool
holds node [] = is_end node
holds node (c ∷ w) = elim (find c (children node)) [ none ↦ false | some n ↦ holds n w ]

find-put :
    (c d : ℕ) (n : TrieNode) (cs : Children)
    → find d (put c n cs) ≡ (if d == c then some n else find d cs)
unfolding find put
find-put c d n no_children = refl
find-put c d n (child e m cs) = ground (arith, find-put c d n cs)

pub holds-new_node : (w : Text) → holds new_node w ≡ false
unfolding holds find
holds-new_node [] = refl
holds-new_node (c ∷ w) = refl

holds_of_child :
    (c : ℕ) (v : Text) (node : TrieNode) → holds (child_or_new c node) v ≡ holds node (c ∷ v)
unfolding holds
holds_of_child c v node = ground (arith, holds-new_node v)

holds-insert_from :
    (w v : Text) (node : TrieNode) → holds (insert_from w node) v ≡ (text_eq v w || holds node v)
unfolding insert_from holds text_eq
holds-insert_from [] [] node = refl
holds-insert_from [] (d ∷ v) node = refl
holds-insert_from (c ∷ w) [] node = refl
holds-insert_from (c ∷ w) (d ∷ v) node =
    let next = child_or_new c node in
    ground (
      arith,
      find-put c d (insert_from w next) (children node),
      holds-insert_from w v next,
      holds-new_node v,
    )

-- `add_word` makes the trie hold its word, and no other new word, unless it is empty.
pub holds-add_word :
    (w v : Text) (node : TrieNode)
    → holds (add_word node w) v ≡ ((not (is_empty w) && text_eq v w) || holds node v)
unfolding add_word
holds-add_word [] v node = refl
holds-add_word (c ∷ w) v node = holds-insert_from (c ∷ w) v node

-- The words that `Init` loads.
unfoldable pub listed : Text → List Text → Bool
listed v [] = false
listed v (w ∷ ws) = (not (is_empty w) && text_eq v w) || listed v ws

||_swap : (a b c : Bool) → (a || (b || c)) ≡ ((b || a) || c)
||_swap a b c = ground arith

-- After `Init` the trie holds the words that it held before and the non-empty words of the list,
-- and no other.
pub holds-init :
    (root : TrieNode) (ws : List Text) (v : Text)
    → holds (init root ws) v ≡ (listed v ws || holds root v)
unfolding init listed
holds-init root [] v = refl
holds-init root (w ∷ ws) v =
    holds-init (add_word root w) ws v
    ∙ ap (λ b. listed v ws || b) (holds-add_word w v root)
    ∙ ||_swap (listed v ws) (not (is_empty w) && text_eq v w) (holds root v)
