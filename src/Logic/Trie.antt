-- ===== src/Logic/Trie.antt =====
-- The trie of logic/src/sensitive_filter.h and `AddWord` and `Init` of sensitive_filter.cpp.
-- A child map is an association list by byte; a walk by pointer that changes a node below the
-- root returns the changed path.
pub mod Words
use imsystem.Prelude.{ℕ, Bool, true, false, Option, none, some, List, [], ◌∷◌, ◌==◌, if◌then◌else◌}
use imsystem.Prelude.Texts.{Text}

mutual
  pub data TrieNode : Type 0 where
    trie_node : Children → Bool → TrieNode

  pub data Children : Type 0 where
    no_children : Children
    child : ℕ → TrieNode → Children → Children

abbrev pub children : TrieNode → Children
children (trie_node cs e) = cs

abbrev pub is_end : TrieNode → Bool
is_end (trie_node cs e) = e

abbrev pub new_node : TrieNode
new_node = trie_node no_children false

-- `children.find(c)`
unfoldable pub find : ℕ → Children → Option TrieNode
find c no_children = none
find c (child d n cs) = if c == d then some n else find c cs

-- `children[c] = n`
unfoldable pub put : ℕ → TrieNode → Children → Children
put c n no_children = child c n no_children
put c n (child d m cs) = if c == d then child d n cs else child d m (put c n cs)

-- `children.empty()`
abbrev pub childless : TrieNode → Bool
childless (trie_node no_children e) = true
childless (trie_node (child c n cs) e) = false

-- `children[c].get()`, after a node has been put there if there was none.
abbrev pub child_or_new : ℕ → TrieNode → TrieNode
child_or_new c node = elim (find c (children node)) [ none ↦ new_node | some n ↦ n ]

-- The loop of `AddWord` over the bytes that are left, and the mark at its end.
unfoldable pub insert_from : Text → TrieNode → TrieNode
insert_from [] node = trie_node (children node) true
insert_from (c ∷ w) node =
    trie_node (put c (insert_from w (child_or_new c node)) (children node)) (is_end node)

-- An empty word returns early.
unfoldable pub add_word : TrieNode → Text → TrieNode
unfolding insert_from
add_word root [] = root
add_word root (c ∷ w) = insert_from (c ∷ w) root

-- `Init` adds each word to the trie that is there.
unfoldable pub init : TrieNode → List Text → TrieNode
unfolding add_word
init root [] = root
init root (w ∷ ws) = init (add_word root w) ws
