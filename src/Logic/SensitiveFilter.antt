-- ===== src/Logic/SensitiveFilter.antt =====
-- `HasSensitiveWord` and `Filter` of logic/src/sensitive_filter.cpp.
pub mod Detect
pub mod Reading
pub mod Mask
pub mod Censor
pub mod Clean
pub mod Loaded
use imsystem.Prelude.{
  ℕ, zero, suc, ◌+◌, ◌-◌, Bool, true, false, ◌||◌, Option, none, some, List, [], ◌∷◌, length, set,
  drop, is_empty, ltb, if◌then◌else◌,
}
use imsystem.Prelude.Texts.{Text}
use imsystem.Logic.Trie.{TrieNode, find, children, is_end, childless}

abbrev pub star : ℕ
star = b'*'

-- The inner loop of `HasSensitiveWord`, over the bytes from position j on.
unfoldable pub reaches_end : TrieNode → Text → Bool
unfolding find
reaches_end node [] = false
reaches_end node (c ∷ t) = elim (find c (children node)) [
  | none ↦ false
  | some n ↦ if is_end n then true else reaches_end n t
]

-- The outer loop, over the bytes from position i on.
unfoldable pub has_from : TrieNode → Text → Bool
unfolding reaches_end
has_from root [] = false
has_from root (c ∷ t) = if reaches_end root (c ∷ t) then true else has_from root t

unfoldable pub has_sensitive_word : TrieNode → Text → Bool
unfolding has_from
has_sensitive_word root text = if is_empty text || childless root then false else has_from root text

-- The inner loop of `Filter`: the position j at which a word ends, the text being the bytes from
-- j on.
unfoldable pub match_end : TrieNode → Text → ℕ → Option ℕ
unfolding find
match_end node [] j = none
match_end node (c ∷ t) j = elim (find c (children node)) [
  | none ↦ none
  | some n ↦ if is_end n then some j else match_end n t (j + 1)
]

-- `for (k = i; k <= j; ++k) result[k] = '*'`, for the rounds that are left.
unfoldable pub star_out : ℕ → ℕ → Text → Text
star_out zero k result = result
star_out (suc n) k result = star_out n (k + 1) (set result k star)

-- The outer loop of `Filter`, on fuel: `i` grows in every round.
unfoldable pub filter_loop : ℕ → TrieNode → Text → ℕ → Text → Text
unfolding match_end star_out
filter_loop zero root text i result = result
filter_loop (suc fuel) root text i result =
    if ltb i (length text)
    then (elim (match_end root (drop i text) i) [
      | none ↦ filter_loop fuel root text (i + 1) result
      | some j ↦ filter_loop fuel root text (j + 1) (star_out (j + 1 - i) i result)
    ])
    else result

unfoldable pub filter : TrieNode → Text → Text
unfolding filter_loop
filter root text =
    if is_empty text || childless root then text else filter_loop (length text) root text 0 text
