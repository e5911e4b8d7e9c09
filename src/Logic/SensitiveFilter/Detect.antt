-- ===== src/Logic/SensitiveFilter/Detect.antt =====
-- What `HasSensitiveWord` detects in a text.
use imsystem.Prelude.{
  ℕ, true, false, some, List, [], ◌∷◌, ◌++◌, ◌≡◌, ◌≢◌, ◌⊎◌, inl, inr, refl, arith, Bool-cases,
  Option-cases, ◌||◌, ap, ◌∙◌, sym, ◌↔◌, append_assoc,
}
use imsystem.Prelude.Texts.{Text}
use imsystem.Logic.Trie.{TrieNode, trie_node, no_children, child, find, children, is_end, childless}
use imsystem.Logic.Trie.{init}
use imsystem.Logic.Trie.Words.{holds, listed, holds-init}
use imsystem.Logic.SensitiveFilter.{reaches_end, has_from, has_sensitive_word}

-- A non-empty word of the trie stands at the head of the text, and `rest` behind it.
pub record Begins (node : TrieNode) (t : Text) : Type 0 where
  pub word : Text
  pub rest : Text
  pub nonempty : word ≢ []
  pub held : holds node word ≡ true
  pub split : t ≡ word ++ rest

-- A non-empty word of the trie stands somewhere in the text.
pub record Occurs (node : TrieNode) (t : Text) : Type 0 where
  pub before : Text
  pub after : Text
  pub here : Begins node after
  pub split : t ≡ before ++ after

cons-ne-nil : (c : ℕ) (w : Text) → c ∷ w ≢ []
cons-ne-nil c w e = cc

-- One byte read leads to a child, and the child is marked or the rest reaches an end from it.
reaches_end-step :
    (node : TrieNode) (c : ℕ) (t : Text)
    → reaches_end node (c ∷ t) ≡ true
    → (n : TrieNode) × (find c (children node) ≡ some n)
      × ((is_end n ≡ true) ⊎ (reaches_end n t ≡ true))
unfolding reaches_end
reaches_end-step node c t h = elim (Option-cases (find c (children node))) [
  | inl e ↦ absurd (ground arith)
  | inr (n, e) ↦ (n, e, ground arith)
]

holds-child :
    (node n : TrieNode) (c : ℕ) (w : Text)
    → find c (children node) ≡ some n
    → holds node (c ∷ w) ≡ holds n w
unfolding holds
holds-child node n c w e = rw (e, holds)

pub reaches_end-Begins : (node : TrieNode) (t : Text) → reaches_end node t ≡ true → Begins node t
unfolding reaches_end holds
reaches_end-Begins node [] h = cc
reaches_end-Begins node (c ∷ t) h =
    let (n, e, m) = reaches_end-step node c t h in
    elim m [
      | inl marked ↦ record {
        word = c ∷ [];
        rest = t;
        nonempty = cons-ne-nil c [];
        held = holds-child node n c [] e ∙ marked;
        split = refl;
      }
      | inr further ↦
          let b = reaches_end-Begins n t further in
          record {
            word = c ∷ b.word;
            rest = b.rest;
            nonempty = cons-ne-nil c b.word;
            held = holds-child node n c b.word e ∙ b.held;
            split = ap (λ x. c ∷ x) b.split;
          }
    ]

word-reaches_end :
    (node : TrieNode) (c : ℕ) (w r : Text)
    → holds node (c ∷ w) ≡ true
    → reaches_end node (c ∷ (w ++ r)) ≡ true
unfolding reaches_end holds
word-reaches_end node c [] r h = ground arith
word-reaches_end node c (d ∷ w) r h = elim (Option-cases (find c (children node))) [
  | inl e ↦ absurd (ground arith)
  | inr (n, e) ↦ ground (arith, word-reaches_end n d w r (rw (e, holds) at h))
]

pub Begins-reaches_end : {node : TrieNode} {t : Text} → Begins node t → reaches_end node t ≡ true
Begins-reaches_end {node} {t} b = go b.word b.held b.nonempty b.split
  where
    go : (w : Text) → holds node w ≡ true → w ≢ [] → t ≡ w ++ b.rest → reaches_end node t ≡ true
    go [] h ne e = absurd (ne refl)
    go (c ∷ w) h ne e = rw e (word-reaches_end node c w b.rest h)

has_from-Occurs : (root : TrieNode) (t : Text) → has_from root t ≡ true → Occurs root t
unfolding has_from
has_from-Occurs root [] h = cc
has_from-Occurs root (c ∷ t) h = elim (Bool-cases (reaches_end root (c ∷ t))) [
  | inl e ↦ record {
    before = [];
    after = c ∷ t;
    here = reaches_end-Begins root (c ∷ t) e;
    split = refl;
  }
  | inr e ↦
      let o = has_from-Occurs root t (ground arith) in
      record {
        before = c ∷ o.before;
        after = o.after;
        here = o.here;
        split = ap (λ x. c ∷ x) o.split;
      }
]

-- It is enough that the word stands behind any bytes.
has_from-behind :
    (root : TrieNode) (before after : Text)
    → reaches_end root after ≡ true
    → has_from root (before ++ after) ≡ true
unfolding has_from reaches_end
has_from-behind root [] [] h = cc
has_from-behind root [] (c ∷ t) h = rw h
has_from-behind root (c ∷ b) after h = ground (arith, has_from-behind root b after h)

reaches_end-childless :
    (root : TrieNode) (t : Text) → childless root ≡ true → reaches_end root t ≡ false
unfolding reaches_end
reaches_end-childless root [] h = refl
reaches_end-childless (trie_node no_children e) (c ∷ t) h = refl
reaches_end-childless (trie_node (child d n cs) e) (c ∷ t) h = cc

pub has_from-childless :
    (root : TrieNode) (t : Text) → childless root ≡ true → has_from root t ≡ false
unfolding has_from
has_from-childless root [] h = refl
has_from-childless root (c ∷ t) h =
    rw (reaches_end-childless root (c ∷ t) h) (has_from-childless root t h)

-- The early return changes nothing.
pub has_sensitive_word-eq-has_from :
    (root : TrieNode) (t : Text) → has_sensitive_word root t ≡ has_from root t
unfolding has_sensitive_word has_from
has_sensitive_word-eq-has_from root [] = refl
has_sensitive_word-eq-has_from root (c ∷ t) = ground (arith, has_from-childless root (c ∷ t))

-- `HasSensitiveWord` answers yes exactly when a non-empty word that the trie holds occurs in the
-- text.
pub has_sensitive_word-Occurs :
    (root : TrieNode) (t : Text) → (has_sensitive_word root t ≡ true) ↔ Occurs root t
has_sensitive_word-Occurs root t = (
  λ h. has_from-Occurs root t (sym (has_sensitive_word-eq-has_from root t) ∙ h),
  λ o.
      has_sensitive_word-eq-has_from root t
      ∙ ap (has_from root) o.split
      ∙ has_from-behind root o.before o.after (Begins-reaches_end o.here),
)

-- A non-empty word of the list or of the trie before occurs in the text.
pub record Contains (root : TrieNode) (ws : List Text) (t : Text) : Type 0 where
  pub before : Text
  pub word : Text
  pub after : Text
  pub nonempty : word ≢ []
  pub known : (listed word ws || holds root word) ≡ true
  pub split : t ≡ before ++ word ++ after

Occurs-Contains :
    (root : TrieNode) (ws : List Text) (t : Text) → Occurs (init root ws) t → Contains root ws t
Occurs-Contains root ws t o = record {
  before = o.before;
  word = o.here.word;
  after = o.here.rest;
  nonempty = o.here.nonempty;
  known = sym (holds-init root ws o.here.word) ∙ o.here.held;
  split =
      o.split
      ∙ ap (λ r. o.before ++ r) o.here.split
      ∙ sym (append_assoc o.before o.here.word o.here.rest);
}

Contains-Occurs :
    (root : TrieNode) (ws : List Text) (t : Text) → Contains root ws t → Occurs (init root ws) t
Contains-Occurs root ws t c = record {
  before = c.before;
  after = c.word ++ c.after;
  here = record {
    word = c.word;
    rest = c.after;
    nonempty = c.nonempty;
    held = holds-init root ws c.word ∙ c.known;
    split = refl;
  };
  split = c.split ∙ append_assoc c.before c.word c.after;
}

-- After `Init` with a list of words, `HasSensitiveWord` answers yes exactly when a non-empty word
-- of the list, or of the trie before, occurs in the text.
pub has_sensitive_word-init :
    (root : TrieNode) (ws : List Text) (t : Text)
    → (has_sensitive_word (init root ws) t ≡ true) ↔ Contains root ws t
has_sensitive_word-init root ws t =
    let (detects, misses_none) = has_sensitive_word-Occurs (init root ws) t in
    (λ h. Occurs-Contains root ws t (detects h), λ c. misses_none (Contains-Occurs root ws t c))
