-- ===== src/Logic/SensitiveFilter/Reading.antt =====
-- Where the outer loop of `Filter` stands, and what its steps do to the two texts.
use native.Mathlib.Nat.{add_assoc}
use imsystem.Prelude.{
  ℕ, zero, suc, ◌+◌, ◌≤◌, ◌<◌, Option, none, some, [], ◌∷◌, ◌++◌, ◌≡◌, refl, ap, sym, ◌∙◌, arith,
  length, set, take, drop, replicate, Option-cases, append_assoc, length-append, length-replicate,
  length-take, take-append-drop, inl, inr,
}
use imsystem.Prelude.Texts.{Text}
use imsystem.Logic.Trie.{TrieNode, find, children}
use imsystem.Logic.SensitiveFilter.{star, match_end, star_out}

abbrev pub shift : ℕ → Option ℕ → Option ℕ
shift a none = none
shift a (some m) = some (a + m)

pub match_end-shift :
    (node : TrieNode) (t : Text) (a b : ℕ) → match_end node t (a + b) ≡ shift a (match_end node t b)
unfolding match_end
match_end-shift node [] a b = refl
match_end-shift node (c ∷ t) a b = elim (Option-cases (find c (children node))) [
  | inl e ↦ rw (e, match_end)
  | inr (n, e) ↦ ground (arith, match_end-shift n t a (b + 1), ap (match_end n t) (add_assoc a b 1))
]

pub match_end-lt :
    (node : TrieNode) (t : Text) (j m : ℕ)
    → match_end node t j ≡ some m
    → (j ≤ m) × (m < j + length t)
unfolding match_end
match_end-lt node [] j m h = cc
match_end-lt node (c ∷ t) j m h = elim (Option-cases (find c (children node))) [
  | inl e ↦ absurd (ground arith)
  | inr (n, e) ↦ ground (arith, match_end-lt n t (j + 1) m)
]

pub drop-length-append : (xs ys : Text) → drop (length xs) (xs ++ ys) ≡ ys
drop-length-append [] ys = refl
drop-length-append (x ∷ xs) ys = drop-length-append xs ys

pub set-length-append : (xs ys : Text) (c v : ℕ) → set (xs ++ c ∷ ys) (length xs) v ≡ xs ++ v ∷ ys
set-length-append [] ys c v = refl
set-length-append (x ∷ xs) ys c v = ap (λ r. x ∷ r) (set-length-append xs ys c v)

pub star_out_lem :
    (n k : ℕ) (done rest : Text)
    → k ≡ length done
    → n ≤ length rest
    → star_out n k (done ++ rest) ≡ done ++ (replicate n star ++ drop n rest)
unfolding star_out
star_out_lem zero k done rest e h = refl
star_out_lem (suc n) k done [] e h = absurd (omega arith)
star_out_lem (suc n) k done (c ∷ rest) e h =
    ap (star_out n (k + 1)) (
      ap (λ j. set (done ++ c ∷ rest) j star) e
      ∙ set-length-append done rest c star
      ∙ sym (append_assoc done (star ∷ []) rest))
    ∙ star_out_lem n (k + 1) (done ++ star ∷ []) rest
        (omega (arith, length-append done (star ∷ []))) (omega arith)
    ∙ append_assoc done (star ∷ []) (replicate n star ++ drop n rest)

-- Where the loop stands: the text read and its image, and the text that is left.
pub record At (text : Text) (i : ℕ) (result pre rest done : Text) : Type 0 where
  pub read : text ≡ pre ++ rest
  pub written : result ≡ done ++ rest
  pub index : i ≡ length pre
  pub same : length done ≡ length pre

pub drop-At :
    {text : Text} {i : ℕ} {result pre rest done : Text}
    → At text i result pre rest done
    → drop i text ≡ rest
drop-At {text} {pre = pre} {rest = rest} a =
    ap (λ k. drop k text) a.index ∙ ap (drop (length pre)) a.read ∙ drop-length-append pre rest

pub length-At :
    {text : Text} {i : ℕ} {result pre rest done : Text}
    → At text i result pre rest done
    → length text ≡ i + length rest
length-At {pre = pre} {rest = rest} a =
    ap length a.read ∙ length-append pre rest ∙ ap (λ k. k + length rest) (sym a.index)

-- A byte is kept.
pub keep-At :
    {text : Text} {i : ℕ} {result pre : Text} (c : ℕ) (rest : Text) {done : Text}
    → At text i result pre (c ∷ rest) done
    → At text (i + 1) result (pre ++ c ∷ []) rest (done ++ c ∷ [])
keep-At {pre = pre} c rest {done = done} a = record {
  read = a.read ∙ sym (append_assoc pre (c ∷ []) rest);
  written = a.written ∙ sym (append_assoc done (c ∷ []) rest);
  index = omega (arith, a, length-append pre (c ∷ []));
  same = omega (arith, a, length-append pre (c ∷ []), length-append done (c ∷ []));
}

-- n bytes are starred out.
pub star-At :
    {text : Text} {i : ℕ} {result pre : Text} (n : ℕ) (rest : Text) {done : Text}
    → n ≤ length rest
    → At text i result pre rest done
    → At text
        (i + n)
        (star_out n i result)
        (pre ++ take n rest)
        (drop n rest)
        (done ++ replicate n star)
star-At {i = i} {pre = pre} n rest {done = done} h a = record {
  read =
      a.read
      ∙ ap (λ r. pre ++ r) (sym (take-append-drop n rest))
      ∙ sym (append_assoc pre (take n rest) (drop n rest));
  written =
      ap (star_out n i) a.written
      ∙ star_out_lem n i done rest (omega (arith, a)) h
      ∙ sym (append_assoc done (replicate n star) (drop n rest));
  index = omega (arith, a, length-append pre (take n rest), length-take n rest);
  same = omega (
    arith,
    a,
    length-append pre (take n rest),
    length-take n rest,
    length-append done (replicate n star),
    length-replicate n star,
  );
}

pub match_end-At :
    (root : TrieNode) {text : Text} {i : ℕ} {result pre rest done : Text}
    → At text i result pre rest done
    → match_end root (drop i text) i ≡ shift i (match_end root rest 0)
match_end-At root {i = i} {rest = rest} a =
    ap (λ r. match_end root r i) (drop-At a)
    ∙ ap (match_end root rest) (add-zero' i)
    ∙ match_end-shift root rest i 0
  where
    add-zero' : (n : ℕ) → n ≡ n + 0
    add-zero' n = omega arith
