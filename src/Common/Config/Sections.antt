-- ===== src/Common/Config/Sections.antt =====
-- How `Load` reads a file of two sections, each with one entry.
use imsystem.Prelude.{
  ℕ, ◌≤◌, ◌<◌, ◌≡◌, ◌≢◌, refl, ap, sym, ◌∙◌, arith, true, false, some, List, [], ◌∷◌, ◌++◌,
  if◌then◌else◌, is_empty, le→ltb, append_assoc,
}
use imsystem.Prelude.Texts.{Text, text_eq, text_eq_iff, text_eq_refl, text_eq-ne}
use imsystem.Common.Config.Load.{
  ConfigMap, LoadState, initial, lookup, assign, pop_deeper, stack_prefix, full_key, read_line,
  read_lines, load,
}
use imsystem.Common.Config.Lines.{join_keys}
use imsystem.Common.Config.Get.{get_string}
use imsystem.Common.Config.Plain.{IsWord, all_bytes, is_plain, section_line, entry_line}
use imsystem.Common.Config.Printed.{read_line-section_line, read_line-entry_line}
use imsystem.Common.Config.Files.{
  no_newline-section_line, no_newline-entry_line, file_of, AllLines, split_lines-file_of,
}

pub lookup-assign :
    (k j : Text) (v : Text) (m : ConfigMap)
    → lookup j (assign k v m) ≡ (if text_eq j k then some v else lookup j m)
unfolding lookup assign
lookup-assign k j v [] = refl
lookup-assign k j v ((i, w) ∷ m) =
    ground (arith, text_eq_iff k i, text_eq_iff j i, text_eq_iff j k, lookup-assign k j v m)

pub get_string-assign :
    (k j v default_val : Text) (m : ConfigMap)
    → get_string (assign k v m) j default_val
      ≡ (if text_eq j k then v else get_string m j default_val)
unfolding get_string
get_string-assign k j v default_val m = ground (arith, lookup-assign k j v m)

get_string-nil : (j default_val : Text) → get_string [] j default_val ≡ default_val
unfolding get_string lookup
get_string-nil j default_val = refl

-- "a.b"
abbrev pub dotted : Text → Text → Text
dotted a b = a ++ b'.' ∷ b

false-true : false ≡ true → ⊥
false-true e = cc

no_dot : (a b : Text) → all_bytes is_plain (dotted a b) ≡ false
unfolding all_bytes is_plain
no_dot [] b = ground arith
no_dot (c ∷ a) b = ground (arith, no_dot a b)

-- The first dot splits a key.
pub dotted_injective :
    (a a' b b' : Text)
    → all_bytes is_plain a ≡ true
    → all_bytes is_plain a' ≡ true
    → dotted a b ≡ dotted a' b'
    → (a ≡ a') × (b ≡ b')
unfolding all_bytes is_plain
dotted_injective [] [] b b' h h' e = (refl, ground arith)
dotted_injective [] (c ∷ a') b b' h h' e = ground arith
dotted_injective (c ∷ a) [] b b' h h' e = ground arith
dotted_injective (c ∷ a) (c' ∷ a') b b' h h' e = ground (arith, dotted_injective a a' b b')

-- Two sections that stand side by side, with an entry below each that is indented by d.
abbrev pub two_sections : ℕ → Text → Text → Text → Text → Text → Text → List Text
two_sections d s1 k1 v1 s2 k2 v2 =
    section_line 0 s1 ∷ entry_line d k1 v1 ∷ section_line 0 s2 ∷ entry_line d k2 v2 ∷ []

nonempty : (s : Text) → s ≢ [] → is_empty s ≡ false
nonempty [] h = absurd (h refl)
nonempty (c ∷ s) h = refl

full_key-dotted : (p k : Text) → p ≢ [] → full_key p k ≡ dotted p k
full_key-dotted p k h = rw (nonempty p h) (append_assoc p (b'.' ∷ []) k)

dotted-ne-nil : (a b : Text) → dotted a b ≢ []
dotted-ne-nil [] b e = cc
dotted-ne-nil (c ∷ a) b e = cc

-- A section that is not deeper than the line stays open, the section of the same depth too.
pub pop_deeper-keeps :
    (n i : ℕ) (is : List ℕ) (ks : List Text) → i ≤ n → pop_deeper n (i ∷ is) ks ≡ (i ∷ is, ks)
unfolding pop_deeper
pop_deeper-keeps n i is ks h = rw (le→ltb n i h)

module _ {d : ℕ} {s1 k1 v1 s2 k2 v2 : Text} (deep : 0 < d) (ws1 : IsWord s1) (wk1 : IsWord k1)
    (wv1 : IsWord v1) (ws2 : IsWord s2) (wk2 : IsWord k2) (wv2 : IsWord v2) where
  abbrev opened : ConfigMap → LoadState
  opened m = record {
    config_map = m;
    key_stack = s1 ∷ [];
    indent_stack = 0 ∷ [];
    list_counters = [];
  }

  abbrev nested : ConfigMap → LoadState
  nested m = record {
    config_map = m;
    key_stack = s2 ∷ s1 ∷ [];
    indent_stack = 0 ∷ 0 ∷ [];
    list_counters = [];
  }

  prefix_one : (m : ConfigMap) → stack_prefix (opened m) ≡ s1
  unfolding join_keys
  prefix_one m = rw (nonempty s1 ws1.1)

  prefix_two : (m : ConfigMap) → stack_prefix (nested m) ≡ dotted s1 s2
  unfolding join_keys
  prefix_two m =
      ground (arith, nonempty s1 ws1.1, nonempty s2 ws2.1, append_assoc s1 (b'.' ∷ []) s2)

  read_first : read_line (section_line 0 s1) initial ≡ opened []
  unfolding pop_deeper
  read_first = read_line-section_line 0 s1 initial ws1

  read_second : read_line (entry_line d k1 v1) (opened []) ≡ opened (assign (dotted s1 k1) v1 [])
  read_second =
      read_line-entry_line d k1 v1 (opened []) wk1 wv1
      ∙ rw (
        pop_deeper-keeps d 0 [] (s1 ∷ []) (omega arith),
        prefix_one [],
        full_key-dotted s1 k1 ws1.1,
      )

  -- The second section is not deeper than the first, and yet the first stays open.
  read_third : (m : ConfigMap) → read_line (section_line 0 s2) (opened m) ≡ nested m
  unfolding pop_deeper
  read_third m = read_line-section_line 0 s2 (opened m) ws2

  read_fourth :
      (m : ConfigMap)
      → read_line (entry_line d k2 v2) (nested m) ≡ nested (assign (dotted (dotted s1 s2) k2) v2 m)
  read_fourth m =
      read_line-entry_line d k2 v2 (nested m) wk2 wv2
      ∙ rw (
        pop_deeper-keeps d 0 (0 ∷ []) (s2 ∷ s1 ∷ []) (omega arith),
        prefix_two m,
        full_key-dotted (dotted s1 s2) k2 (dotted-ne-nil s1 s2),
      )

  two_sections-map :
      read_lines (two_sections d s1 k1 v1 s2 k2 v2) initial
      ≡ nested (assign (dotted (dotted s1 s2) k2) v2 (assign (dotted s1 k1) v1 []))
  unfolding read_lines
  two_sections-map = rw (read_first, read_second, read_third, read_fourth)

  pub two_sections-load :
      load (some (file_of (two_sections d s1 k1 v1 s2 k2 v2)))
      ≡ (true, assign (dotted (dotted s1 s2) k2) v2 (assign (dotted s1 k1) v1 []))
  unfolding load
  two_sections-load =
      rw (split_lines-file_of (two_sections d s1 k1 v1 s2 k2 v2) whole, two_sections-map)
    where
      whole : AllLines (two_sections d s1 k1 v1 s2 k2 v2)
      whole = (
        no_newline-section_line 0 s1 ws1,
        (
          no_newline-entry_line d k1 v1 wk1 wv1,
          (no_newline-section_line 0 s2 ws2, (no_newline-entry_line d k2 v2 wk2 wv2, tt)),
        ),
      )

  first_key : dotted s1 k1 ≢ dotted (dotted s1 s2) k2
  first_key e =
      let split =
        dotted_injective s1 s1 k1 (dotted s2 k2) ws1.0 ws1.0
          (e ∙ append_assoc s1 (b'.' ∷ s2) (b'.' ∷ k2)) in
      false-true (sym (no_dot s2 k2) ∙ ap (all_bytes is_plain) (sym split.1) ∙ wk1.0)

  -- Of two sections that stand side by side, each with one entry, `Load` puts the second below the
  -- first: its entry is found under "first.second.key", and if the sections have different names
  -- it is not found under "second.key". The first section's entry is found under "first.key".
  -- Names, keys and values are words, and the entries are indented by the same positive number of
  -- spaces.
  pub two_sections-get_string :
      (default_val : Text)
      → s1 ≢ s2
      → let m = (load (some (file_of (two_sections d s1 k1 v1 s2 k2 v2)))).1 in
        (get_string m (dotted s1 k1) default_val ≡ v1)
        × (get_string m (dotted (dotted s1 s2) k2) default_val ≡ v2)
        × (get_string m (dotted s2 k2) default_val ≡ default_val)
  two_sections-get_string default_val ne = rw two_sections-load (
    rw (get_string-assign, get_string-assign, text_eq-ne _ _ first_key, text_eq_refl),
    rw (get_string-assign, text_eq_refl),
    rw (
      get_string-assign,
      get_string-assign,
      text_eq-ne _ _ (λ e. ne (sym (second_apart e))),
      text_eq-ne _ _ (λ e. ne (sym (dotted_injective s2 s1 k2 k1 ws2.0 ws1.0 e).0)),
      get_string-nil,
    ),
  )
    where
      second_apart : dotted s2 k2 ≡ dotted (dotted s1 s2) k2 → s2 ≡ s1
      second_apart e =
          (dotted_injective s2 s1 k2 (dotted s2 k2) ws2.0 ws1.0
            (e ∙ append_assoc s1 (b'.' ∷ s2) (b'.' ∷ k2))).0
