-- ===== src/Common/Config/Items.antt =====
-- How `Load` reads the items below a section.
use mathlib.Core.List.{append_assoc, append-nil}
use imsystem.Prelude.{
  ℕ, zero, suc, ◌+◌, ◌≤◌, ◌≡◌, ◌≢◌, refl, ap, sym, ◌∙◌, arith, false, none, some, Bool-cases, inl,
  inr, List, [], ◌∷◌, ◌++◌, map, length, is_empty, length-append,
}
use imsystem.Prelude.Texts.{Text, text_eq, text_eq_refl, text_eq-ne}
use imsystem.Common.Chars.Decimal.{to_string_injective}
use imsystem.Common.Chars.Numbers.{to_string}
use imsystem.Common.Config.Lines.{join_keys}
use imsystem.Common.Config.Load.{
  Dict, ConfigMap, LoadState, lookup, assign, stack_prefix, read_item, read_line, read_lines,
}
use imsystem.Common.Config.Plain.{IsWord, trim-word, unquote-word}
use imsystem.Common.Config.Printed.{item_line, read_line-item_line}
use imsystem.Common.Config.Sections.{dotted, dotted_injective, pop_deeper-keeps}

some-ne-none : (w : Text) → some w ≢ none
some-ne-none w e = cc

pub assign_fresh :
    (k v : Text) (m : ConfigMap) → lookup k m ≡ none → assign k v m ≡ m ++ (k, v) ∷ []
unfolding lookup assign
assign_fresh k v [] h = refl
assign_fresh k v ((j, w) ∷ m) h = elim (Bool-cases (text_eq k j)) [
  | inl e ↦ absurd (some-ne-none w (sym (rw e refl) ∙ h))
  | inr e ↦ rw e (ap (λ r. (j, w) ∷ r) (assign_fresh k v m (rw e at h)))
]

module _ (key : Text) (word : IsWord key) where
  -- The entries of the items from the index on.
  abbrev pub numbered : ℕ → List Text → ConfigMap
  numbered i [] = []
  numbered i (w ∷ ws) = (dotted key (to_string i), w) ∷ numbered (suc i) ws

  abbrev pub counters : ℕ → Dict ℕ
  counters zero = []
  counters (suc i) = (key, suc i) ∷ []

  -- The state below the section, with so many items read.
  abbrev pub below : ConfigMap → ℕ → LoadState
  below m i = record {
    config_map = m;
    key_stack = key ∷ [];
    indent_stack = 0 ∷ [];
    list_counters = counters i;
  }

  key-nonempty : (s : Text) → s ≢ [] → is_empty s ≡ false
  key-nonempty [] h = absurd (h refl)
  key-nonempty (c ∷ s) h = refl

  prefix : (m : ConfigMap) (i : ℕ) → stack_prefix (below m i) ≡ key
  unfolding join_keys
  prefix m i = rw (key-nonempty key word.1)

  read_item-below :
      (m : ConfigMap) (i : ℕ) (value : Text)
      → IsWord value
      → read_item (b'-' ∷ 32 ∷ value) (below m i)
        ≡ below (assign (dotted key (to_string i)) value m) (suc i)
  unfolding read_item lookup assign
  read_item-below m zero value h =
      rw
        (
          prefix m 0,
          key-nonempty key word.1,
          trim-word value h,
          trim-word value h,
          unquote-word value h,
        )
        refl
  read_item-below m (suc i) value h =
      rw
        (
          prefix m (suc i),
          key-nonempty key word.1,
          trim-word value h,
          trim-word value h,
          unquote-word value h,
          text_eq_refl key,
        )
        refl

  read_line-below :
      (n : ℕ) (m : ConfigMap) (i : ℕ) (value : Text)
      → IsWord value
      → read_line (item_line n value) (below m i)
        ≡ below (assign (dotted key (to_string i)) value m) (suc i)
  read_line-below n m i value h =
      read_line-item_line n value (below m i) h
      ∙ rw (pop_deeper-keeps n 0 [] (key ∷ []) (omega arith)) (read_item-below m i value h)

  lookup-numbered :
      (i j : ℕ) (ws : List Text)
      → i + length ws ≤ j
      → lookup (dotted key (to_string j)) (numbered i ws) ≡ none
  unfolding lookup
  lookup-numbered i j [] h = refl
  lookup-numbered i j (w ∷ ws) h =
      rw (text_eq-ne (dotted key (to_string j)) (dotted key (to_string i)) other)
        (lookup-numbered (suc i) j ws (omega (arith, h)))
    where
      other : dotted key (to_string j) ≢ dotted key (to_string i)
      other e = omega (
        arith,
        h,
        to_string_injective j i
            (dotted_injective key key (to_string j) (to_string i) word.0 word.0 e).1,
      )

  numbered-append :
      (i : ℕ) (us : List Text) (w : Text)
      → numbered i (us ++ w ∷ [])
        ≡ numbered i us ++ (dotted key (to_string (i + length us)), w) ∷ []
  numbered-append i [] w = ap (λ k. (dotted key (to_string k), w) ∷ []) (omega arith)
  numbered-append i (u ∷ us) w =
      ap (λ m. (dotted key (to_string i), u) ∷ m)
        (numbered-append (suc i) us w
          ∙ ap (λ k. numbered (suc i) us ++ (dotted key (to_string k), w) ∷ []) (omega arith))

  numbered-append_zero :
      (us : List Text) (w : Text)
      → numbered 0 us ++ (dotted key (to_string (length us)), w) ∷ [] ≡ numbered 0 (us ++ w ∷ [])
  numbered-append_zero us w =
      ap (λ k. numbered 0 us ++ (dotted key (to_string k), w) ∷ []) (omega arith)
      ∙ sym (numbered-append 0 us w)

  read_line-numbered :
      (n : ℕ) (us : List Text) (w : Text)
      → IsWord w
      → read_line (item_line n w) (below (numbered 0 us) (length us))
        ≡ below (numbered 0 (us ++ w ∷ [])) (length (us ++ w ∷ []))
  read_line-numbered n us w k =
      read_line-below n (numbered 0 us) (length us) w k
      ∙ ap (λ m. below m (suc (length us)))
          (assign_fresh (dotted key (to_string (length us))) w (numbered 0 us)
              (lookup-numbered 0 (length us) us (omega arith))
            ∙ numbered-append_zero us w)
      ∙ ap (below (numbered 0 (us ++ w ∷ []))) {x = suc (length us)}
          (omega (arith, length-append us (w ∷ [])))

  abbrev pub AllWords : List Text → Type 0
  AllWords [] = Unit {0}
  AllWords (w ∷ ws) = IsWord w × AllWords ws

  pub read_lines-below :
      (n : ℕ) (us ws : List Text)
      → AllWords ws
      → read_lines (map (item_line n) ws) (below (numbered 0 us) (length us))
        ≡ below (numbered 0 (us ++ ws)) (length (us ++ ws))
  unfolding read_lines
  read_lines-below n us [] h = rw (append-nil us) refl
  read_lines-below n us (w ∷ ws) h =
      ap (read_lines (map (item_line n) ws)) (read_line-numbered n us w h.0)
      ∙ read_lines-below n (us ++ w ∷ []) ws h.1
      ∙ ap (λ l. below (numbered 0 l) (length l)) (append_assoc us (w ∷ []) ws)
