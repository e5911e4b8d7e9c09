-- ===== src/Common/Config/StringLists.antt =====
-- A list of a configuration file, and what `GetStringList` answers of it.
use imsystem.Prelude.{
  ℕ, zero, suc, ◌+◌, ◌/◌, ◌%◌, ◌≤◌, ◌<◌, ◌^◌, ◌≡◌, refl, ap, sym, ◌∙◌, arith, true, false, some,
  List, [], ◌∷◌, ◌++◌, map, length, is_empty, ltb, Bool-cases, inl, inr, ltb→lt, append_assoc,
  replicate,
}
use imsystem.Prelude.Int.{ℤ, pos, ltb_ℤ}
use imsystem.Prelude.Texts.{Text}
use imsystem.Common.Chars.Decimal.{stoi-to_string, to_string-head, is_digit-digit}
use imsystem.Common.Chars.Finding.{starts_with-append, drop_whole}
use imsystem.Common.Chars.Numbers.{digits, to_string}
use imsystem.Common.Config.Load.{initial, pop_deeper, read_line, read_lines, load}
use imsystem.Common.Config.Get.{
  all_digits, item_index, list_items, insert_item, sort_items, get_string_list,
}
use imsystem.Common.Config.Files.{
  file_of, AllLines, split_lines-file_of, no_newline, plain_no_newline, no_newline-section_line,
}
use imsystem.Common.Config.Items.{numbered, below, AllWords, read_lines-below}
use imsystem.Common.Config.Plain.{
  IsWord, section_line, all_bytes, is_plain, all_bytes-append, all_bytes_mono, all_bytes-replicate,
}
use imsystem.Common.Config.Printed.{item_line, read_line-section_line}
use imsystem.Common.Config.Sections.{dotted}

all_digits-digits :
    (fuel n : ℕ) (acc : Text) → all_digits acc ≡ true → all_digits (digits fuel n acc) ≡ true
unfolding digits all_digits
all_digits-digits zero n acc h = h
all_digits-digits (suc fuel) n acc h = elim (Bool-cases (ltb n 10)) [
  | inl e ↦ rw (e, h, is_digit-digit n (ltb→lt n 10 e)) refl
  | inr e ↦ rw e (
      all_digits-digits fuel (n / 10) ((48 + n % 10) ∷ acc)
        (rw (h, is_digit-digit (n % 10) (omega arith)) refl))
]

all_digits-to_string : (n : ℕ) → all_digits (to_string n) ≡ true
unfolding to_string all_digits
all_digits-to_string n = all_digits-digits (suc n) n [] refl

to_string-nonempty : (n : ℕ) → is_empty (to_string n) ≡ false
to_string-nonempty n = let (d, t, small, e) = to_string-head n in ap is_empty e

-- "key."
abbrev pub prefix_of : Text → Text
prefix_of key = key ++ b'.' ∷ []

item_index-suffix :
    (prefix : Text) (n : ℕ) → n < 2 ^ 31 → item_index prefix (prefix ++ to_string n) ≡ some (pos n)
unfolding item_index
item_index-suffix prefix n h =
    rw
      (
        starts_with-append prefix (to_string n),
        drop_whole prefix (to_string n) (length prefix) refl,
        to_string-nonempty n,
        all_digits-to_string n,
      )
      (stoi-to_string n h)

item_index-dotted :
    (key : Text) (n : ℕ)
    → n < 2 ^ 31
    → item_index (prefix_of key) (dotted key (to_string n)) ≡ some (pos n)
item_index-dotted key n h =
    ap (item_index (prefix_of key)) (sym (append_assoc key (b'.' ∷ []) (to_string n)))
    ∙ item_index-suffix (prefix_of key) n h

-- The items with their indices.
indexed : ℕ → List Text → List (ℤ × Text)
indexed i [] = []
indexed i (w ∷ ws) = (pos i, w) ∷ indexed (suc i) ws

list_items-numbered :
    (key : Text) (word : IsWord key) (i : ℕ) (ws : List Text)
    → i + length ws ≤ 2 ^ 31
    → list_items (prefix_of key) (numbered key word i ws) ≡ indexed i ws
unfolding list_items indexed
list_items-numbered key word i [] h = refl
list_items-numbered key word i (w ∷ ws) h =
    rw (item_index-dotted key i (omega (arith, h)), list_items)
      (ap (λ l. (pos i, w) ∷ l) (list_items-numbered key word (suc i) ws (omega (arith, h))))

insert_item-indexed :
    (i : ℕ) (w : Text) (ws : List Text)
    → insert_item (pos i, w) (indexed (suc i) ws) ≡ indexed i (w ∷ ws)
unfolding insert_item indexed
insert_item-indexed i w [] = refl
insert_item-indexed i w (v ∷ ws) = rw (not_smaller i) refl
  where
    not_smaller : (i : ℕ) → ltb_ℤ (pos (suc i)) (pos i) ≡ false
    not_smaller i = ground arith

sort_items-indexed : (i : ℕ) (ws : List Text) → sort_items (indexed i ws) ≡ indexed i ws
unfolding sort_items indexed
sort_items-indexed i [] = refl
sort_items-indexed i (w ∷ ws) =
    ap (insert_item (pos i, w)) (sort_items-indexed (suc i) ws) ∙ insert_item-indexed i w ws

values-indexed : (i : ℕ) (ws : List Text) → map (λ item. item.1) (indexed i ws) ≡ ws
unfolding indexed
values-indexed i [] = refl
values-indexed i (w ∷ ws) = ap (λ l. w ∷ l) (values-indexed (suc i) ws)

get_string_list-numbered :
    (key : Text) (word : IsWord key) (ws : List Text)
    → length ws ≤ 2 ^ 31
    → get_string_list (numbered key word 0 ws) key ≡ ws
unfolding get_string_list
get_string_list-numbered key word ws h =
    rw (list_items-numbered key word 0 ws (omega (arith, h)), sort_items-indexed 0 ws)
      (values-indexed 0 ws)

-- A section and the items of its list, indented by n spaces.
abbrev pub list_lines : ℕ → Text → List Text → List Text
list_lines n key ws = section_line 0 key ∷ map (item_line n) ws

no_newline-item_line : (n : ℕ) (w : Text) → IsWord w → all_bytes no_newline (item_line n w) ≡ true
unfolding all_bytes
no_newline-item_line n w h =
    rw
      (
        all_bytes-append no_newline (replicate n 32) (b'-' ∷ 32 ∷ w),
        all_bytes-replicate no_newline n 32 refl,
        all_bytes_mono is_plain no_newline plain_no_newline w h.0,
      )
      refl

module _ (n : ℕ) (key : Text) (word : IsWord key) where
  items_whole : (ws : List Text) → AllWords key word ws → AllLines (map (item_line n) ws)
  items_whole [] h = tt
  items_whole (w ∷ ws) h = (no_newline-item_line n w h.0, items_whole ws h.1)

  read_section : read_line (section_line 0 key) initial ≡ below key word [] 0
  unfolding pop_deeper
  read_section = read_line-section_line 0 key initial word

  read_list :
      (ws : List Text)
      → AllWords key word ws
      → read_lines (list_lines n key ws) initial
        ≡ below key word (numbered key word 0 ws) (length ws)
  unfolding read_lines
  read_list ws h =
      ap (read_lines (map (item_line n) ws)) read_section ∙ read_lines-below key word n [] ws h

  load-list_lines :
      (ws : List Text)
      → AllWords key word ws
      → load (some (file_of (list_lines n key ws))) ≡ (true, numbered key word 0 ws)
  unfolding load
  load-list_lines ws h =
      rw
        (
          split_lines-file_of (list_lines n key ws)
              (no_newline-section_line 0 key word, items_whole ws h),
          read_list ws h,
        )
        refl

  -- Of a loaded file of nothing but the line "key:" at its left edge and below it the items, each on
  -- a line "- item" behind the same number of spaces, `GetStringList` answers exactly the items, in
  -- the order of the lines. The key and the items are words without quotes, and there are at most
  -- 2^31 items.
  pub load-get_string_list :
      (ws : List Text)
      → AllWords key word ws
      → length ws ≤ 2 ^ 31
      → get_string_list (load (some (file_of (list_lines n key ws)))).1 key ≡ ws
  load-get_string_list ws h few =
      rw (load-list_lines ws h) (get_string_list-numbered key word ws few)
