-- ===== src/Common/Config/Printed.antt =====
-- Lines as a configuration file has them, and how `Load` reads each.
use imsystem.Prelude.{
  ℕ, ◌≡◌, refl, ◌∙◌, arith, true, false, none, [], ◌∷◌, ◌++◌, length, is_empty, ◌==◌, replicate,
}
use imsystem.Prelude.Texts.{Text, codes}
use imsystem.Common.Chars.{is_space, starts_with}
use imsystem.Common.Config.Lines.{strip_inline_comment}
use imsystem.Common.Config.Load.{
  LoadState, stack_prefix, full_key, assign, pop_deeper, read_entry, read_content, read_line,
  read_item,
}
use imsystem.Common.Config.Trimming.{strip_end}
use imsystem.Common.Config.Plain.{
  IsWord, section_line, entry_line, all_bytes, is_plain, all_bytes-append, all_bytes_mono,
  all_bytes-replicate, no_hash, strip_from_clean, plain_no_hash, plain_no_space, count_spaces,
  strip_end-word, strip_end-append, trim-pad, trim-word, trim-space-word, trim-nil, find_char-word,
  take_key, drop_key, no_item, unquote-word,
}

-- The state once the sections deeper than n are closed.
abbrev pub closed : ℕ → LoadState → LoadState
closed n st = record st {
  key_stack = (pop_deeper n st.indent_stack st.key_stack).1;
  indent_stack = (pop_deeper n st.indent_stack st.key_stack).0;
}

-- A line of n spaces, a first byte that is neither space nor comment, and text that ends in no
-- space.
record IsLine (c : ℕ) (t : Text) : Type 0 where
  head : is_space c ≡ false
  end : strip_end (c ∷ t) ≡ c ∷ t
  no_comment : all_bytes no_hash (c ∷ t) ≡ true

read_line-IsLine :
    (n c : ℕ) (t : Text) (st : LoadState)
    → IsLine c t
    → read_line (replicate n 32 ++ c ∷ t) st ≡ read_content n (c ∷ t) (closed n st)
unfolding read_line strip_inline_comment
read_line-IsLine n c t st l = rw (
  strip_from_clean none (replicate n 32 ++ c ∷ t) clean,
  trim-pad n c t l.head l.end,
  count_spaces n c t not_blank,
)
  where
    clean : all_bytes no_hash (replicate n 32 ++ c ∷ t) ≡ true
    clean =
        rw
          (all_bytes-append no_hash (replicate n 32) (c ∷ t), all_bytes-replicate no_hash n 32 refl)
          l.no_comment

    not_blank : (c == 32) ≡ false
    not_blank = unfold is_space in ground (arith, l.head)

line-words :
    (key r : Text)
    → IsWord key
    → all_bytes no_hash r ≡ true
    → strip_end (key ++ b':' ∷ r) ≡ key ++ b':' ∷ r
    → (st : LoadState) (n : ℕ)
    → read_line (replicate n 32 ++ (key ++ b':' ∷ r)) st
      ≡ read_content n (key ++ b':' ∷ r) (closed n st)
unfolding all_bytes
line-words [] r h k e st n = absurd (h.1 refl)
line-words (c ∷ key) r h k e st n = read_line-IsLine n c (key ++ b':' ∷ r) st (record {
  head = plain_no_space c (ground arith);
  end = e;
  no_comment =
      all_bytes-append no_hash (c ∷ key) (b':' ∷ r)
      ∙ ground (arith, all_bytes_mono is_plain no_hash plain_no_hash (c ∷ key) h.0);
})

read_content-key :
    (n : ℕ) (key r : Text) (st : LoadState)
    → IsWord key
    → read_content n (key ++ b':' ∷ r) st ≡ read_entry n (key ++ b':' ∷ r) (length key) st
unfolding read_content
read_content-key n key r st h = rw (no_item key r h, find_char-word key r h.0)

nonempty-word : (s : Text) → IsWord s → is_empty s ≡ false
nonempty-word [] h = absurd (h.1 refl)
nonempty-word (c ∷ s) h = refl

strip_end-colon : strip_end (b':' ∷ []) ≡ b':' ∷ []
unfolding strip_end is_space
strip_end-colon = refl

strip_end-value : (v : Text) → IsWord v → strip_end (b':' ∷ 32 ∷ v) ≡ b':' ∷ 32 ∷ v
strip_end-value [] h = absurd (h.1 refl)
strip_end-value (c ∷ v) h = strip_end-append (b':' ∷ 32 ∷ []) c v (strip_end-word (c ∷ v) h.0)

no_hash-value : (v : Text) → IsWord v → all_bytes no_hash (32 ∷ v) ≡ true
unfolding all_bytes
no_hash-value v h = all_bytes_mono is_plain no_hash plain_no_hash v h.0

-- A line "key:" opens a section, once the sections that are indented deeper are closed.
pub read_line-section_line :
    (n : ℕ) (key : Text) (st : LoadState)
    → IsWord key
    → read_line (section_line n key) st ≡ record st {
      key_stack = key ∷ (closed n st).key_stack;
      indent_stack = n ∷ (closed n st).indent_stack;
    }
unfolding read_entry
read_line-section_line n key st h =
    line-words key [] h (unfold all_bytes in refl) (strip_end-append key b':' [] strip_end-colon) st
      n
    ∙ read_content-key n key [] (closed n st) h
    ∙ rw (
      take_key key (b':' ∷ []),
      drop_key key [] b':',
      trim-word key h,
      trim-nil,
      nonempty-word key h,
    )

-- A line "key: value", of two words and behind any number of spaces, stores the value under the
-- sections that are open once those that are indented deeper are closed.
pub read_line-entry_line :
    (n : ℕ) (key value : Text) (st : LoadState)
    → IsWord key
    → IsWord value
    → read_line (entry_line n key value) st ≡ record (closed n st) {
      config_map = assign (full_key (stack_prefix (closed n st)) key) value st.config_map;
    }
unfolding read_entry
read_line-entry_line n key value st h k =
    line-words key (32 ∷ value) h (no_hash-value value k)
      (strip_end-append key b':' (32 ∷ value) (strip_end-value value k)) st n
    ∙ read_content-key n key (32 ∷ value) (closed n st) h
    ∙ rw (
      take_key key (b':' ∷ 32 ∷ value),
      drop_key key (32 ∷ value) b':',
      trim-word key h,
      trim-space-word value k,
      nonempty-word key h,
      nonempty-word value k,
      unquote-word value k,
    )

-- "- value", behind n spaces.
abbrev pub item_line : ℕ → Text → Text
item_line n value = replicate n 32 ++ b'-' ∷ 32 ∷ value

strip_end-item : (v : Text) → IsWord v → strip_end (b'-' ∷ 32 ∷ v) ≡ b'-' ∷ 32 ∷ v
strip_end-item [] h = absurd (h.1 refl)
strip_end-item (c ∷ v) h = strip_end-append (b'-' ∷ 32 ∷ []) c v (strip_end-word (c ∷ v) h.0)

read_content-item :
    (n : ℕ) (v : Text) (st : LoadState)
    → read_content n (b'-' ∷ 32 ∷ v) st ≡ read_item (b'-' ∷ 32 ∷ v) st
unfolding read_content starts_with codes
read_content-item n [] st = refl
read_content-item n (c ∷ v) st = refl

-- A line "- value" is read as an item, once the deeper sections are closed.
pub read_line-item_line :
    (n : ℕ) (value : Text) (st : LoadState)
    → IsWord value
    → read_line (item_line n value) st ≡ read_item (b'-' ∷ 32 ∷ value) (closed n st)
unfolding is_space all_bytes
read_line-item_line n value st h =
    read_line-IsLine n b'-' (32 ∷ value) st
      (record { head = refl; end = strip_end-item value h; no_comment = no_hash-value value h })
    ∙ read_content-item n value (closed n st)
