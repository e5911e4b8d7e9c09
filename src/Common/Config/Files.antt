-- ===== src/Common/Config/Files.antt =====
-- A configuration file made of lines, and how `getline` takes it apart.
use imsystem.Prelude.{
  ℕ, ◌≡◌, refl, ap, sym, ◌∙◌, arith, Bool, true, false, not, List, [], ◌∷◌, ◌++◌, ◌==◌, replicate,
  append_assoc, append-nil,
}
use imsystem.Prelude.Texts.{Text}
use imsystem.Common.Chars.{is_space}
use imsystem.Common.Config.Load.{split_lines}
use imsystem.Common.Config.Plain.{
  IsWord, section_line, entry_line, all_bytes, is_plain, all_bytes-append, all_bytes_mono,
  all_bytes-replicate,
}

abbrev pub no_newline : ℕ → Bool
no_newline c = not (c == 10)

pub plain_no_newline : (c : ℕ) → is_plain c ≡ true → no_newline c ≡ true
unfolding is_plain is_space
plain_no_newline c h = ground arith

pub no_newline-line :
    (n : ℕ) (key r : Text)
    → IsWord key
    → all_bytes no_newline r ≡ true
    → all_bytes no_newline (replicate n 32 ++ (key ++ r)) ≡ true
no_newline-line n key r h k =
    rw
      (
        all_bytes-append no_newline (replicate n 32) (key ++ r),
        all_bytes-replicate no_newline n 32 refl,
        all_bytes-append no_newline key r,
        all_bytes_mono is_plain no_newline plain_no_newline key h.0,
      )
      k

pub no_newline-section_line :
    (n : ℕ) (key : Text) → IsWord key → all_bytes no_newline (section_line n key) ≡ true
unfolding all_bytes
no_newline-section_line n key h = no_newline-line n key (b':' ∷ []) h refl

pub no_newline-entry_line :
    (n : ℕ) (key value : Text)
    → IsWord key
    → IsWord value
    → all_bytes no_newline (entry_line n key value) ≡ true
unfolding all_bytes
no_newline-entry_line n key value h k =
    no_newline-line n key (b':' ∷ 32 ∷ value) h
      (all_bytes_mono is_plain no_newline plain_no_newline value k.0)

-- `getline` gives back a line that ends in a newline.
pub split_lines-onto :
    (acc line rest : Text)
    → all_bytes no_newline line ≡ true
    → split_lines acc (line ++ 10 ∷ rest) ≡ (acc ++ line) ∷ split_lines [] rest
unfolding split_lines all_bytes
split_lines-onto acc [] rest h = ap (λ r. r ∷ split_lines [] rest) (sym (append-nil acc))
split_lines-onto acc (c ∷ line) rest h =
    rw (byte_is_kept, split_lines)
      (split_lines-onto (acc ++ c ∷ []) line rest (ground arith)
        ∙ ap (λ r. r ∷ split_lines [] rest) (append_assoc acc (c ∷ []) line))
  where
    byte_is_kept : (c == 10) ≡ false
    byte_is_kept = ground arith

-- The file whose lines these are.
unfoldable pub file_of : List Text → Text
file_of [] = []
file_of (l ∷ ls) = l ++ 10 ∷ file_of ls

abbrev pub AllLines : List Text → Type 0
AllLines [] = Unit {0}
AllLines (l ∷ ls) = (all_bytes no_newline l ≡ true) × AllLines ls

-- Lines that are written to a file, each with a newline behind it, are read back as they were, if
-- none of them contains a newline.
pub split_lines-file_of : (ls : List Text) → AllLines ls → split_lines [] (file_of ls) ≡ ls
unfolding split_lines file_of
split_lines-file_of [] h = refl
split_lines-file_of (l ∷ ls) h =
    split_lines-onto [] l (file_of ls) h.0 ∙ ap (λ r. l ∷ r) (split_lines-file_of ls h.1)
