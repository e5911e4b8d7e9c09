-- ===== src/Logic/Startup.antt =====
-- logic/main.cpp: how the service loads its sensitive words.
use imsystem.Prelude.{
  ℕ, ◌≤◌, ◌^◌, Bool, true, false, not, Option, none, some, List, [], ◌∷◌, ◌≡◌, ◌≢◌, ◌↔◌, refl,
  is_empty, length, if◌then◌else◌,
}
use imsystem.Prelude.Texts.{Text, codes}
use imsystem.Common.Config.{ConfigMap, load, get_string_list}
use imsystem.Common.Config.Files.{file_of}
use imsystem.Common.Config.Items.{AllWords}
use imsystem.Common.Config.Plain.{IsWord, all_bytes, is_plain}
use imsystem.Common.Config.StringLists.{list_lines, load-get_string_list}
use imsystem.Logic.SensitiveFilter.{has_sensitive_word}
use imsystem.Logic.SensitiveFilter.Detect.{Contains, has_sensitive_word-init}
use imsystem.Logic.Trie.{TrieNode, new_node, init}

-- The three words of the source, in UTF-8.
abbrev pub default_words : List Text
default_words =
    (0xE6 ∷ 0x9E ∷ 0xAA ∷ 0xE6 ∷ 0x94 ∷ 0xAF ∷ [])
    ∷ (0xE6 ∷ 0xAF ∷ 0x92 ∷ 0xE5 ∷ 0x93 ∷ 0x81 ∷ [])
    ∷ (0xE6 ∷ 0x94 ∷ 0xBF ∷ 0xE6 ∷ 0xB2 ∷ 0xBB ∷ 0xE6 ∷ 0x95 ∷ 0x8F ∷ 0xE6 ∷ 0x84 ∷ 0x9F ∷ [])
    ∷ []

abbrev pub words_key : Text
words_key = codes "sensitive_words"

abbrev pub or_default_words : List Text → List Text
or_default_words bad_words = if is_empty bad_words then default_words else bad_words

-- The filter with which `main` starts the service, none if it returns early. The file is none if it
-- cannot be opened.
abbrev pub started : Bool × ConfigMap → Option TrieNode
started (ok, m) =
    if not ok then none else some (init new_node (or_default_words (get_string_list m words_key)))

unfoldable pub start : Option Text → Option TrieNode
start file = started (load file)

-- A service that has not started detects nothing.
abbrev pub detects : Option TrieNode → Text → Bool
detects none t = false
detects (some root) t = has_sensitive_word root t

pub words_key-IsWord : IsWord words_key
unfolding codes all_bytes is_plain
words_key-IsWord = (refl, λ e. cc)

or_default-nonempty : (ws : List Text) → ws ≢ [] → or_default_words ws ≡ ws
or_default-nonempty [] h = absurd (h refl)
or_default-nonempty (w ∷ ws) h = refl

start-list_lines :
    (n : ℕ) (ws : List Text)
    → AllWords words_key words_key-IsWord ws
    → length ws ≤ 2 ^ 31
    → ws ≢ []
    → start (some (file_of (list_lines n words_key ws))) ≡ some (init new_node ws)
unfolding start load
start-list_lines n ws h few some_words =
    rw
      (
        load-get_string_list n words_key words_key-IsWord ws h few,
        or_default-nonempty ws some_words,
      )
      refl

-- A logic service that is started with a file of nothing but the line "sensitive_words:" at its
-- left edge and below it the words, each on a line "- word" behind the same number of spaces and
-- without quotes, detects exactly the texts in which one of them occurs. There is at least one word
-- and at most 2^31, none with a byte that means something to the parser.
pub start-detects :
    (n : ℕ) (ws : List Text) (t : Text)
    → AllWords words_key words_key-IsWord ws
    → length ws ≤ 2 ^ 31
    → ws ≢ []
    → (detects (start (some (file_of (list_lines n words_key ws)))) t ≡ true)
      ↔ Contains new_node ws t
start-detects n ws t h few some_words =
    rw (start-list_lines n ws h few some_words) (has_sensitive_word-init new_node ws t)
