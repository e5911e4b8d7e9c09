-- ===== src/Logic/StartupExamples.antt =====
-- The start of the logic service with a file of two words.
use imsystem.Prelude.{◌≡◌, refl, ◌↔◌, true, some, List, [], ◌∷◌, arith}
use imsystem.Prelude.Texts.{Text, codes, text_eq}
use imsystem.Common.Chars.{starts_with, find_char}
use imsystem.Common.Config.{
  load, get_string_list, read_lines, split_lines, read_line, trim, strip_inline_comment,
  read_content, read_entry, assign, join_keys, unquote, pop_deeper, count_leading_spaces, read_item,
}
use imsystem.Common.Config.Files.{file_of}
use imsystem.Common.Config.Items.{AllWords}
use imsystem.Common.Config.Plain.{all_bytes, is_plain}
use imsystem.Common.Config.StringLists.{list_lines, load-get_string_list}
use imsystem.Logic.SensitiveFilter.Detect.{Contains}
use imsystem.Logic.Startup.{
  words_key, words_key-IsWord, default_words, start, detects, start-detects,
}
use imsystem.Logic.Trie.{new_node, init}

abbrev words : List Text
words = codes "bad" ∷ codes "evil" ∷ []

words-AllWords : AllWords words_key words_key-IsWord words
unfolding codes all_bytes is_plain
words-AllWords = ((refl, λ e. cc), ((refl, λ e. cc), tt))

load-get_string_list_example :
    get_string_list (load (some (file_of (list_lines 2 words_key words)))).1 words_key ≡ words
load-get_string_list_example =
    load-get_string_list 2 words_key words_key-IsWord words words-AllWords (omega arith)

start-detects_example :
    (detects (start (some (file_of (list_lines 2 words_key words)))) (codes "so evil") ≡ true)
    ↔ Contains new_node words (codes "so evil")
start-detects_example =
    start-detects 2 words (codes "so evil") words-AllWords (omega arith) (λ e. cc)

-- The shape of the shipped logic_config.yaml, where sections stand before the words.
abbrev shipped_shape : Text
shipped_shape =
    codes
      "server:\n  grpc_port: 50051\n\nlog:\n  level: \"info\"\n\nsensitive_words:\n  - \"spam\"\n"

-- Its words are filed below the sections before them, and the service takes the default ones.
shipped_shape_defaults : start (some shipped_shape) ≡ some (init new_node default_words)
unfolding start load codes read_lines split_lines read_line trim strip_inline_comment read_content
    starts_with find_char read_entry assign join_keys unquote pop_deeper count_leading_spaces
    read_item get_string_list text_eq
shipped_shape_defaults = refl
