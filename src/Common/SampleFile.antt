-- ===== src/Common/SampleFile.antt =====
-- A configuration file for the examples of the services, and what `Load` makes of it.
use imsystem.Prelude.{true, some, [], ◌∷◌, ◌≡◌, refl}
use imsystem.Prelude.Texts.{Text, codes}
use imsystem.Common.Chars.{starts_with, find_char}
use imsystem.Common.Config.{
  ConfigMap, load, read_lines, split_lines, read_line, trim, strip_inline_comment, read_content,
  read_entry, assign, join_keys, unquote, pop_deeper, count_leading_spaces,
}

abbrev pub sample_file : Text
sample_file = codes "dependencies:\n  mysql:\n    pool_size: 2\n"

abbrev pub sample : ConfigMap
sample = (codes "dependencies.mysql.pool_size", codes "2") ∷ []

pub load-sample : load (some sample_file) ≡ (true, sample)
unfolding load codes read_lines split_lines read_line trim strip_inline_comment read_content
    starts_with find_char read_entry assign join_keys unquote pop_deeper count_leading_spaces
load-sample = refl
