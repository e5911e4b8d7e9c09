-- ===== src/Common/Config/Load.antt =====
-- `Load` of config_manager.cpp. What the file holds is an argument, none if it cannot be opened.
use mathlib.Core.List.{reverse}
use imsystem.Prelude.{
  ℕ, suc, ◌+◌, Bool, true, false, not, Option, none, some, List, [], ◌∷◌, ◌++◌, ltb, ◌==◌, is_empty,
  take, drop, if◌then◌else◌,
}
use imsystem.Prelude.Texts.{Text, text_eq, codes}
use imsystem.Common.Chars.{find_char, starts_with}
use imsystem.Common.Chars.Numbers.{to_string}
use imsystem.Common.Config.Lines.{
  trim, unquote, count_leading_spaces, strip_inline_comment, join_keys,
}

-- An `unordered_map` with string keys.
abbrev pub Dict {ℓ} : Type ℓ → Type ℓ
Dict V = List (Text × V)

module _ {ℓ} {V : Type ℓ} where
  unfoldable pub lookup : Text → Dict V → Option V
  lookup k [] = none
  lookup k ((j, v) ∷ m) = if text_eq k j then some v else lookup k m

  -- `m[k] = v`
  unfoldable pub assign : Text → V → Dict V → Dict V
  assign k v [] = (k, v) ∷ []
  assign k v ((j, w) ∷ m) = if text_eq k j then (j, v) ∷ m else (j, w) ∷ assign k v m

abbrev pub ConfigMap : Type 0
ConfigMap = Dict Text

-- The variables of the loop over the lines. The head of a stack is the back of its vector.
pub record LoadState : Type 0 where
  pub config_map : ConfigMap
  pub key_stack : List Text
  pub indent_stack : List ℕ
  pub list_counters : Dict ℕ

abbrev pub initial : LoadState
initial = record { config_map = []; key_stack = []; indent_stack = []; list_counters = [] }

abbrev pub pop : List Text → List Text
pop [] = []
pop (k ∷ ks) = ks

-- While the line is indented less than the section on top, that section is closed.
unfoldable pub pop_deeper : ℕ → List ℕ → List Text → List ℕ × List Text
pop_deeper indent [] keys = ([], keys)
pop_deeper indent (i ∷ is) keys =
    let closed = pop_deeper indent is (pop keys) in if ltb indent i then closed else (i ∷ is, keys)

abbrev pub stack_prefix : LoadState → Text
stack_prefix st = join_keys (reverse st.key_stack)

-- "- value"
unfoldable pub read_item : Text → LoadState → LoadState
read_item content st =
    let value = unquote (trim (trim (drop 2 content))) in
    let prefix = stack_prefix st in
    if is_empty prefix
    then st
    else (let idx : ℕ = elim (lookup prefix st.list_counters) [ none ↦ 0 | some n ↦ n ] in
        record st {
          config_map = assign (prefix ++ b'.' ∷ to_string idx) value st.config_map;
          list_counters = assign prefix (suc idx) st.list_counters;
        })

abbrev pub full_key : Text → Text → Text
full_key prefix key = (if not (is_empty prefix) then prefix ++ b'.' ∷ [] else prefix) ++ key

-- "key:" or "key: value", the colon being at `pos`.
unfoldable pub read_entry : ℕ → Text → ℕ → LoadState → LoadState
read_entry indent content pos st =
    let key = trim (take pos content) in
    let rest = trim (drop (pos + 1) content) in
    if is_empty key
    then st
    else (if is_empty rest
        then record st { key_stack = key ∷ st.key_stack; indent_stack = indent ∷ st.indent_stack }
        else record st {
          config_map = assign (full_key (stack_prefix st) key) (unquote rest) st.config_map;
        })

-- A line that is not blank, once the deeper sections are closed.
unfoldable pub read_content : ℕ → Text → LoadState → LoadState
read_content indent content st =
    if starts_with content (codes "- ")
    then read_item content st
    else (elim (find_char b':' content) [ none ↦ st | some pos ↦ read_entry indent content pos st ])

-- The body of the loop.
unfoldable pub read_line : Text → LoadState → LoadState
read_line line st =
    let raw = strip_inline_comment line in
    if is_empty (trim raw)
    then st
    else (let indent = count_leading_spaces raw in
        let (is, ks) = pop_deeper indent st.indent_stack st.key_stack in
        read_content indent (trim raw) (record st { key_stack = ks; indent_stack = is }))

-- `std::getline` until the end: `line` is what has been read of the current line.
unfoldable pub split_lines : Text → Text → List Text
split_lines line [] = if is_empty line then [] else line ∷ []
split_lines line (c ∷ t) =
    if c == 10 then line ∷ split_lines [] t else split_lines (line ++ c ∷ []) t

unfoldable pub read_lines : List Text → LoadState → LoadState
read_lines [] st = st
read_lines (l ∷ ls) st = read_lines ls (read_line l st)

-- The map after `Load`, which is cleared first, and what `Load` returns.
unfoldable pub load : Option Text → Bool × ConfigMap
load none = (false, [])
load (some file) = (true, (read_lines (split_lines [] file) initial).config_map)
