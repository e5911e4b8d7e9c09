-- ===== src/Common/Config/Get.antt =====
-- The getters of config_manager.cpp.
use imsystem.Prelude.{
  Bool, true, false, ◌&&◌, ◌||◌, not, Option, none, some, List, [], ◌∷◌, ◌++◌, map, length,
  is_empty, drop, if◌then◌else◌,
}
use imsystem.Prelude.Int.{ℤ, ltb_ℤ}
use imsystem.Prelude.Texts.{Text, text_eq, codes}
use imsystem.Common.Chars.{to_lower, is_digit, starts_with}
use imsystem.Common.Chars.Numbers.{stoi}
use imsystem.Common.Config.Load.{ConfigMap, lookup}

unfoldable pub get_string : ConfigMap → Text → Text → Text
get_string m key default_val = elim (lookup key m) [ none ↦ default_val | some v ↦ v ]

abbrev pub or_default : ℤ → Option ℤ → ℤ
or_default d none = d
or_default d (some n) = n

unfoldable pub get_int : ConfigMap → Text → ℤ → ℤ
get_int m key default_val = elim (lookup key m) [
  | none ↦ default_val
  | some v ↦ or_default default_val (stoi v)
]

abbrev pub one_of : Text → List Text → Bool
one_of v [] = false
one_of v (w ∷ ws) = text_eq v w || one_of v ws

abbrev pub yes_words : List Text
yes_words = codes "true" ∷ codes "1" ∷ codes "yes" ∷ codes "on" ∷ []

abbrev pub no_words : List Text
no_words = codes "false" ∷ codes "0" ∷ codes "no" ∷ codes "off" ∷ []

unfoldable pub get_bool : ConfigMap → Text → Bool → Bool
get_bool m key default_val = elim (lookup key m) [
  | none ↦ default_val
  | some v ↦
      if one_of (map to_lower v) yes_words
      then true
      else if one_of (map to_lower v) no_words
      then false
      else default_val
]

unfoldable pub all_digits : Text → Bool
unfolding is_digit
all_digits [] = true
all_digits (c ∷ t) = is_digit c && all_digits t

-- The index of a key "<prefix><index>", none if the loop skips the key.
unfoldable pub item_index : Text → Text → Option ℤ
unfolding all_digits starts_with
item_index prefix key =
    let suffix = drop (length prefix) key in
    if not (starts_with key prefix)
    then none
    else if is_empty suffix
    then none
    else if not (all_digits suffix)
    then none
    else stoi suffix

unfoldable pub list_items : Text → ConfigMap → List (ℤ × Text)
unfolding item_index
list_items prefix [] = []
list_items prefix ((k, v) ∷ m) = elim (item_index prefix k) [
  | none ↦ list_items prefix m
  | some idx ↦ (idx, v) ∷ list_items prefix m
]

-- `std::sort` by the index. Entries with one index are left in the order of the map, which the
-- library leaves open.
unfoldable pub insert_item : ℤ × Text → List (ℤ × Text) → List (ℤ × Text)
insert_item (i, v) [] = (i, v) ∷ []
insert_item (i, v) ((j, w) ∷ items) =
    if ltb_ℤ j i then (j, w) ∷ insert_item (i, v) items else (i, v) ∷ (j, w) ∷ items

unfoldable pub sort_items : List (ℤ × Text) → List (ℤ × Text)
unfolding insert_item
sort_items [] = []
sort_items (item ∷ items) = insert_item item (sort_items items)

unfoldable pub get_string_list : ConfigMap → Text → List Text
unfolding list_items sort_items
get_string_list m key_prefix =
    map (λ item. item.1) (sort_items (list_items (key_prefix ++ b'.' ∷ []) m))
