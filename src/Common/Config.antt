-- ===== src/Common/Config.antt =====
-- common/src/config/config_manager.h and config_manager.cpp.
mod Lines
mod Load
mod Get
pub mod Trimming
pub mod Ranges
pub mod Numbers
pub mod Plain
pub mod Printed
pub mod Files
pub mod Sections
pub mod Items
pub mod StringLists
unfoldable pub use Lines.{
  count_leading, trim, unquote, count_leading_spaces, strip_inline_comment, join_keys,
}
pub use Load.{Dict, ConfigMap, LoadState, initial, stack_prefix, full_key}
unfoldable pub use Load.{
  lookup, assign, pop_deeper, read_item, read_entry, read_content, read_line, split_lines,
  read_lines, load,
}
unfoldable pub use Get.{get_string, get_int, get_bool, get_string_list}
