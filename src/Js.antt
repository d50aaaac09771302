-- ===== src/Js.antt =====
-- The part of JavaScript that the pages use: texts, and values as they stand in parsed JSON.
mod Text
mod Json
pub mod Sort
unfoldable pub use Text.{
  codes, is_empty, or_text, concat, is_space, trim, join, show_ℕ, utf16_length,
}
pub use Text.{trim_idem, is_empty-concat, is_empty-show_ℕ}
unfoldable pub use Json.{parse_int}
pub use Json.{
  Value, undefined, null, bool, num, minus, nan, str, arr, obj, Items, nil, item, Fields, end,
  field, truthy, is_nullish, ◌or◌, ◌else_use◌, get, first, is_text, empty_object, to_text,
  fields_of, get-fields_of,
}
