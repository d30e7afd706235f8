-- ===== src/Ingestion/Parsers.antt =====
-- What the parsers of stored responses share (app/ingestion/parsers/common.py).
pub mod Links
pub mod Statistics
pub mod Episodes
pub mod Reviews
pub mod Details
use anime_app_backend.Prelude.{
  ℕ, zero, suc, ◌+◌, ◌/◌, ◌^◌, ◌==◌, Bool, true, false, Option, none, some, String, List, [], ◌∷◌,
  str_eq, if◌then◌else◌,
}
use anime_app_backend.Prelude.Int.{ℤ, pos, negsuc}
use anime_app_backend.Json.{
  Json, null, bool, int, real, str, arr, obj, nil, cons, elements, lookup, Fields, end,
}

-- The units of a duration, as the pattern `DURATION_PART` finds them.
pub data TimeUnit : Type 0 where
  hr min sec : TimeUnit

-- Python's library: texts, `int(text)`, `Decimal(str(value))` of a value that is neither None nor
-- a bool, `datetime.fromisoformat`, SHA-256, and what `DURATION_PART.findall` finds.
pub record Library (D M : Type 0) : Type 0 where
  pub strip : String → String
  pub unescape : String → String
  pub lower : String → String
  pub replace : String → String → String → String
  pub parse_int : String → Option ℤ
  pub decimal : Json → Option D
  pub is_nonzero : D → Bool
  pub doubled : D → D
  pub fromisoformat : String → Option M
  pub sha256_hex : String → String
  pub duration_parts : String → List (ℕ × TimeUnit)

-- `text or None`
abbrev pub non_blank : String → Option String
non_blank text = if str_eq text "" then none else some text

abbrev pub negated : ℕ → ℤ
negated zero = pos 0
negated (suc n) = negsuc n

-- `int(value)` of a float: towards zero.
abbrev pub truncated : ℤ → ℕ → ℤ
truncated (pos n) places = pos (n / 10 ^ places)
truncated (negsuc n) places = negated (suc n / 10 ^ places)

abbrev pub same_int : ℤ → ℤ → Bool
same_int (pos a) (pos b) = a == b
same_int (negsuc a) (negsuc b) = a == b
same_int a b = false

-- `payload.get(key) if isinstance(payload, dict) else None`
abbrev pub get_of : String → Json → Json
get_of key (obj fields) = lookup key fields
get_of key v = null

-- `value if isinstance(value, list) else []`
abbrev pub list_of : Json → List Json
list_of (arr items) = elements items
list_of v = []

module _ {D M : Type 0} (lib : Library D M) where
  unfoldable pub clean_text : Json → Option String
  clean_text (str text) = non_blank (lib.strip text)
  clean_text v = none

  unfoldable pub clean_html_text : Json → Option String
  clean_html_text (str text) = clean_text (str (lib.unescape text))
  clean_html_text v = none

  unfoldable pub to_int : Json → Option ℤ
  to_int (int n) = some n
  to_int (real mantissa places) = some (truncated mantissa places)
  to_int (str text) = lib.parse_int text
  to_int v = none

  unfoldable pub to_decimal : Json → Option D
  to_decimal (bool b) = none
  to_decimal null = none
  to_decimal v = lib.decimal v

  unfoldable pub to_datetime : Json → Option M
  to_datetime (str text) = lib.fromisoformat text
  to_datetime v = none
