-- ===== src/Json.antt =====
-- JSON documents as Python reads them: `json.loads` gives None, bool, int, float, str, list and
-- dict. A float is kept as the decimal that stands in the text, `mantissa / 10 ^ places`.
use anime_app_backend.Prelude.{
  ℕ, String, Bool, true, false, not, Option, none, some, List, [], ◌∷◌, str_eq, if◌then◌else◌, ◌==◌,
}
use anime_app_backend.Prelude.Int.{ℤ, pos, negsuc}

mutual
  pub data Json : Type 0 where
    null : Json
    bool : Bool → Json
    int : ℤ → Json
    real : (mantissa : ℤ) → (places : ℕ) → Json
    str : String → Json
    arr : Items → Json
    obj : Fields → Json

  pub data Items : Type 0 where
    nil : Items
    cons : Json → Items → Items

  pub data Fields : Type 0 where
    end : Fields
    field : String → Json → Fields → Fields

abbrev pub is_zero : ℤ → Bool
is_zero (pos n) = n == 0
is_zero (negsuc n) = false

-- `bool(value)`: the truth of a value in a test.
abbrev pub truthy : Json → Bool
truthy null = false
truthy (bool b) = b
truthy (int n) = not (is_zero n)
truthy (real m k) = not (is_zero m)
truthy (str s) = not (str_eq s "")
truthy (arr nil) = false
truthy (arr (cons x xs)) = true
truthy (obj end) = false
truthy (obj (field k v fs)) = true

-- `a or b` on values
abbrev pub or_else : Json → Json → Json
or_else a b = if truthy a then a else b

unfoldable pub lookup : String → Fields → Json
lookup key end = null
lookup key (field name v rest) = if str_eq name key then v else lookup key rest

-- `value.get(key)`: None for a key that is not there, AttributeError (`none`) where `value` is
-- no dict.
abbrev pub get : String → Json → Option Json
get key (obj fields) = some (lookup key fields)
get key v = none

abbrev pub elements : Items → List Json
elements nil = []
elements (cons x xs) = x ∷ elements xs
