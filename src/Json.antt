-- ===== src/Json.antt =====
-- The values of a Python `dict[str, Any]` that the harness stores and prints as JSON. A float is a
-- number of millionths.
use computer_use_orchestrato.Prelude.{
  ℕ, String, Bool, true, false, not, Option, none, some, ◌==◌, List, [], ◌∷◌, nat_eq, truthy, show,
  if◌then◌else◌,
}

mutual
  pub data Json : Type 0 where
    null : Json
    bool : Bool → Json
    num : ℕ → Json
    float : ℕ → Json
    str : String → Json
    arr : Items → Json
    obj : Fields → Json

  pub data Items : Type 0 where
    nil : Items
    cons : Json → Items → Items

  pub data Fields : Type 0 where
    end : Fields
    field : String → Json → Fields → Fields

-- `d.get(key)`, where `none` is a missing key
abbrev pub get : String → Fields → Option Json
get key end = none
get key (field k v rest) = if k == key then some v else get key rest

-- A list of texts as a JSON array.
abbrev pub str_items : List String → Items
str_items [] = nil
str_items (x ∷ xs) = cons (str x) (str_items xs)

-- `d[key] = value`
abbrev pub put : String → Json → Fields → Fields
put key v end = field key v end
put key v (field k w rest) = if k == key then field k v rest else field k w (put key v rest)

-- `d.get(key)`, where a missing key reads as `None`
abbrev pub get_or_null : String → Fields → Json
get_or_null key d = elim (get key d) [ none ↦ null | some v ↦ v ]

-- `bool(value)`
abbrev pub is_truthy : Json → Bool
is_truthy null = false
is_truthy (bool b) = b
is_truthy (num n) = not (nat_eq n 0)
is_truthy (float n) = not (nat_eq n 0)
is_truthy (str s) = truthy s
is_truthy (arr nil) = false
is_truthy (arr (cons v rest)) = true
is_truthy (obj end) = false
is_truthy (obj (field k v rest)) = true

-- `a or b`
infixr 30 ◌or◌
abbrev pub ◌or◌ : Json → Json → Json
a or b = if is_truthy a then a else b

-- `str(value)`. How Python prints a float, a list or a dict is `repr`.
unfoldable pub py_str : (Json → String) → Json → String
unfolding show
py_str repr null = "None"
py_str repr (bool true) = "True"
py_str repr (bool false) = "False"
py_str repr (num n) = show n
py_str repr (str s) = s
py_str repr v = repr v
