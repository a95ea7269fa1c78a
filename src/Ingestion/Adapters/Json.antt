-- ===== src/Ingestion/Adapters/Json.antt =====
-- The values of JSON as Python has them, and the operations on them that the adapters use. An operation
-- returns or raises.
use job_finder_agent.Common.{
  Bool, true, false, not, Option, none, some, List, [], ◌∷◌, String, str_eq, if◌then◌else◌,
}

mutual
  -- A number says whether it is zero, and its text. A dictionary has each key once.
  pub data Json : Type 0 where
    null : Json
    boolean : Bool → Json
    number : Bool → String → Json
    text : String → Json
    array : Items → Json
    object : Fields → Json

  pub data Items : Type 0 where
    nil : Items
    item : Json → Items → Items

  pub data Fields : Type 0 where
    end : Fields
    field : String → Json → Fields → Fields

pub data Error : Type 0 where
  key_error type_error attribute_error : Error

pub data Python (A : Type 0) : Type 0 where
  value : A → Python A
  error : Error → Python A

infixl 5 ◌>>=◌
abbrev pub ◌>>=◌ : {A B : Type 0} → Python A → (A → Python B) → Python B
value a >>= f = f a
error e >>= f = error e

abbrev pub lookup : String → Fields → Option Json
lookup key end = none
lookup key (field k v fields) =
    let later = lookup key fields in if str_eq k key then some v else later

-- `not value`
abbrev pub is_falsy : Json → Bool
is_falsy null = true
is_falsy (boolean b) = not b
is_falsy (number is_zero digits) = is_zero
is_falsy (text s) = str_eq s ""
is_falsy (array nil) = true
is_falsy (array (item x xs)) = false
is_falsy (object end) = true
is_falsy (object (field k v fields)) = false

-- `value.get(key, default)`, which only a dictionary has.
abbrev pub get : Json → String → Json → Python Json
get (object fields) key default = elim (lookup key fields) [
  | none ↦ value default
  | some v ↦ value v
]
get _ key default = error attribute_error

-- `value[key]`, for a key that is a text.
abbrev pub index : Json → String → Python Json
index (object fields) key = elim (lookup key fields) [ none ↦ error key_error | some v ↦ value v ]
index _ key = error type_error

abbrev items : Items → List Json
items nil = []
items (item x xs) = x ∷ items xs

abbrev keys : Fields → List Json
keys end = []
keys (field k v fields) = text k ∷ keys fields

abbrev texts_of : List String → List Json
texts_of [] = []
texts_of (c ∷ cs) = text c ∷ texts_of cs

-- `for x in value`; `characters` are the texts of one character in a text.
abbrev pub iterate : (String → List String) → Json → Python (List Json)
iterate characters (array xs) = value (items xs)
iterate characters (object fields) = value (keys fields)
iterate characters (text s) = value (texts_of (characters s))
iterate characters _ = error type_error

abbrev pub is_object : Json → Bool
is_object (object fields) = true
is_object _ = false
