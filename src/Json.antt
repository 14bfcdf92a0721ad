-- ===== src/Json.antt =====
-- `serde_json::Value`, the value that requests, responses and schemas are made of, with the
-- capacity of what it allocates. An object lists its members in the order in which they are walked.
pub mod Stack
pub mod Sums
use llmshim.Common.{
  ℕ, zero, suc, max, ◌+◌, ◌*◌, String, Bool, true, false, Option, none, some, List, [], ◌∷◌,
  if◌then◌else◌, string_key, ◌==◌, ltb, eqb,
}
use Prim.Native.Nat.{Ordering}
use Prim.Native.String

mutual
  pub data Value : Type 0 where
    null : Value
    boolean : Bool → Value
    number : String → Value
    text : String → (capacity : ℕ) → Value
    array : (capacity : ℕ) → Items → Value
    object : Fields → Value

  pub data Items : Type 0 where
    nil : Items
    cons : Value → Items → Items

  pub data Fields : Type 0 where
    end : Fields
    field : (key : String) (capacity : ℕ) → Value → Fields → Fields

abbrev pub items_length : Items → ℕ
items_length nil = 0
items_length (cons x xs) = suc (items_length xs)

abbrev pub fields_length : Fields → ℕ
fields_length end = 0
fields_length (field k c v fs) = suc (fields_length fs)

-- Value::get, for an object
abbrev pub find_field : Fields → String → Option Value
find_field end key = none
find_field (field k c v fs) key = if k == key then some v else find_field fs key

abbrev pub get_field : Value → String → Option Value
get_field (object fs) key = find_field fs key
get_field _ key = none

abbrev pub as_str : Value → Option String
as_str (text s capacity) = some s
as_str _ = none

-- The order of texts by code points, which is that of their bytes.
abbrev pub is_before : String → String → Bool
is_before s t = elim (String.compare s t) [ Ordering.lt ↦ true | _ ↦ false ]

-- Map::insert, of a `BTreeMap`: the value of a key that is there is replaced, and another key is
-- put in its order.
abbrev pub set_field : Fields → String → (capacity : ℕ) → Value → Fields
set_field end key capacity v = field key capacity v end
set_field (field k c w fs) key capacity v =
    let rest = set_field fs key capacity v in
    if k == key
    then field k c v fs
    else if is_before key k
    then field key capacity v (field k c w fs)
    else field k c w rest

-- The sum over a value and all that it holds.
unfoldable mutual
  pub total : (Value → ℕ) → Value → ℕ
  total own null = own null
  total own (boolean b) = own (boolean b)
  total own (number n) = own (number n)
  total own (text s c) = own (text s c)
  total own (array c xs) = own (array c xs) + total_items own xs
  total own (object fs) = own (object fs) + total_fields own fs

  pub total_items : (Value → ℕ) → Items → ℕ
  total_items own nil = 0
  total_items own (cons x xs) = total own x + total_items own xs

  pub total_fields : (Value → ℕ) → Fields → ℕ
  total_fields own end = 0
  total_fields own (field k c v fs) = total own v + total_fields own fs

abbrev pub one : Value → ℕ
one v = 1

-- What the compiler gives a `Value`, a `String` and a `usize`, in bytes.
pub record Layout : Type 0 where
  pub value_size : ℕ
  pub string_size : ℕ
  pub vec_size : ℕ
  pub usize_size : ℕ

-- The depth of a value that holds nothing is 1.
unfoldable mutual
  pub height : Value → ℕ
  height null = 1
  height (boolean b) = 1
  height (number n) = 1
  height (text s c) = 1
  height (array c xs) = 1 + height_items xs
  height (object fs) = 1 + height_fields fs

  pub height_items : Items → ℕ
  height_items nil = 0
  height_items (cons x xs) = max (height x) (height_items xs)

  pub height_fields : Fields → ℕ
  height_fields end = 0
  height_fields (field k c v fs) = max (height v) (height_fields fs)

-- Clone: what is allocated anew has room for what it holds, and no more.
unfoldable mutual
  pub cloned : Value → Value
  cloned null = null
  cloned (boolean b) = boolean b
  cloned (number n) = number n
  cloned (text s c) = text s (String.len s)
  cloned (array c xs) = array (items_length xs) (cloned_items xs)
  cloned (object fs) = object (cloned_fields fs)

  pub cloned_items : Items → Items
  cloned_items nil = nil
  cloned_items (cons x xs) = cons (cloned x) (cloned_items xs)

  pub cloned_fields : Fields → Fields
  cloned_fields end = end
  cloned_fields (field k c v fs) = field k (String.len k) (cloned v) (cloned_fields fs)
