-- ===== src/Acceptance/Json.antt =====
-- What `json.loads` returns, and the functions of app/app/application/workbench/acceptance.py that
-- look into it. A number is known by the text it is written with; what floats say of two of them is
-- an argument.
use investment_backend.Base.{
  ℕ, suc, Bool, true, false, not, ◌&&◌, Option, none, some, List, [], ◌∷◌, ◌++◌, if◌then◌else◌,
  is_empty,
}
use investment_backend.Projects.Text.{Text, is_space, strip, split, same_text}

mutual
  pub data Json : Type 0 where
    null : Json
    boolean : Bool → Json
    number : ℕ → Json
    string : Text → Json
    array : Items → Json
    object : Fields → Json

  pub data Items : Type 0 where
    nil : Items
    cons : Json → Items → Items

  pub data Fields : Type 0 where
    end : Fields
    field : Text → Json → Fields → Fields

-- `fields.get(key)`
abbrev pub find_field : Text → Fields → Option Json
find_field key end = none
find_field key (field name value rest) =
    let later = find_field key rest in if same_text name key then some value else later

abbrev pub is_object : Json → Bool
is_object (object _) = true
is_object _ = false

abbrev pub get_key : Text → Json → Json
get_key key (object fields) = elim (find_field key fields) [ none ↦ null | some value ↦ value ]
get_key key _ = null

-- The loop of `_get`
abbrev pub get_along : List Text → Json → Json
get_along [] value = value
get_along (key ∷ keys) value = get_along keys (get_key key value)

-- `_get`
unfoldable pub get : Json → Option Text → Json
get value none = value
get value (some path) = if is_empty path then value else get_along (split 46 path) value

-- `_text_of`; the texts are joined by newlines.
unfoldable mutual
  pub text_of : Json → Text
  text_of null = []
  text_of (boolean b) = []
  text_of (number n) = []
  text_of (string text) = text
  text_of (array items) = text_of_items items
  text_of (object fields) = text_of_fields fields

  pub text_of_items : Items → Text
  text_of_items nil = []
  text_of_items (cons value nil) = text_of value
  text_of_items (cons value (cons next rest)) =
      text_of value ++ (10 ∷ text_of_items (cons next rest))

  pub text_of_fields : Fields → Text
  text_of_fields end = []
  text_of_fields (field name value end) = text_of value
  text_of_fields (field name value (field other next rest)) =
      text_of value ++ (10 ∷ text_of_fields (field other next rest))

-- The values of `AcceptanceRule.equals`
pub data Scalar : Type 0 where
  no_value : Scalar
  flag : Bool → Scalar
  amount : ℕ → Scalar
  word : Text → Scalar

abbrev same_bool : Bool → Bool → Bool
same_bool true b = b
same_bool false b = not b

-- `val is None or (isinstance(val, str) and val.strip() == "")`
unfoldable pub is_blank : Json → Bool
unfolding is_space
is_blank null = true
is_blank (string text) = is_empty (strip is_space text)
is_blank _ = false

abbrev pub item_count : Items → ℕ
item_count nil = 0
item_count (cons value rest) = suc (item_count rest)

module _ (float_eq : ℕ → ℕ → Bool) (is_zero : ℕ → Bool) where
  -- `_same`
  unfoldable pub same : Json → Scalar → Bool
  same (boolean a) (flag b) = same_bool a b
  same (number a) (amount b) = float_eq a b
  same (string a) (word b) = same_text a b
  same null no_value = true
  same _ _ = false

  abbrev item_equals : Text → Scalar → Json → Bool
  item_equals name expected (object fields) = elim (find_field name fields) [
    | none ↦ false
    | some value ↦ same value expected
  ]
  item_equals name expected _ = false

  abbrev items_equal : Text → Scalar → Items → Bool
  items_equal name expected nil = true
  items_equal name expected (cons value rest) =
      item_equals name expected value && items_equal name expected rest

  -- `_all_equal`
  unfoldable pub items_all_equal : Json → Option Text → Scalar → Bool
  unfolding same
  items_all_equal (array items) (some name) expected =
      if is_empty name then false else items_equal name expected items
  items_all_equal _ _ expected = false

  -- `bool(val) and (not isinstance(val, str) or val.strip() != "")`
  unfoldable pub is_filled : Json → Bool
  unfolding is_space
  is_filled null = false
  is_filled (boolean b) = b
  is_filled (number n) = not (is_zero n)
  is_filled (string text) = not (is_empty (strip is_space text))
  is_filled (array nil) = false
  is_filled (array (cons _ _)) = true
  is_filled (object end) = false
  is_filled (object (field _ _ _)) = true
