-- ===== src/Commands/FileBugzillaBug/Values.antt =====
-- What relops_hardware_controller/api/management/commands/file_bugzilla_bug.py does with the values
-- of a JSON text: subscripts, truth and `str`.
use relops_hardware_controll.Prelude.{
  String, ◌<>◌, none, some, Bool, true, false, not, ◌&&◌, ◌||◌, all_chars, leb, eqb, is_empty,
}
use relops_hardware_controll.Json.Value.{
  Value, null, bool, num, str, array, object, no_items, item, Fields, no_fields, field, get,
}
use relops_hardware_controll.Effects.{
  key_error, index_error, type_error, attribute_error, exn, M, pure, raise,
}

-- Python's `str` of a number, a list and a dictionary, and whether the literal of a number is one of
-- zero.
pub record Python : Type 0 where
  pub repr : Value → String
  pub is_zero : String → Bool

-- `str(value)`
unfoldable pub show_value : Python → Value → String
show_value python null = "None"
show_value python (bool true) = "True"
show_value python (bool false) = "False"
show_value python (str s) = s
show_value python v = python.repr v

-- `bool(value)`
unfoldable pub truth : Python → Value → Bool
truth python null = false
truth python (bool b) = b
truth python (num literal) = not (python.is_zero literal)
truth python (str s) = not (is_empty s)
truth python (array no_items) = false
truth python (array (item v vs)) = true
truth python (object no_fields) = false
truth python (object (field k v kvs)) = true

-- A literal with a point, an exponent or a name of infinity is a `float`.
abbrev pub is_int : String → Bool
unfolding all_chars
is_int literal = all_chars (λ c. (leb b'0' c && leb c b'9') || eqb c b'-') literal

unfoldable pub type_name : Value → String
type_name null = "NoneType"
type_name (bool b) = "bool"
type_name (num literal) = elim (is_int literal) [ true ↦ "int" | false ↦ "float" ]
type_name (str s) = "str"
type_name (array vs) = "list"
type_name (object _) = "dict"

unfoldable pub not_subscriptable : Value → M Value
unfolding type_name
not_subscriptable v = raise (exn type_error ("'" <> type_name v <> "' object is not subscriptable"))

-- `fields[key]`
unfoldable pub get_field : String → Fields → M Value
get_field key fields = elim (get key fields) [
  | some v ↦ pure v
  | none ↦ raise (exn key_error ("'" <> key <> "'"))
]

-- `value[key]`
unfoldable pub get_key : String → Value → M Value
unfolding get_field not_subscriptable
get_key key (object fields) = get_field key fields
get_key key (array vs) = raise (exn type_error "list indices must be integers or slices, not str")
get_key key (str s) = raise (exn type_error "string indices must be integers")
get_key key v = not_subscriptable v

-- `value[0]`
unfoldable pub get_first : Value → M Value
unfolding not_subscriptable
get_first (array (item v vs)) = pure v
get_first (array no_items) = raise (exn index_error "list index out of range")
get_first (str (String.◌∷◌ c s)) = pure (str (String.◌∷◌ c ""))
get_first (str String.[]) = raise (exn index_error "string index out of range")
get_first (object _) = raise (exn key_error "0")
get_first v = not_subscriptable v

-- `value.get(key, None)`
unfoldable pub get_or_none : String → Value → M Value
unfolding get type_name
get_or_none key (object fields) = elim (get key fields) [ some v ↦ pure v | none ↦ pure null ]
get_or_none key v =
    raise (exn attribute_error ("'" <> type_name v <> "' object has no attribute 'get'"))

-- `value.items()`
unfoldable pub get_items : Value → M Fields
unfolding type_name
get_items (object fields) = pure fields
get_items v =
    raise (exn attribute_error ("'" <> type_name v <> "' object has no attribute 'items'"))
