-- ===== src/Json/Value.antt =====
-- What `json.loads` gives, and the operations on it that raise.
use relops_hardware_controll.Prelude.{String, ◌==◌, Bool, Option, none, some, if◌then◌else◌}

-- A number is kept as its literal. An object holds its pairs as they were written.
mutual
  pub data Fields : Type 0 where
    no_fields : Fields
    field : String → Value → Fields → Fields

  pub data Items : Type 0 where
    no_items : Items
    item : Value → Items → Items

  pub data Value : Type 0 where
    object : Fields → Value
    array : Items → Value
    str num : String → Value
    bool : Bool → Value
    null : Value

-- `d[key]` of the dictionary made of the pairs, where the last pair of a key counts.
unfoldable pub get : String → Fields → Option Value
get key no_fields = none
get key (field k v fields) = elim (get key fields) [
  | some later ↦ some later
  | none ↦ if k == key then some v else none
]
