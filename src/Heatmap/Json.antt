-- ===== src/Heatmap/Json.antt =====
-- JSON values as json.loads returns them, and what Python's subscripts and loops make of them.
use factory_monitor.Base.{String, Bool, List, [], ◌∷◌, str_eq, ℤ, if◌then◌else◌}
use factory_monitor.Base.Outcome.{Outcome, Error, ok, err}

-- `fraction` is a number that is no integer; the values of an object are in a list of their own.
mutual
  pub data Value : Type 0 where
    null fraction : Value
    boolean : Bool → Value
    number : ℤ → Value
    text : String → Value
    array : Items → Value
    object : Fields → Value

  pub data Items : Type 0 where
    nil : Items
    item : Value → Items → Items

  pub data Fields : Type 0 where
    end : Fields
    field : String → Value → Fields → Fields

abbrev field_of : String → Fields → Outcome Value
field_of key end = err Error.key_error
field_of key (field k v fs) = if str_eq k key then ok v else field_of key fs

-- `value[key]` with a text as the key: only an object has one.
unfoldable pub subscript : String → Value → Outcome Value
subscript key (object fs) = field_of key fs
subscript key _ = err Error.type_error

abbrev items_of : Items → List Value
items_of nil = []
items_of (item v vs) = v ∷ items_of vs

abbrev keys_of : Fields → List Value
keys_of end = []
keys_of (field k v fs) = text k ∷ keys_of fs

-- What `for x in value` runs over: the items of an array, the keys of an object, and the characters of
-- a text, which `characters` gives.
unfoldable pub iterate : (String → List Value) → Value → Outcome (List Value)
iterate characters (array vs) = ok (items_of vs)
iterate characters (object fs) = ok (keys_of fs)
iterate characters (text s) = ok (characters s)
iterate characters _ = err Error.type_error
