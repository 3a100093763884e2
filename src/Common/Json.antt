-- ===== src/Common/Json.antt =====
-- JSON values, as `JSON.parse` and the adapters hand them over. A number is its literal: the modelled
-- code asks only whether a value is a number.
use agent_host.Common.{
  String, Bool, true, Option, none, some, List, [], ◌∷◌, ◌=?◌, if◌then◌else◌, ◌&&◌, any,
}

mutual
  pub data Value : Type 0 where
    null : Value
    boolean : Bool → Value
    number : String → Value
    string : String → Value
    array : Items → Value
    object : Fields → Value

  pub data Items : Type 0 where
    nil : Items
    cons : Value → Items → Items

  pub data Fields : Type 0 where
    end : Fields
    field : String → Value → Fields → Fields

-- `value[key]`; `none` is `undefined`.
unfoldable pub member : String → Fields → Option Value
member k end = none
member k (field j v r) = if j =? k then some v else member k r

-- `Object.keys(value).every((key) => allowed.has(key))`
unfoldable pub only_keys : List String → Fields → Bool
only_keys allowed end = true
only_keys allowed (field j v r) = any (λ k. k =? j) allowed && only_keys allowed r

abbrev pub items : Items → List Value
items nil = []
items (cons v r) = v ∷ items r

-- `plainObject(value)`
abbrev pub as_object : Option Value → Option Fields
as_object (some (object fs)) = some fs
as_object _ = none

abbrev pub as_array : Option Value → Option (List Value)
as_array (some (array xs)) = some (items xs)
as_array _ = none

abbrev pub as_boolean : Option Value → Option Bool
as_boolean (some (boolean b)) = some b
as_boolean _ = none

abbrev pub as_string : Option Value → Option String
as_string (some (string s)) = some s
as_string _ = none
