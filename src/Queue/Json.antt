-- ===== src/Queue/Json.antt =====
-- The values that `JSON.parse` gives, as packages/queue/src/deliver.ts looks at them: an object has
-- each of its keys once. The looks are those of the source at an `unknown`.
use hobbyist.Base.{Bool, String, str_eq, Text, Option, none, some, if◌then◌else◌}
use hobbyist.Queue.Message.{JsNumber}

mutual
  pub data Json : Type 0 where
    null : Json
    boolean : Bool → Json
    number : JsNumber → Json
    string : Text → Json
    array : Items → Json
    object : Fields → Json

  pub data Items : Type 0 where
    no_items : Items
    item : Json → Items → Items

  pub data Fields : Type 0 where
    no_fields : Fields
    field : String → Json → Fields → Fields

unfoldable pub look : String → Fields → Option Json
look key no_fields = none
look key (field k v fs) = if str_eq k key then some v else look key fs

-- The fields of a value whose `typeof` is 'object', other than null. Of the keys that the source
-- reads, an array has none.
abbrev pub fields_of : Json → Option Fields
fields_of (object fs) = some fs
fields_of (array xs) = some no_fields
fields_of _ = none

abbrev pub string_of : Json → Option Text
string_of (string s) = some s
string_of _ = none

abbrev pub boolean_of : Json → Option Bool
boolean_of (boolean b) = some b
boolean_of _ = none

-- A field that may be left out and is a number otherwise: none where it is something else.
abbrev pub number_or_undefined : Option Json → Option (Option JsNumber)
number_or_undefined none = some none
number_or_undefined (some (number n)) = some (some n)
number_or_undefined (some _) = none
