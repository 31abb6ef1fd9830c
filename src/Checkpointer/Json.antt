-- ===== src/Checkpointer/Json.antt =====
-- The trees that internal/checkpointer/service.go hands to encoding/json and gets from it: maps and
-- the values in them. A number is an integer, as all that the service writes are.
use langsmith_deployment_go.Prelude.{
  String, Bool, Option, none, some, List, [], ◌∷◌, str_eq, if◌then◌else◌,
}
use langsmith_deployment_go.Runs.Model.{ℤ}

mutual
  pub data Json : Type 0 where
    null_json : Json
    bool_json : Bool → Json
    number_json : ℤ → Json
    string_json : String → Json
    array_json : Items → Json
    object_json : Fields → Json

  pub data Items : Type 0 where
    no_items : Items
    item : Json → Items → Items

  pub data Fields : Type 0 where
    no_fields : Fields
    field : String → Json → Fields → Fields

-- `m[k]`
abbrev pub lookup : String → Fields → Option Json
lookup k no_fields = none
lookup k (field l j fs) = if str_eq l k then some j else lookup k fs

-- `m[k] = j`
abbrev pub assign : String → Json → Fields → Fields
assign k j no_fields = field k j no_fields
assign k j (field l i fs) =
    let rest = assign k j fs in if str_eq l k then field l j fs else field l i rest

-- A map of strings as an object, and a list of strings as an array.
abbrev pub text_fields : List (String × String) → Fields
text_fields [] = no_fields
text_fields ((k, s) ∷ kvs) = field k (string_json s) (text_fields kvs)

abbrev pub text_items : List String → Items
text_items [] = no_items
text_items (s ∷ ss) = item (string_json s) (text_items ss)

-- What is there of strings in an object and in an array.
abbrev pub texts_of_fields : Fields → List (String × String)
texts_of_fields no_fields = []
texts_of_fields (field k (string_json s) fs) = (k, s) ∷ texts_of_fields fs
texts_of_fields (field k _ fs) = texts_of_fields fs

abbrev pub texts_of_items : Items → List String
texts_of_items no_items = []
texts_of_items (item (string_json s) js) = s ∷ texts_of_items js
texts_of_items (item _ js) = texts_of_items js

-- encoding/json over PostgreSQL's jsonb: the text of a tree, and the tree that the decoder reads from
-- the text of a document, if it has one.
pub record JsonCodec (V : Type 0) : Type 0 where
  pub print : Json → String
  pub tree : V → Option Json
