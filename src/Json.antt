-- ===== src/Json.antt =====
-- The values that the program serialises through serde: texts, null and maps with the order of
-- their entries. `Serialize` is the trait of the same name.
use servir.Prelude.{String, ◌==◌, Option, none, some, List, [], ◌∷◌, if◌then◌else◌}

mutual
  pub data Json : Type 0 where
    null : Json
    str : String → Json
    obj : Fields → Json

  pub data Fields : Type 0 where
    end : Fields
    entry : String → Json → Fields → Fields

-- `Option<String>`: the text, or null.
abbrev pub opt_str : Option String → Json
opt_str none = null
opt_str (some s) = str s

-- `json["key"]`, with `none` for a value that has no such entry.
abbrev pub get_field : String → Fields → Option Json
get_field k end = none
get_field k (entry j v fs) = if j == k then some v else get_field k fs

abbrev pub get : String → Json → Option Json
get k (obj fs) = get_field k fs
get k (str s) = none
get k null = none

-- The keys of a map, as often as they are written.
abbrev pub keys : Fields → List String
keys end = []
keys (entry k v fs) = k ∷ keys fs

pub record Serialize (A : Type 0) : Type 0 where
  pub to_json : A → Json

-- `()` is null.
instance abbrev pub unit_serialize : Serialize (Unit {0})
unit_serialize = record { to_json = λ u. null }

instance abbrev pub string_serialize : Serialize String
string_serialize = record { to_json = str }
