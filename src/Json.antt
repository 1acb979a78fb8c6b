-- ===== src/Json.antt =====
-- The JSON values that `await request.json()` returns, and `dict.get`. An object's keys are
-- distinct, since Python keeps the last of two equal ones.
use apna_mandla.Prelude.{String, Bool, Option, none, some, List, [], ◌∷◌, if◌then◌else◌}
use apna_mandla.Prelude.Int.{ℤ}
use apna_mandla.Prelude.Text.{str_eq}

mutual
  pub data Json : Type 0 where
    null : Json
    boolean : Bool → Json
    number : ℤ → Json
    real : String → Json
    text : String → Json
    array : Items → Json
    object : Fields → Json

  pub data Items : Type 0 where
    no_items : Items
    item : Json → Items → Items

  pub data Fields : Type 0 where
    no_fields : Fields
    field : String → Json → Fields → Fields

unfoldable pub lookup : String → Json → Fields → Json
lookup key default no_fields = default
lookup key default (field k v fs) =
    let rest = lookup key default fs in if str_eq k key then v else rest

-- `value.get(key, default)`; a value that is no object has no `get`.
unfoldable pub get : String → Json → Json → Option Json
get key default (object fs) = some (lookup key default fs)
get key default _ = none

-- A chain of `get`, with an empty object as the default of all but the last.
unfoldable pub get_path : List String → Json → Json → Option Json
get_path [] default v = some v
get_path (key ∷ []) default v = get key default v
get_path (key ∷ (k ∷ ks)) default v = elim (get key (object no_fields) v) [
  | none ↦ none
  | some inner ↦ get_path (k ∷ ks) default inner
]

-- What Python and the database driver make of values and texts, which are not of this code.
pub record Codec : Type 0 where
  -- `json.loads`; `none` is a text that is not JSON.
  pub loads : String → Option Json
  -- `str(value)`.
  pub str : Json → String
  -- `int` of a text and of a real number; `none` is its exception.
  pub parse_int : String → Option ℤ
  pub trunc : String → Option ℤ
  -- The value of a text column, NULL included; `none` is a value that the driver refuses.
  pub bind_text : Json → Option (Option String)
