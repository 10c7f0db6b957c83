-- ===== src/Recipe/Value.antt =====
-- The values that pkg/recipe/expand.go works on: what encoding/json decodes into `any`, strings, and the
-- int64 that a length is. A float64, its text and the `%v` of lists and objects are parameters.
use servers.Base.{
  ℕ, zero, suc, Bool, true, false, [], Option, none, some, Text, codes, eqt, format_int,
  if◌then◌else◌,
}

module _ (F : Type 0) where
  mutual
    pub data Value : Type 0 where
      null : Value
      bool : Bool → Value
      str : Text → Value
      int : ℕ → Value
      float : F → Value
      arr : Items → Value
      obj : Fields → Value

    pub data Items : Type 0 where
      end : Items
      item : Value → Items → Items

    pub data Fields : Type 0 where
      close : Fields
      field : Text → Value → Fields → Fields

  unfoldable pub items_length : Items → ℕ
  items_length end = 0
  items_length (item v vs) = suc (items_length vs)

  unfoldable pub items_at : Items → ℕ → Option Value
  items_at end i = none
  items_at (item v vs) zero = some v
  items_at (item v vs) (suc i) = items_at vs i

  unfoldable pub field_of : Text → Fields → Option Value
  field_of name close = none
  field_of name (field k v fs) = if eqt k name then some v else field_of name fs

  -- How floats are printed, and lists and objects.
  pub record Printer : Type 0 where
    pub float_text : F → Text
    pub list_text : Items → Text
    pub object_text : Fields → Text

  unfoldable pub stringify : Printer → Value → Text
  stringify p null = []
  stringify p (bool true) = codes "true"
  stringify p (bool false) = codes "false"
  stringify p (str s) = s
  stringify p (int n) = format_int n
  stringify p (float x) = p.float_text x
  stringify p (arr vs) = p.list_text vs
  stringify p (obj fs) = p.object_text fs
