-- ===== src/Base/Json.antt =====
-- The JSON values that the code stores: numbers are the natural ones, which is what it writes.
pub mod Print
pub mod Injective
use Prim.Native.Nat.{ℕ}
use Prim.Native.String.{String}
use mathlib.Core.Bool.{Bool}
use mathlib.Core.List.{List, [], ◌∷◌}

mutual
  pub data Json : Type 0 where
    null : Json
    bool : Bool → Json
    num : ℕ → Json
    str : String → Json
    arr : Items → Json
    obj : Fields → Json

  pub data Items : Type 0 where
    nil : Items
    cons : Json → Items → Items

  pub data Fields : Type 0 where
    end : Fields
    field : String → Json → Fields → Fields

-- An object literal.
abbrev pub fields : List (String × Json) → Fields
fields [] = end
fields ((k, v) ∷ m) = field k v (fields m)

abbrev pub object : List (String × Json) → Json
object m = obj (fields m)
