-- ===== src/Prelude/Json.antt =====
-- The values of Python's `json` module, as the scripts build and read them.
use Prim.Native.String.{String}
use hermes_ops.Prelude.Int.{ℤ}
use mathlib.Core.Bool.{Bool}
use mathlib.Core.Option.{Option, none, some}

-- A float is the text of its literal: the code only asks a value whether it is an `int`.
mutual
  pub data Json : Type 0 where
    null : Json
    bool : Bool → Json
    int : ℤ → Json
    float : String → Json
    text : String → Json
    arr : Items → Json
    obj : Fields → Json

  pub data Items : Type 0 where
    nil : Items
    cons : Json → Items → Items

  pub data Fields : Type 0 where
    end : Fields
    field : String → Json → Fields → Fields

abbrev pub text_or_null : Option String → Json
text_or_null none = null
text_or_null (some s) = text s
