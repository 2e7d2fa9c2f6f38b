-- ===== src/Common/Payload.antt =====
-- The dynamic values of the source: what `json` and the feature dicts hold. `other` is any object
-- of another type, by its `str`.
use Prim.Native.String.{String}
use mathlib.Core.Bool.{Bool, true, false}
use mathlib.Core.Option.{Option, none, some}
use text.Mathlib.Text.{◌==◌ as str_eq}
use trader_ai.Common.Tests.{if◌then◌else◌}
use trader_ai.Common.Int.{ℤ}

mutual
  pub data Json : Type 0 where
    null : Json
    bool : Bool → Json
    num : ℤ → Json
    str : String → Json
    arr : Items → Json
    obj : Fields → Json
    other : String → Json

  pub data Items : Type 0 where
    nil : Items
    cons : Json → Items → Items

  pub data Fields : Type 0 where
    end : Fields
    field : String → Json → Fields → Fields

-- `d.get(key)`
abbrev pub get_field : String → Fields → Option Json
get_field key end = none
get_field key (field k v rest) = if str_eq k key then some v else get_field key rest

-- `isinstance(d.get(key), dict)`
abbrev pub is_dict : Option Json → Bool
is_dict (some (obj _)) = true
is_dict _ = false

abbrev pub is_text : String → Option Json → Bool
is_text s (some (str t)) = str_eq t s
is_text s _ = false

-- `value in ([], None)`
abbrev pub is_blank_list : Option Json → Bool
is_blank_list none = true
is_blank_list (some null) = true
is_blank_list (some (arr nil)) = true
is_blank_list (some (arr (cons _ _))) = false
is_blank_list _ = false

-- `not d`
abbrev pub is_end : Fields → Bool
is_end end = true
is_end (field _ _ _) = false
