-- ===== src/Base/Json.antt =====
-- JSON values as `encoding/json` decodes them into `any`. A number is a float64; the program only
-- ever takes `int(v)` of one, so the number here is that truncation.
use Prim.Native.Nat.{ℕ}
use Prim.Native.String.{String}
use mathlib.Core.Bool.{Bool}
use mathlib.Core.List.{List, [], ◌∷◌}

-- Go's int; `negsuc n` is -(n + 1).
pub data ℤ : Type 0 where
  pos : ℕ → ℤ
  negsuc : ℕ → ℤ

mutual
  pub data Json : Type 0 where
    null : Json
    bool : Bool → Json
    number : ℤ → Json
    text : String → Json
    array : Items → Json
    object : Members → Json

  pub data Items : Type 0 where
    done : Items
    item : Json → Items → Items

  pub data Members : Type 0 where
    end : Members
    member : String → Json → Members → Members

-- A `map[string]any` as the value that is marshalled.
abbrev pub members : List (String × Json) → Members
members [] = end
members ((k, v) ∷ m) = member k v (members m)

abbrev pub fields : Members → List (String × Json)
fields end = []
fields (member k v m) = (k, v) ∷ fields m
