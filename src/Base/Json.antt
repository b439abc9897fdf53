-- ===== src/Base/Json.antt =====
-- Decoded JSON (Go's map[string]any, []any, string and the other scalars). An object is an
-- association list; a number is an opaque token.
use Prim.Native.Nat.{ℕ}
use mathlib.Core.Bool.{Bool}
use mathlib.Core.Path.{◌≡◌, refl}
use mathlib.Core.Option.{Option, none, some}
use native.Mathlib.Omega.{arith}
use package.eaim.Base.Tests.{if◌then◌else◌}
use package.eaim.Base.Text.{Text, text_eq, text_eq_iff}

mutual
  pub data Value : Type 0 where
    null : Value
    bool : Bool → Value
    num : ℕ → Value
    str : Text → Value
    arr : Items → Value
    obj : Fields → Value

  pub data Items : Type 0 where
    nil : Items
    cons : Value → Items → Items

  pub data Fields : Type 0 where
    end : Fields
    field : Text → Value → Fields → Fields

-- A read of a key of a map.
unfoldable pub get_field : Text → Fields → Option Value
get_field k end = none
get_field k (field j v m) = if text_eq j k then some v else get_field k m

-- A write to a key of a map.
unfoldable pub set_field : Text → Value → Fields → Fields
set_field k v end = field k v end
set_field k v (field j u m) = if text_eq j k then field k v m else field j u (set_field k v m)

pub get_field-set_field :
    (k j : Text) (v : Value) (m : Fields)
    → get_field j (set_field k v m) ≡ (if text_eq k j then some v else get_field j m)
unfolding get_field set_field
get_field-set_field k j v end = refl
get_field-set_field k j v (field i u m) =
    ground (arith, text_eq_iff k j, text_eq_iff i k, text_eq_iff i j, get_field-set_field k j v m)
