-- ===== src/Store/Json.antt =====
-- The JSON values that the program stores in JSONB columns and reads back from them. Numbers with
-- a fraction are left out: no modelled code reads one.
use poolbrian_sms_automation.Prelude.{ℕ, String, Bool, str_eq, if◌then◌else◌}

mutual
  pub data Json : Type 0 where
    null : Json
    flag : Bool → Json
    number : ℕ → Json
    -- `negative n` is -(n + 1).
    negative : ℕ → Json
    text : String → Json
    array : Items → Json
    object : Fields → Json

  pub data Items : Type 0 where
    nil : Items
    cons : Json → Items → Items

  pub data Fields : Type 0 where
    end : Fields
    field : String → Json → Fields → Fields

-- `data.get(key)`; a missing key and a null value read alike.
unfoldable pub get : String → Fields → Json
get k end = null
get k (field j v rest) = if str_eq j k then v else get k rest
