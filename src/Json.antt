-- ===== src/Json.antt =====
-- Values of Python's `dict`, `list`, `str` and the rest, as `json` reads and writes them.
use pyfr_m8_verify.Base.{ℕ, Bool, Option, none, some, Text, text_eq, if◌then◌else◌}

mutual
  pub data Json : Type 0 where
    null : Json
    boolean : Bool → Json
    number : ℕ → Json
    str : Text → Json
    arr : Items → Json
    obj : Fields → Json

  pub data Items : Type 0 where
    nil : Items
    cons : Json → Items → Items

  -- The entries of a dict, whose keys are distinct.
  pub data Fields : Type 0 where
    end : Fields
    field : Text → Json → Fields → Fields

-- d.get(k)
unfoldable pub get_field : Text → Fields → Option Json
get_field k end = none
get_field k (field j v rest) = if text_eq j k then some v else get_field k rest
