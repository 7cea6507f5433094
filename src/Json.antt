-- ===== src/Json.antt =====
-- The values of Python's `json` module, as `json.loads` returns them. A mapping has distinct keys.
use bridge_db.Prelude.{ℕ, String, Bool, Option, none, some, ◌==◌, string_eq, if◌then◌else◌}

mutual
  pub data Json : Type 0 where
    null : Json
    bool : Bool → Json
    int : ℕ → Json
    neg_int : ℕ → Json
    float : String → Json
    string : String → Json
    array : Items → Json
    object : Fields → Json

  pub data Items : Type 0 where
    nil : Items
    cons : Json → Items → Items

  pub data Fields : Type 0 where
    end : Fields
    field : String → Json → Fields → Fields

-- dict.get
unfoldable pub get : Fields → String → Option Json
get end key = none
get (field k v rest) key = let later = get rest key in if k == key then some v else later
