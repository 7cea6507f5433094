-- ===== src/Platform.antt =====
-- The functions that the program calls and does not implement, as one record of parameters:
-- `hashlib.sha256(text.encode("utf-8")).hexdigest()`, `json.dumps` with sorted keys and compact
-- separators, and the two conversions between time stamps and their texts. Times are microseconds.
use bridge_db.Prelude.{ℕ, String, Option}
use bridge_db.Json.{Json}

pub record Platform : Type 0 where
  pub sha256 : String → String
  pub dumps : Json → String
  pub from_iso : String → Option ℕ  -- an aware time stamp, or none where the text is not one
  pub iso_z : ℕ → String  -- whole seconds since the epoch, as YYYY-MM-DDTHH:MM:SSZ
