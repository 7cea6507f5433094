-- ===== src/Capacity.antt =====
-- src/bridge_db/capacity.py: the checks that refuse an oversized write before it happens.
-- A text's size is the bytes of its UTF-8, which the native `len` counts.
pub mod BoundedJson
use Prim.Native.String.{len}
use bridge_db.Prelude.{ℕ, String, Option, none, some, List, leb, total_of, if◌then◌else◌}
use bridge_db.Errors.{capacity_exceeded}
use bridge_db.Exec.{Result, ok, err}

-- `value or ""`
unfoldable pub utf8_size : Option String → ℕ
utf8_size none = 0
utf8_size (some value) = len value

unfoldable pub require_utf8_bytes : Option String → ℕ → String → Result ℕ
unfolding utf8_size
require_utf8_bytes value maximum code =
    let size = utf8_size value in
    if leb size maximum then ok size else err (capacity_exceeded code maximum size)

unfoldable pub require_combined_bytes : List ℕ → ℕ → String → Result (Unit {0})
require_combined_bytes sizes maximum code =
    let total = total_of (λ n. n) sizes in
    if leb total maximum then ok tt else err (capacity_exceeded code maximum total)
