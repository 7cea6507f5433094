-- ===== src/Witnesses/Pages.antt =====
-- Pages of handoffs and a bounded value.
use bridge_db.Prelude.{none, [], ◌∷◌, arith, String}
use bridge_db.Models.{operator}
use bridge_db.Json.{Json, string, int, array, object, cons, nil, field, end}
use bridge_db.Handoffs.Tables.{Tables}
use bridge_db.Handoffs.Create.{new_handoff}
use bridge_db.Handoffs.Invariant.{empty}
use bridge_db.Capacity.BoundedJson.{Limits, encode_bounded_json}
use bridge_db.Capacity.BoundedJson.Traversal.{node_count, Encoded, encode_bounded_json-Encoded}
use bridge_db.Witnesses.Data.{payload}

abbrev queue : Tables
queue = record empty {
  handoffs =
      new_handoff 1 payload none operator "2026-01-01T00:00:00Z"
      ∷ new_handoff 2 payload none operator "2026-01-01T00:10:00Z"
      ∷ [];
}

abbrev limits : Limits
limits = record {
  maximum_bytes = 100;
  maximum_depth = 3;
  maximum_nodes = 5;
  code_prefix = "snapshot";
}

abbrev value : Json
value = object (field "a" (array (cons (int 1) (cons (string "b") nil))) end)

abbrev text : Json → String
text j = "{}"

encode_bounded_json-Encoded_example :
    Encoded limits text value (encode_bounded_json limits text 5 value)
unfolding node_count
encode_bounded_json-Encoded_example = encode_bounded_json-Encoded limits text 5 value (omega arith)
