-- ===== src/Capacity/BoundedJson.antt =====
-- `encode_bounded_json` of src/bridge_db/capacity.py: the traversal of a JSON value by an explicit
-- stack, on fuel, and the serialization after it. `encode` stands for `json.dumps` with compact
-- separators.
pub mod Traversal
use Prim.Native.String.{len}
use bridge_db.Prelude.{
  ℕ, suc, zero, ◌+◌, String, ◌<>◌, Option, none, some, List, [], ◌∷◌, leb, ltb, if◌then◌else◌,
}
use bridge_db.Json.{
  Json, Items, Fields, null, bool, int, neg_int, float, string, array, object, nil, cons, end,
  field,
}
use bridge_db.Errors.{ToolError, capacity_exceeded}
use bridge_db.Exec.{Result, ok, err}

pub record Limits : Type 0 where
  pub maximum_bytes : ℕ
  pub maximum_depth : ℕ
  pub maximum_nodes : ℕ
  pub code_prefix : String

-- What is left to visit, with its depth; the head is the top of the stack.
abbrev pub Stack : Type 0
Stack = List (Json × ℕ)

-- stack.extend((item, depth + 1) for item in sequence)
unfoldable pub push_items : ℕ → Items → Stack → Stack
push_items depth nil stack = stack
push_items depth (cons item rest) stack = push_items depth rest ((item, depth) ∷ stack)

-- stack.extend((item, depth + 1) for item in mapping.values())
unfoldable pub push_values : ℕ → Fields → Stack → Stack
push_values depth end stack = stack
push_values depth (field key value rest) stack = push_values depth rest ((value, depth) ∷ stack)

abbrev pub push_children : ℕ → Json → Stack → Stack
push_children depth null stack = stack
push_children depth (bool b) stack = stack
push_children depth (int n) stack = stack
push_children depth (neg_int n) stack = stack
push_children depth (float t) stack = stack
push_children depth (string t) stack = stack
push_children depth (array items) stack = push_items depth items stack
push_children depth (object fields) stack = push_values depth fields stack

module _ (limits : Limits) where
  abbrev pub too_deep : ℕ → ToolError
  too_deep depth =
      capacity_exceeded (limits.code_prefix <> ".json_depth_exceeded") limits.maximum_depth depth

  abbrev pub too_many : ℕ → ToolError
  too_many nodes =
      capacity_exceeded (limits.code_prefix <> ".json_nodes_exceeded") limits.maximum_nodes nodes

  abbrev pub too_long : ℕ → ToolError
  too_long size =
      capacity_exceeded (limits.code_prefix <> ".json_utf8_bytes_exceeded") limits.maximum_bytes
        size

  -- The loop, with the nodes that it has counted; `none` where the fuel runs out.
  unfoldable pub traverse : ℕ → Stack → ℕ → Option (Result (Unit {0}))
  unfolding push_items push_values
  traverse zero stack nodes = none
  traverse (suc fuel) [] nodes = some (ok tt)
  traverse (suc fuel) ((current, depth) ∷ stack) nodes =
      let rest = traverse fuel (push_children (suc depth) current stack) (suc nodes) in
      if ltb limits.maximum_depth depth
      then some (err (too_deep depth))
      else if ltb limits.maximum_nodes (suc nodes)
      then some (err (too_many (suc nodes)))
      else rest

  abbrev pub serialize :
      (Json → String) → Json → Option (Result (Unit {0})) → Option (Result String)
  serialize encode value none = none
  serialize encode value (some (err e)) = some (err e)
  serialize encode value (some (ok _)) =
      let encoded = encode value in
      if ltb limits.maximum_bytes (len encoded)
      then some (err (too_long (len encoded)))
      else some (ok encoded)

  unfoldable pub encode_bounded_json : (Json → String) → ℕ → Json → Option (Result String)
  unfolding traverse
  encode_bounded_json encode fuel value = serialize encode value (traverse fuel ((value, 1) ∷ []) 0)
