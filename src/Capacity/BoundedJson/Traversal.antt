-- ===== src/Capacity/BoundedJson/Traversal.antt =====
-- The traversal ends, and it finds exactly the values within the bounds of depth and nodes.
use Prim.Native.String.{len}
use bridge_db.Prelude.{
  ℕ, suc, zero, ◌+◌, ◌<◌, ◌≤◌, String, ◌≡◌, refl, ◌∙◌, inl, inr, Bool, true, false, ◌&&◌, Option,
  none, some, [], ◌∷◌, arith, leb, ltb, Bool-cases,
}
use bridge_db.Json.{
  Json, Items, Fields, null, bool, int, neg_int, float, string, array, object, nil, cons, end,
  field,
}
use bridge_db.Exec.{Result, ok, err}
use bridge_db.Errors.{ToolError}
use bridge_db.Capacity.BoundedJson.{
  Limits, Stack, push_items, push_values, push_children, too_deep, too_many, too_long, traverse,
  serialize, encode_bounded_json,
}

unfoldable mutual
  -- The values that a value consists of, keys not counted.
  pub node_count : Json → ℕ
  node_count null = 1
  node_count (bool b) = 1
  node_count (int n) = 1
  node_count (neg_int n) = 1
  node_count (float t) = 1
  node_count (string t) = 1
  node_count (array items) = suc (item_count items)
  node_count (object fields) = suc (value_count fields)

  pub item_count : Items → ℕ
  item_count nil = 0
  item_count (cons item rest) = node_count item + item_count rest

  pub value_count : Fields → ℕ
  value_count end = 0
  value_count (field key value rest) = node_count value + value_count rest

mutual
  -- No part of the value, which stands at `depth`, is deeper than `maximum`.
  pub shallow : ℕ → ℕ → Json → Bool
  shallow maximum depth null = leb depth maximum
  shallow maximum depth (bool b) = leb depth maximum
  shallow maximum depth (int n) = leb depth maximum
  shallow maximum depth (neg_int n) = leb depth maximum
  shallow maximum depth (float t) = leb depth maximum
  shallow maximum depth (string t) = leb depth maximum
  shallow maximum depth (array items) = leb depth maximum && shallow_items maximum (suc depth) items
  shallow maximum depth (object fields) =
      leb depth maximum && shallow_values maximum (suc depth) fields

  pub shallow_items : ℕ → ℕ → Items → Bool
  shallow_items maximum depth nil = true
  shallow_items maximum depth (cons item rest) =
      shallow maximum depth item && shallow_items maximum depth rest

  pub shallow_values : ℕ → ℕ → Fields → Bool
  shallow_values maximum depth end = true
  shallow_values maximum depth (field key value rest) =
      shallow maximum depth value && shallow_values maximum depth rest

abbrev weight : Stack → ℕ
weight [] = 0
weight ((value, depth) ∷ stack) = node_count value + weight stack

abbrev all_shallow : ℕ → Stack → Bool
all_shallow maximum [] = true
all_shallow maximum ((value, depth) ∷ stack) =
    shallow maximum depth value && all_shallow maximum stack

weight-push_items :
    (depth : ℕ) (items : Items) (stack : Stack)
    → weight (push_items depth items stack) ≡ item_count items + weight stack
unfolding push_items item_count
weight-push_items depth nil stack = ground arith
weight-push_items depth (cons item rest) stack =
    ground (arith, weight-push_items depth rest ((item, depth) ∷ stack))

weight-push_values :
    (depth : ℕ) (fields : Fields) (stack : Stack)
    → weight (push_values depth fields stack) ≡ value_count fields + weight stack
unfolding push_values value_count
weight-push_values depth end stack = ground arith
weight-push_values depth (field key value rest) stack =
    ground (arith, weight-push_values depth rest ((value, depth) ∷ stack))

shallow-push_items :
    (maximum depth : ℕ) (items : Items) (stack : Stack)
    → all_shallow maximum (push_items depth items stack)
      ≡ (shallow_items maximum depth items && all_shallow maximum stack)
unfolding push_items shallow_items
shallow-push_items maximum depth nil stack = refl
shallow-push_items maximum depth (cons item rest) stack =
    ground (arith, shallow-push_items maximum depth rest ((item, depth) ∷ stack))

shallow-push_values :
    (maximum depth : ℕ) (fields : Fields) (stack : Stack)
    → all_shallow maximum (push_values depth fields stack)
      ≡ (shallow_values maximum depth fields && all_shallow maximum stack)
unfolding push_values shallow_values
shallow-push_values maximum depth end stack = refl
shallow-push_values maximum depth (field key value rest) stack =
    ground (arith, shallow-push_values maximum depth rest ((value, depth) ∷ stack))

-- one node taken from the stack
children :
    (maximum depth : ℕ) (value : Json) (stack : Stack)
    → (weight (push_children (suc depth) value stack) + 1 ≡ node_count value + weight stack)
      × ((leb depth maximum && all_shallow maximum (push_children (suc depth) value stack))
          ≡ (shallow maximum depth value && all_shallow maximum stack))
unfolding node_count shallow
children maximum depth null stack = (ground arith, refl)
children maximum depth (bool b) stack = (ground arith, refl)
children maximum depth (int n) stack = (ground arith, refl)
children maximum depth (neg_int n) stack = (ground arith, refl)
children maximum depth (float t) stack = (ground arith, refl)
children maximum depth (string t) stack = (ground arith, refl)
children maximum depth (array items) stack = (
  ground (arith, weight-push_items (suc depth) items stack),
  ground (arith, shallow-push_items maximum (suc depth) items stack),
)
children maximum depth (object fields) stack = (
  ground (arith, weight-push_values (suc depth) fields stack),
  ground (arith, shallow-push_values maximum (suc depth) fields stack),
)

abbrev is_ok : {A : Type 0} → Result A → Bool
is_ok (ok a) = true
is_ok (err e) = false

module _ (limits : Limits) where
  -- the bounds of what is left to visit
  abbrev within : Stack → ℕ → Bool
  within stack nodes =
      all_shallow limits.maximum_depth stack && leb (nodes + weight stack) limits.maximum_nodes

  -- The answer of the loop.
  record Decided (stack : Stack) (nodes : ℕ) (o : Option (Result (Unit {0}))) : Type 0 where
    result : Result (Unit {0})
    ends : o ≡ some result
    decides : is_ok result ≡ within stack nodes

  node_count-pos : (value : Json) → 1 ≤ node_count value
  unfolding node_count
  node_count-pos null = omega arith
  node_count-pos (bool b) = omega arith
  node_count-pos (int n) = omega arith
  node_count-pos (neg_int n) = omega arith
  node_count-pos (float t) = omega arith
  node_count-pos (string t) = omega arith
  node_count-pos (array items) = omega arith
  node_count-pos (object fields) = omega arith

  traverse-Decided :
      (fuel : ℕ) (stack : Stack) (nodes : ℕ)
      → weight stack < fuel
      → nodes ≤ limits.maximum_nodes
      → Decided stack nodes (traverse limits fuel stack nodes)
  unfolding traverse
  traverse-Decided zero stack nodes enough few = absurd (omega arith)
  traverse-Decided (suc fuel) [] nodes enough few = record {
    result = ok tt;
    ends = refl;
    decides = ground arith;
  }
  traverse-Decided (suc fuel) ((value, depth) ∷ stack) nodes enough few =
      let (weighs, shallows) = children limits.maximum_depth depth value stack in
      elim (Bool-cases (ltb limits.maximum_depth depth)) [
        | inl deep ↦ record {
          result = err (too_deep limits depth);
          ends = rw deep refl;
          decides = ground (arith, shallows);
        }
        | inr fits ↦ elim (Bool-cases (ltb limits.maximum_nodes (suc nodes))) [
          | inl many ↦ record {
            result = err (too_many limits (suc nodes));
            ends = rw (fits, many) refl;
            decides = ground (arith, node_count-pos value);
          }
          | inr room ↦
              let d =
                traverse-Decided fuel (push_children (suc depth) value stack) (suc nodes)
                  (ground (arith, weighs)) (ground arith) in
              record {
                result = d.result;
                ends = rw (fits, room) d.ends;
                decides = d.decides ∙ ground (arith, weighs, shallows);
              }
        ]
      ]

  -- What `encode_bounded_json` accepts.
  abbrev pub fits : (Json → String) → Json → Bool
  fits encode value =
      shallow limits.maximum_depth 1 value
      && leb (node_count value) limits.maximum_nodes
      && leb (len (encode value)) limits.maximum_bytes

  pub record Encoded (encode : Json → String) (value : Json) (o : Option (Result String))
      : Type 0 where
    pub answer : Result String
    pub ends : o ≡ some answer
    pub accepted : fits encode value ≡ true → answer ≡ ok (encode value)
    pub refused : fits encode value ≡ false → (e : ToolError) × (answer ≡ err e)

  serialize-Encoded :
      (encode : Json → String) (value : Json) (o : Option (Result (Unit {0})))
      → Decided ((value, 1) ∷ []) 0 o
      → Encoded encode value (serialize limits encode value o)
  serialize-Encoded encode value none d = absurd (cc (d.ends))
  serialize-Encoded encode value (some (err e)) d = record {
    answer = err e;
    ends = refl;
    accepted = λ h. absurd (ground (arith, d.ends, d.decides));
    refused = λ h. (e, refl);
  }
  serialize-Encoded encode value (some (ok _)) d =
      elim (Bool-cases (ltb limits.maximum_bytes (len (encode value)))) [
        | inl long ↦ record {
          answer = err (too_long limits (len (encode value)));
          ends = rw long refl;
          accepted = λ h. absurd (ground arith);
          refused = λ h. (too_long limits (len (encode value)), refl);
        }
        | inr short ↦ record {
          answer = ok (encode value);
          ends = rw short refl;
          accepted = λ h. refl;
          refused = λ h. absurd (ground (arith, d.ends, d.decides));
        }
      ]

  -- The traversal ends: with more fuel than the value has nodes there is an answer, for any value.
  -- It is the encoded text exactly where no part of the value is deeper than the limit, its nodes
  -- are no more than the limit, and the text is no longer in bytes; otherwise it is an error.
  pub encode_bounded_json-Encoded :
      (encode : Json → String) (fuel : ℕ) (value : Json)
      → node_count value < fuel
      → Encoded encode value (encode_bounded_json limits encode fuel value)
  unfolding encode_bounded_json
  encode_bounded_json-Encoded encode fuel value enough =
      serialize-Encoded encode value (traverse limits fuel ((value, 1) ∷ []) 0)
        (traverse-Decided fuel ((value, 1) ∷ []) 0 (omega arith) (omega arith))
