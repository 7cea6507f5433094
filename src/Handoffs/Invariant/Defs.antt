-- ===== src/Handoffs/Invariant/Defs.antt =====
-- The invariant of the handoff tables.
use bridge_db.Prelude.{
  ℕ, ◌≤◌, ◌≡◌, refl, Bool, true, false, ◌&&◌, ◌||◌, Option, none, some, [], arith, count_where,
  keyed, is_none, is_some, ◌==◌, option_eq,
}
use bridge_db.Models.{caller_eq}
use bridge_db.Handoffs.Tables.{
  Status, pending, active, cleared, Handoff, Capability, Tables, handoff, capability_of,
}

abbrev pub row_id : Handoff → ℕ
row_id h = h.id

abbrev pub owner_id : Capability → ℕ
owner_id c = c.handoff_id

-- A handoff and the capability that stands under its id: pending work is unclaimed and has none,
-- an active claim has a live one of its claimant, and what is cleared has none, if it was never
-- claimed, or one that was either consumed or retired by recovery.
abbrev pub by_status : Status → Handoff → Option Capability → Bool
by_status pending h none = is_none h.claimed_by
by_status pending h (some c) = false
by_status active h none = false
by_status active h (some c) =
    h.claimed_by == some c.claimed_caller && is_none c.consumed_at && is_none c.recovered_at
by_status cleared h none = is_none h.claimed_by
by_status cleared h (some c) =
    (is_some c.consumed_at && is_none c.recovered_at)
    || (is_none c.consumed_at && is_some c.recovered_at)

abbrev pub coherent : Option Handoff → Option Capability → Bool
coherent none none = true
coherent none (some c) = false
coherent (some h) c = by_status h.status h c

pub record Inv (t : Tables) : Type 0 where
  pub unique : (i : ℕ) → count_where (keyed row_id i) t.handoffs ≤ 1
  pub fresh : (i : ℕ) → t.next_id ≤ i → count_where (keyed row_id i) t.handoffs ≡ 0
  pub one_capability : (i : ℕ) → count_where (keyed owner_id i) t.capabilities ≤ 1
  pub coherence : (i : ℕ) → coherent (handoff i t.handoffs) (capability_of i t.capabilities) ≡ true

pub pending_uncovered :
    (x : Handoff) (c : Option Capability)
    → x.status ≡ pending
    → coherent (some x) c ≡ true
    → c ≡ none
pending_uncovered x none p h = refl
pending_uncovered x (some c) p h = ground arith

-- The tables of a new database.
abbrev pub empty : Tables
empty = record {
  handoffs = [];
  next_id = 1;
  capabilities = [];
  clearings = [];
  cancellations = [];
  recoveries = [];
  quarantine = [];
  conflicts = record { rows = []; next_id = 1 };
  index = [];
}

pub empty-Inv : Inv empty
empty-Inv = record {
  unique = λ i. omega arith;
  fresh = λ i h. refl;
  one_capability = λ i. omega arith;
  coherence = λ i. refl;
}
