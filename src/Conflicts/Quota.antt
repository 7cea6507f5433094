-- ===== src/Conflicts/Quota.antt =====
-- The number of identities on the ledger keeps its quota.
use bridge_db.Prelude.{
  ℕ, ◌+◌, ◌≤◌, String, ◌≡◌, refl, inl, inr, Bool, true, false, Option, none, some, List, [], ◌∷◌,
  ◌++◌, arith, count_where, count_where-append, exists, ◌==◌, string_eq, option_eq, Option-cases,
}
use bridge_db.Json.{Fields}
use bridge_db.Platform.{Platform}
use bridge_db.Conflicts.{
  Attempt, Aggregation, Conflict, Ledger, exact_identity, capacity_overflow, bump,
  upsert_write_conflict, record_write_conflict, new_row, has_identity, attempt_hash,
  overflow_attempt, overflow_hash, overflow_detail, bounded_conflict_detail, or_overflow,
  max_identities,
}

abbrev pub is_exact : Conflict → Bool
is_exact r = elim r.aggregation_state [ exact_identity ↦ true | _ ↦ false ]

-- Exact rows have a hash, and there are at most `max_identities` of them.
pub record WithinQuota (rows : List Conflict) : Type 0 where
  pub hashed : count_where is_exact rows ≤ count_where has_identity rows
  pub bounded : count_where is_exact rows ≤ max_identities

bump-counts :
    (hash detail now : String) (rows : List Conflict) (i : ℕ) (rows' : List Conflict)
    → bump hash detail now rows ≡ some (i, rows')
    → (count_where is_exact rows' ≡ count_where is_exact rows)
      × (count_where has_identity rows' ≡ count_where has_identity rows)
unfolding bump
bump-counts hash detail now [] i rows' h = cc
bump-counts hash detail now (r ∷ rs) i rows' h = elim (Option-cases (bump hash detail now rs)) [
  | inl e ↦ (ground arith, ground arith)
  | inr ((j, rs'), e) ↦
      let (a, b) = bump-counts hash detail now rs j rs' e in (ground (arith, a), ground (arith, b))
]

bump-none :
    (hash detail now : String) (rows : List Conflict)
    → bump hash detail now rows ≡ none
    → exists (λ (r : Conflict). r.identity_hash == some hash) rows ≡ false
unfolding bump
bump-none hash detail now [] h = refl
bump-none hash detail now (r ∷ rs) h = ground (arith, bump-none hash detail now rs)

module _ (attempt : Attempt) (detail hash now : String) (l : Ledger) (w : WithinQuota l.rows) where
  counts_of_new :
      (state : Aggregation)
      → (count_where is_exact (l.rows ++ new_row l.next_id attempt detail hash now state ∷ [])
          ≤ count_where is_exact l.rows + 1)
        × (count_where has_identity (l.rows ++ new_row l.next_id attempt detail hash now state ∷ [])
            ≡ count_where has_identity l.rows + 1)
  counts_of_new state = (
    ground (
      arith,
      count_where-append is_exact l.rows (new_row l.next_id attempt detail hash now state ∷ []),
    ),
    ground (
      arith,
      count_where-append has_identity l.rows (new_row l.next_id attempt detail hash now state ∷ []),
    ),
  )

  exact-WithinQuota :
      WithinQuota (upsert_write_conflict attempt detail hash exact_identity true now l).1.rows
  unfolding upsert_write_conflict
  exact-WithinQuota = elim (Option-cases (bump hash detail now l.rows)) [
    | inl e ↦ ground (arith, w, bump-none hash detail now l.rows e, counts_of_new exact_identity)
    | inr ((i, rows), e) ↦ ground (arith, w, bump-counts hash detail now l.rows i rows e)
  ]

  overflow-WithinQuota :
      WithinQuota (upsert_write_conflict attempt detail hash capacity_overflow false now l).1.rows
  unfolding upsert_write_conflict
  overflow-WithinQuota = elim (Option-cases (bump hash detail now l.rows)) [
    | inl e ↦ ground (
      arith,
      w,
      count_where-append is_exact l.rows
          (new_row l.next_id attempt detail hash now capacity_overflow ∷ []),
      counts_of_new capacity_overflow,
    )
    | inr ((i, rows), e) ↦ ground (arith, w, bump-counts hash detail now l.rows i rows e)
  ]

or_overflow-WithinQuota :
    (receipt : Option ℕ) (l' : Ledger) (k : Option ℕ × Ledger)
    → WithinQuota l'.rows
    → WithinQuota k.1.rows
    → WithinQuota (or_overflow receipt l' k).1.rows
or_overflow-WithinQuota (some id) l' k h g = h
or_overflow-WithinQuota none l' k h g = g

-- Recording a conflict keeps the quota: there are never more than `max_identities` rows of exact
-- identities, and each of them has its hash, whatever is recorded and however often.
pub record_write_conflict-WithinQuota :
    (pf : Platform) (attempt : Attempt) (detail : Fields) (now : String) (l : Ledger)
    → WithinQuota l.rows
    → WithinQuota (record_write_conflict pf attempt detail now l).1.rows
unfolding record_write_conflict
record_write_conflict-WithinQuota pf attempt detail now l w =
    let hash = attempt_hash pf attempt in
    let first = bounded_conflict_detail pf detail in
    let exact = exact-WithinQuota attempt first hash now l w in
    or_overflow-WithinQuota _ _ _ exact (
      overflow-WithinQuota (overflow_attempt attempt.surface)
        (bounded_conflict_detail pf (overflow_detail pf hash)) (overflow_hash pf attempt.surface)
        now _ exact)
