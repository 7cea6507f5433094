-- ===== src/Conflicts/Receipts.antt =====
-- Every refused write that reaches the ledger is counted once, under a receipt that stays.
use bridge_db.Prelude.{
  ℕ, ◌+◌, String, ◌≡◌, refl, ◌⊎◌, inl, inr, Bool, true, false, ◌||◌, Option, none, some, List, [],
  ◌∷◌, ◌++◌, arith, length, total_of, exists, ◌==◌, nat_eq, string_eq, option_eq, Option-cases,
  Bool-cases,
}
use bridge_db.Json.{Fields}
use bridge_db.Platform.{Platform}
use bridge_db.Conflicts.{
  Attempt, Aggregation, Conflict, Ledger, exact_identity, capacity_overflow, bump,
  upsert_write_conflict, record_write_conflict, within_quota, new_row, attempt_hash,
  overflow_attempt, overflow_hash, overflow_detail, bounded_conflict_detail, or_overflow,
}

-- All occurrences that the ledger has counted.
abbrev pub occurrences : List Conflict → ℕ
occurrences = total_of (λ r. r.occurrence_count)

abbrev pub has_receipt : ℕ → List Conflict → Bool
has_receipt id = exists (λ (r : Conflict). r.id == id)

bump-occurrences :
    (hash detail now : String) (rows : List Conflict) (i : ℕ) (rows' : List Conflict)
    → bump hash detail now rows ≡ some (i, rows')
    → occurrences rows' ≡ occurrences rows + 1
unfolding bump
bump-occurrences hash detail now [] i rows' h = cc
bump-occurrences hash detail now (r ∷ rs) i rows' h =
    elim (Option-cases (bump hash detail now rs)) [
      | inl e ↦ ground arith
      | inr ((j, rs'), e) ↦ ground (arith, bump-occurrences hash detail now rs j rs' e)
    ]

occurrences-append :
    (xs ys : List Conflict) → occurrences (xs ++ ys) ≡ occurrences xs + occurrences ys
occurrences-append [] ys = omega arith
occurrences-append (x ∷ xs) ys = omega (arith, occurrences-append xs ys)

bump-receipts :
    (hash detail now : String) (rows : List Conflict) (i : ℕ) (rows' : List Conflict)
    → bump hash detail now rows ≡ some (i, rows')
    → (has_receipt i rows' ≡ true)
      × ((id : ℕ) → has_receipt id rows' ≡ has_receipt id rows)
      × (length rows' ≡ length rows)
unfolding bump
bump-receipts hash detail now [] i rows' h = cc
bump-receipts hash detail now (r ∷ rs) i rows' h = elim (Option-cases (bump hash detail now rs)) [
  | inl e ↦ (ground arith, λ id. ground arith, ground arith)
  | inr ((j, rs'), e) ↦
      let (a, b, c) = bump-receipts hash detail now rs j rs' e in
      (ground (arith, a), λ id. ground (arith, b id), ground (arith, c))
]

exists-append {ℓ} :
    {A : Type ℓ} (test : A → Bool) (xs ys : List A)
    → exists test (xs ++ ys) ≡ (exists test xs || exists test ys)
exists-append test [] ys = refl
exists-append test (x ∷ xs) ys = ground (arith, exists-append test xs ys)

-- One more refused write on the ledger: its receipt is stored, every earlier receipt is still
-- stored, and the occurrences have grown by one.
pub record Recorded (before : Ledger) (receipt : Option ℕ) (after : Ledger) : Type 0 where
  pub id : ℕ
  pub is_receipt : receipt ≡ some id
  pub stored : has_receipt id after.rows ≡ true
  pub kept : (j : ℕ) → has_receipt j before.rows ≡ true → has_receipt j after.rows ≡ true
  pub counted : occurrences after.rows ≡ occurrences before.rows + 1

module _ (attempt : Attempt) (detail hash : String) (state : Aggregation) (now : String)
    (l : Ledger) where
  upsert-Recorded :
      (enforce : Bool)
      → (enforce ≡ false) ⊎ (within_quota hash l ≡ true)
      → let (receipt, l') = upsert_write_conflict attempt detail hash state enforce now l in
        Recorded l receipt l'
  unfolding upsert_write_conflict
  upsert-Recorded enforce open_ = elim (Option-cases (bump hash detail now l.rows)) [
    | inl e ↦
        let row = new_row l.next_id attempt detail hash now state in
        record {
          id = l.next_id;
          is_receipt = ground arith;
          stored =
              ground (arith, exists-append (λ (r : Conflict). r.id == l.next_id) l.rows (row ∷ []));
          kept =
              λ j h. ground (arith, exists-append (λ (r : Conflict). r.id == j) l.rows (row ∷ []));
          counted = ground (arith, occurrences-append l.rows (row ∷ []));
        }
    | inr ((i, rows), e) ↦
        let (a, b, c) = bump-receipts hash detail now l.rows i rows e in
        record {
          id = i;
          is_receipt = ground arith;
          stored = ground (arith, a);
          kept = λ j h. ground (arith, b j);
          counted = ground (arith, bump-occurrences hash detail now l.rows i rows e);
        }
  ]

settle-Recorded :
    (l : Ledger) (receipt : Option ℕ) (l' : Ledger) (k : Option ℕ × Ledger)
    → Recorded l receipt l'
    → Recorded l (or_overflow receipt l' k).0 (or_overflow receipt l' k).1
settle-Recorded l (some id) l' k r = r
settle-Recorded l none l' k r = absurd (cc (r.is_receipt))

upsert_refused :
    (attempt : Attempt) (detail hash : String) (state : Aggregation) (now : String) (l : Ledger)
    → within_quota hash l ≡ false
    → upsert_write_conflict attempt detail hash state true now l ≡ (none, l)
unfolding upsert_write_conflict
upsert_refused attempt detail hash state now l q = rw q

-- Whatever the quota says, a refused write that is recorded gets a receipt: `record_write_conflict`
-- always returns an id, a row with that id is on the ledger, every receipt that was there still is,
-- and the occurrences that the ledger counts grow by exactly one.
pub record_write_conflict-Recorded :
    (pf : Platform) (attempt : Attempt) (detail : Fields) (now : String) (l : Ledger)
    → let (receipt, l') = record_write_conflict pf attempt detail now l in Recorded l receipt l'
unfolding record_write_conflict
record_write_conflict-Recorded pf attempt detail now l =
    let hash = attempt_hash pf attempt in
    let first = bounded_conflict_detail pf detail in
    elim (Bool-cases (within_quota hash l)) [
      | inl q ↦
          settle-Recorded l _ _ _
            (upsert-Recorded attempt first hash exact_identity now l true (inr q))
      | inr q ↦ rw (upsert_refused attempt first hash exact_identity now l q) (
          upsert-Recorded (overflow_attempt attempt.surface)
            (bounded_conflict_detail pf (overflow_detail pf hash))
            (overflow_hash pf attempt.surface) capacity_overflow now l false (inl refl))
    ]
