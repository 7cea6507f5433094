-- ===== src/Prelude/Rows.antt =====
-- Rows of a table that has a numeric key: what an UPDATE, an INSERT and a count say of the row
-- that a key finds.
use Prim.Native.Nat.{ℕ, ◌+◌, ◌≤◌}
use mathlib.Core.Path.{◌≡◌, refl}
use mathlib.Core.Logic.{inl, inr}
use mathlib.Core.Bool.{Bool, true, false}
use mathlib.Core.Option.{Option, none, some}
use mathlib.Core.List.{List, [], ◌∷◌, ◌++◌}
use native.Mathlib.Omega.{arith}
use bridge_db.Prelude.Tests.{if◌then◌else◌, nat_beq, Bool-cases}
use bridge_db.Prelude.Lists.{find, exists, count_where, update_where}

abbrev pub option_map {ℓ κ} : {A : Type ℓ} {B : Type κ} → (A → B) → Option A → Option B
option_map f none = none
option_map f (some a) = some (f a)

module _ {A : Type 0} (key : A → ℕ) where
  abbrev pub keyed : ℕ → A → Bool
  keyed i x = nat_beq (key x) i

  -- A change that keeps the keys is a change of the row that a key finds.
  pub find-update_where :
      (test : A → Bool) (change : A → A) (i : ℕ) (xs : List A)
      → ((x : A) → key (change x) ≡ key x)
      → find (keyed i) (update_where test change xs)
        ≡ option_map (λ x. if test x then change x else x) (find (keyed i) xs)
  find-update_where test change i [] k = refl
  find-update_where test change i (x ∷ xs) k =
      ground (arith, k x, find-update_where test change i xs k)

  -- A change of rows with one key leaves the row that another key finds.
  pub find-update_where_other :
      (test : A → Bool) (change : A → A) (j i : ℕ) (xs : List A)
      → ((x : A) → key (change x) ≡ key x)
      → ((x : A) → test x ≡ true → key x ≡ j)
      → nat_beq j i ≡ false
      → find (keyed i) (update_where test change xs) ≡ find (keyed i) xs
  find-update_where_other test change j i [] k only apart = refl
  find-update_where_other test change j i (x ∷ xs) k only apart =
      ground (arith, k x, only x, find-update_where_other test change j i xs k only apart)

  pub count_where-update_where :
      (test : A → Bool) (change : A → A) (i : ℕ) (xs : List A)
      → ((x : A) → key (change x) ≡ key x)
      → count_where (keyed i) (update_where test change xs) ≡ count_where (keyed i) xs
  count_where-update_where test change i [] k = refl
  count_where-update_where test change i (x ∷ xs) k =
      ground (arith, k x, count_where-update_where test change i xs k)

  count_where_le :
      (test : A → Bool) (i : ℕ) (xs : List A)
      → ((x : A) → test x ≡ true → key x ≡ i)
      → count_where test xs ≤ count_where (keyed i) xs
  count_where_le test i [] k = omega arith
  count_where_le test i (x ∷ xs) k = ground (arith, k x, count_where_le test i xs k)

  -- Where a key is unique, a row with it that passes a test is the row that the key finds.
  pub find_of_count_where :
      (test : A → Bool) (i : ℕ) (xs : List A)
      → ((x : A) → test x ≡ true → key x ≡ i)
      → count_where (keyed i) xs ≤ 1
      → 1 ≤ count_where test xs
      → (x : A) × (find (keyed i) xs ≡ some x) × (test x ≡ true)
  find_of_count_where test i [] k u h = absurd (omega arith)
  find_of_count_where test i (x ∷ xs) k u h = elim (Bool-cases (keyed i x)) [
    | inl e ↦ (x, ground arith, ground (arith, count_where_le test i xs k))
    | inr e ↦
        let (y, found, passes) =
          find_of_count_where test i xs k (ground arith) (ground (arith, k x)) in
        (y, ground (arith, found), passes)
  ]

  pub find-key : (i : ℕ) (xs : List A) (x : A) → find (keyed i) xs ≡ some x → key x ≡ i
  find-key i [] x h = cc
  find-key i (y ∷ ys) x h = ground (arith, find-key i ys x)

module _ {A : Type 0} where
  pub find-append :
      (test : A → Bool) (xs ys : List A)
      → find test (xs ++ ys) ≡ (elim (find test xs) [ none ↦ find test ys | some x ↦ some x ])
  find-append test [] ys = refl
  find-append test (x ∷ xs) ys = ground (arith, find-append test xs ys)

  pub count_where-append :
      (test : A → Bool) (xs ys : List A)
      → count_where test (xs ++ ys) ≡ count_where test xs + count_where test ys
  count_where-append test [] ys = omega arith
  count_where-append test (x ∷ xs) ys = ground (arith, count_where-append test xs ys)

  pub find-none_iff :
      (test : A → Bool) (xs : List A) → count_where test xs ≡ 0 → find test xs ≡ none
  find-none_iff test [] h = refl
  find-none_iff test (x ∷ xs) h = ground (arith, find-none_iff test xs)

  pub find-exists :
      (test : A → Bool) (xs : List A) → exists test xs ≡ false → count_where test xs ≡ 0
  find-exists test [] h = refl
  find-exists test (x ∷ xs) h = ground (arith, find-exists test xs)
