-- ===== src/Delegation/Use/Once.antt =====
-- A grant is good for the resource that it was issued for, and for one use.
use bridge_db.Prelude.{
  ℕ, ◌≤◌, ◌≡◌, ◌≢◌, refl, sym, ◌∙◌, inl, inr, true, false, Option, none, some, List, [], ◌∷◌, arith,
  find, exists, strip_text, is_space, count_where, count_where-append, find-exists, Bool-cases,
  eq_iff, ◌==◌, nat_eq, string_eq,
}
use mathlib.Core.Option.{some-injective}
use mathlib.Core.Path.{subst}
use bridge_db.Models.{caller_eq, caller_beq_iff}
use bridge_db.Exec.{Result, ok, err, ok-injective}
use bridge_db.Delegation.Resources.{
  Codec, Image, original_owner, resource_sha256, owner_resource_snapshot,
}
use bridge_db.Delegation.Grants.{OwnerGrant, Consumption, Tables, grants_resource}
use bridge_db.Delegation.Use.{
  Claim, Resolved, consumes, accepts, is_for, resolve_grant, resolve_row, resolve_image,
  resolve_owner_delegation, Use, is_valid, is_sha256, violates, use_receipt, consumed_tables,
  consume_owner_delegation,
}

module _ (codec : Codec) (claim : Claim) where
  -- What an answer with a grant says.
  pub record Granted (t : Tables) (r : Resolved) : Type 0 where
    pub image : Image
    pub is_observed :
        owner_resource_snapshot codec t.activities t.refusals claim.resource_type claim.resource_id
        ≡ ok image
    pub stored :
        find (grants_resource claim.resource_type claim.resource_id) t.grants ≡ some r.grant
    pub its_use : find (consumes r.grant.id) t.consumptions ≡ r.consumption
    pub granted_by : r.grant.original_owner ≡ claim.original_owner
    pub owner : original_owner image ≡ claim.original_owner
    pub delegate : r.grant.delegated_to ≡ claim.delegated_to
    pub unchanged : r.consumption ≡ none → resource_sha256 codec image ≡ r.grant.resource_sha256

  grant-Granted :
      (t : Tables) (image : Image) (g : OwnerGrant) (c : Option Consumption) (r : Resolved)
      → owner_resource_snapshot codec t.activities t.refusals claim.resource_type claim.resource_id
        ≡ ok image
      → find (grants_resource claim.resource_type claim.resource_id) t.grants ≡ some g
      → find (consumes g.id) t.consumptions ≡ c
      → resolve_grant codec claim image g c ≡ ok (some r)
      → Granted t r
  unfolding is_for
  grant-Granted t image g c r seen stored use_ h = elim (Bool-cases (is_for codec claim image g)) [
    | inr e ↦ absurd (cc (rw e at h))
    | inl e ↦ elim (Bool-cases (accepts codec claim (resource_sha256 codec image) g c)) [
      | inr f ↦ absurd (cc (rw (e, f) at h))
      | inl f ↦
          let same : record { grant = g; consumption = c } ≡ r =
            some-injective _ _ (ok-injective _ _ (rw (e, f) at h)) in
          subst (λ (x : Resolved). Granted t x) same
            (record {
              image = image;
              is_observed = seen;
              stored = stored;
              its_use = use_;
              granted_by = (caller_beq_iff g.original_owner claim.original_owner).0 (ground arith);
              owner = (caller_beq_iff (original_owner image) claim.original_owner).0 (ground arith);
              delegate = (caller_beq_iff g.delegated_to claim.delegated_to).0 (ground arith);
              unchanged = λ fresh.
                  (eq_iff (resource_sha256 codec image) g.resource_sha256).0
                    (ground (arith, fresh));
            })
    ]
  ]

  row-Granted :
      (t : Tables) (image : Image) (o : Option OwnerGrant) (r : Resolved)
      → owner_resource_snapshot codec t.activities t.refusals claim.resource_type claim.resource_id
        ≡ ok image
      → find (grants_resource claim.resource_type claim.resource_id) t.grants ≡ o
      → resolve_row codec claim image o t.consumptions ≡ ok (some r)
      → Granted t r
  row-Granted t image none r seen stored h = absurd (cc (ok-injective _ _ h))
  row-Granted t image (some g) r seen stored h = grant-Granted t image g _ r seen stored refl h

  image-Granted :
      (t : Tables) (o : Result Image) (r : Resolved)
      → owner_resource_snapshot codec t.activities t.refusals claim.resource_type claim.resource_id
        ≡ o
      → resolve_image codec claim t o ≡ ok (some r)
      → Granted t r
  image-Granted t (err e) r seen h = absurd (cc h)
  image-Granted t (ok image) r seen h = row-Granted t image _ r seen refl h

  -- A grant that `resolve_owner_delegation` answers with is the one that is stored for the
  -- resource, it was stored for the owner and for the delegate that were named, the resource still
  -- belongs to that owner, and as long as the grant is not consumed the resource has the very
  -- digest that it was issued for.
  pub resolve_owner_delegation-Granted :
      (t : Tables) (r : Resolved)
      → resolve_owner_delegation codec claim t ≡ ok (some r)
      → Granted t r
  unfolding resolve_owner_delegation
  resolve_owner_delegation-Granted t r h =
      image-Granted t
        (owner_resource_snapshot codec t.activities t.refusals claim.resource_type
          claim.resource_id)
        r refl h

-- the consumptions of a grant
abbrev pub uses : ℕ → Tables → ℕ
uses id t = count_where (consumes id) t.consumptions

-- What a consumption leaves behind.
pub record Consumed (u : Use) (t t' : Tables) : Type 0 where
  pub unused_before : uses u.delegation_id t ≡ 0
  pub used_once : uses u.delegation_id t' ≡ 1
  pub others : (id : ℕ) → (id == u.delegation_id) ≡ false → uses id t' ≡ uses id t
  pub refused_after :
      (v : Use) (later : Tables)
      → v.delegation_id ≡ u.delegation_id
      → 1 ≤ uses u.delegation_id later
      → (consume_owner_delegation v later).0 ≢ ok tt

some_use :
    (id : ℕ) (cs : List Consumption)
    → 1 ≤ count_where (consumes id) cs
    → exists (consumes id) cs ≡ true
some_use id [] h = absurd (omega arith)
some_use id (c ∷ cs) h = ground (arith, some_use id cs)

refused_again :
    (v : Use) (id : ℕ) (t : Tables)
    → v.delegation_id ≡ id
    → 1 ≤ uses id t
    → (consume_owner_delegation v t).0 ≢ ok tt
unfolding consume_owner_delegation is_sha256 strip_text is_space
refused_again v id t same used wins =
    let taken =
      subst (λ (i : ℕ). exists (consumes i) t.consumptions ≡ true) (sym same)
        (some_use id t.consumptions used) in
    elim (Bool-cases (is_valid v)) [
      | inr e ↦ absurd (cc (rw e at wins))
      | inl e ↦ absurd (cc (rw (e, taken) at wins))
    ]

stored_use :
    (u : Use) (t : Tables)
    → exists (consumes u.delegation_id) t.consumptions ≡ false
    → Consumed u t (consumed_tables u t)
stored_use u t none_yet =
    let zero = find-exists (consumes u.delegation_id) t.consumptions none_yet in
    record {
      unused_before = zero;
      used_once =
          count_where-append (consumes u.delegation_id) t.consumptions (use_receipt u ∷ [])
          ∙ ground (arith, zero);
      others = λ id apart.
          count_where-append (consumes id) t.consumptions (use_receipt u ∷ [])
          ∙ ground (arith, apart);
      refused_after = λ v later same used. refused_again v u.delegation_id later same used;
    }

-- A consumption that succeeds is the first and only one of its grant, leaves the uses of every
-- other grant as they were, and no other consumption of that grant succeeds on any later tables
-- that still have it.
pub consume_owner_delegation-Consumed :
    (u : Use) (t : Tables)
    → (consume_owner_delegation u t).0 ≡ ok tt
    → Consumed u t (consume_owner_delegation u t).1
unfolding consume_owner_delegation is_sha256 strip_text is_space
consume_owner_delegation-Consumed u t h = elim (Bool-cases (is_valid u)) [
  | inr e ↦ absurd (cc (rw e at h))
  | inl e ↦ elim (Bool-cases (violates u t)) [
    | inl f ↦ absurd (cc (rw (e, f) at h))
    | inr f ↦ rw (e, f) (stored_use u t (ground arith))
  ]
]
