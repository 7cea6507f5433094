-- ===== src/Delegation/Use/Granting.antt =====
-- What an applied manifest grants can be resolved.
use bridge_db.Prelude.{
  String, ◌≡◌, refl, sym, ◌∙◌, ap, true, Option, none, some, List, [], ◌∷◌, All, arith, find,
  eq_iff, string_eq, nat_eq,
}
use bridge_db.Models.{caller_eq}
use bridge_db.Exec.{Result, ok}
use bridge_db.Delegation.Resources.{Codec, Image, resource_sha256}
use bridge_db.Delegation.Grants.{
  OwnerGrant, Consumption, Tables, Item, Manifest, Applied, is_expected, is_current, observed,
  apply_owner_delegation_manifest,
}
use bridge_db.Delegation.Atomic.{
  Extends, Covered, Outcome, rejected, granted, same_view, apply_owner_delegation_manifest-Outcome,
}
use bridge_db.Delegation.Use.{
  Claim, consumes, accepts, is_for, resolve_image, resolve_owner_delegation,
}

module _ (codec : Codec) (manifest : Manifest) where
  -- the question that the delegate's tool asks about a resource of the manifest
  abbrev pub claim_of : Item → Claim
  claim_of item = record {
    resource_type = item.resource_type;
    resource_id = item.resource_id;
    original_owner = item.original_owner;
    delegated_to = manifest.delegated_to;
  }

  -- The answer that the resource's grant is good, with its use where there was one.
  pub record Resolvable (u : Tables) (item : Item) : Type 0 where
    pub grant : OwnerGrant
    pub resolves :
        resolve_owner_delegation codec (claim_of item) u
        ≡ ok
            (some (record { grant = grant; consumption = find (consumes grant.id) u.consumptions }))

  accepted :
      (item : Item) (d : String) (g : OwnerGrant) (c : Option Consumption)
      → d ≡ g.resource_sha256
      → accepts codec (claim_of item) d g c ≡ true
  accepted item d g none e = (eq_iff d g.resource_sha256).1 e
  accepted item d g (some x) e = ground (arith, (eq_iff d g.resource_sha256).1 e)

  grant_matches :
      (item : Item) (image : Image) (g : OwnerGrant)
      → is_current codec manifest item image ≡ true
      → is_expected codec manifest item g ≡ true
      → (is_for codec (claim_of item) image g ≡ true)
        × (resource_sha256 codec image ≡ g.resource_sha256)
  unfolding is_current is_expected is_for
  grant_matches item image g current expected = (
    ground arith,
    (eq_iff (resource_sha256 codec image) item.resource_sha256).0 (ground arith)
        ∙ sym ((eq_iff g.resource_sha256 item.resource_sha256).0 (ground arith)),
  )

  item-Resolvable :
      (t u : Tables) (item : Item)
      → Extends t u
      → Covered codec manifest t u item
      → Resolvable u item
  unfolding resolve_owner_delegation
  item-Resolvable t u item e c =
      let (good, digest) = grant_matches item c.image c.grant c.current c.expected in
      let seen : observed codec manifest item u ≡ ok c.image =
        sym (same_view codec manifest t u item e) ∙ c.is_observed in
      let accepts_it =
        accepted item (resource_sha256 codec c.image) c.grant
          (find (consumes c.grant.id) u.consumptions) digest in
      record {
        grant = c.grant;
        resolves =
            ap (resolve_image codec (claim_of item) u) seen
            ∙ rw (c.is_granted, good, accepts_it) refl;
      }

  each-Resolvable :
      (t u : Tables) (items : List Item)
      → Extends t u
      → All (Covered codec manifest t u) items
      → All (Resolvable u) items
  each-Resolvable t u [] e all = tt
  each-Resolvable t u (item ∷ items) e (c, cs) =
      (item-Resolvable t u item e c, each-Resolvable t u items e cs)

  outcome-Resolvable :
      (t u : Tables) (r : Result Applied) (a : Applied)
      → r ≡ ok a
      → Outcome codec manifest t r u
      → All (Resolvable u) manifest.resources
  outcome-Resolvable t u r a e (rejected x) = absurd (cc e)
  outcome-Resolvable t u r a e (granted extends all) =
      each-Resolvable t u manifest.resources extends all

  -- After a manifest was applied, each of its resources resolves for the delegate: the question
  -- for the resource, its owner and the delegate is answered with a grant and not with an error.
  pub apply-resolve :
      (t : Tables) (a : Applied)
      → (apply_owner_delegation_manifest codec manifest t).0 ≡ ok a
      → All (Resolvable (apply_owner_delegation_manifest codec manifest t).1) manifest.resources
  apply-resolve t a h =
      outcome-Resolvable t _ _ a h (apply_owner_delegation_manifest-Outcome codec manifest t)
