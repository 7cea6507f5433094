-- ===== src/Handoffs/Listing/Paging.antt =====
-- The pages of the open handoffs.
use bridge_db.Prelude.{
  ℕ, ◌≡◌, Bool, true, ◌&&◌, none, some, List, [], ◌∷◌, ◌++◌, map, ltb, exists, every, nat_eq,
}
use bridge_db.Handoffs.Tables.{Handoff, Tables}
use bridge_db.Handoffs.Listing.{Filter, has_status, take, listed, open_rows, get_pending_handoffs}

-- Every row has a greater id than those after it.
pub data Descending : List Handoff → Type 0 where
  last : Descending []
  next :
      {h : Handoff} {hs : List Handoff}
      → every (λ (k : Handoff). ltb k.id h.id) hs ≡ true
      → Descending hs
      → Descending (h ∷ hs)

-- One page, and the next.
pub record Paged (status : Filter) (limit : ℕ) (t : Tables) : Type 0 where
  pub descending : Descending (open_rows status none t.handoffs)
  pub exact :
      (test : Handoff → Bool)
      → exists test (open_rows status none t.handoffs)
        ≡ exists (λ h. (has_status status h && true) && test h) t.handoffs
  pub following :
      (shown rest : List Handoff) (x : Handoff)
      → open_rows status none t.handoffs ≡ shown ++ x ∷ rest
      → get_pending_handoffs status limit (some x.id) t
        ≡ map (listed t.capabilities) (take limit rest)
