-- ===== src/Handoffs/Listing.antt =====
-- `get_pending_handoffs` of src/bridge_db/tools/handoffs.py: one page of the open handoffs, the newest
-- first. The boundary text of a row is not modelled.
pub mod Paging
use bridge_db.Prelude.{
  ℕ, zero, suc, String, Bool, true, false, ◌&&◌, ◌||◌, Option, none, some, List, [], ◌∷◌, ltb, map,
  select, option_map, ◌==◌, if◌then◌else◌,
}
use bridge_db.Handoffs.Tables.{
  Status, pending, active, status_eq, Handoff, Capability, Tables, capability_of,
}

-- The filter of the tool.
pub data Filter : Type 0 where
  only_pending only_active all_open : Filter

-- h.status IN (…)
abbrev pub has_status : Filter → Handoff → Bool
has_status only_pending h = h.status == pending
has_status only_active h = h.status == active
has_status all_open h = h.status == pending || h.status == active

-- AND h.id < ?
abbrev pub below : Option ℕ → Handoff → Bool
below none h = true
below (some i) h = ltb h.id i

-- ORDER BY h.id DESC
unfoldable pub insert_newest : Handoff → List Handoff → List Handoff
insert_newest h [] = h ∷ []
insert_newest h (k ∷ ks) =
    let later = k ∷ insert_newest h ks in if ltb k.id h.id then h ∷ k ∷ ks else later

unfoldable pub newest_handoffs : List Handoff → List Handoff
unfolding insert_newest
newest_handoffs [] = []
newest_handoffs (h ∷ hs) = insert_newest h (newest_handoffs hs)

-- LIMIT ?
unfoldable pub take : ℕ → List Handoff → List Handoff
take zero hs = []
take (suc n) [] = []
take (suc n) (h ∷ hs) = h ∷ take n hs

-- A row of the answer: the handoff, and what the LEFT JOIN finds of its capability.
pub record Listed : Type 0 where
  pub handoff : Handoff
  pub claim_session_id : Option String
  pub capability_expires_at : Option String

abbrev pub listed : List Capability → Handoff → Listed
listed capabilities h =
    let c = capability_of h.id capabilities in
    record {
      handoff = h;
      claim_session_id = option_map (λ (x : Capability). x.session_id) c;
      capability_expires_at = option_map (λ (x : Capability). x.expires_at) c;
    }

-- The rows of the statement before its LIMIT.
unfoldable pub open_rows : Filter → Option ℕ → List Handoff → List Handoff
unfolding newest_handoffs
open_rows status before_id rows =
    newest_handoffs (select (λ h. has_status status h && below before_id h) rows)

unfoldable pub get_pending_handoffs : Filter → ℕ → Option ℕ → Tables → List Listed
unfolding take open_rows
get_pending_handoffs status limit before_id t =
    map (listed t.capabilities) (take limit (open_rows status before_id t.handoffs))
