-- ===== src/Resolver.antt =====
-- src/bridge_db/project_resolver.py: `resolve` over a compiled registry index.
-- `str.lower` and `str.casefold` follow Unicode's tables, which are not in the repository: they
-- come as the parameter `Folding`, on code points. Candidates are sets of entries.
pub mod Ambiguity
use bridge_db.Prelude.{
  ℕ, suc, String, Bool, true, false, ◌&&◌, ◌||◌, Option, none, some, List, [], ◌∷◌, leb, codes,
  strip, select, length, exists, ◌==◌, nat_eq, list_eq, nat_beq, if◌then◌else◌,
}

pub record Folding : Type 0 where
  pub lower : List ℕ → List ℕ
  pub casefold : List ℕ → List ℕ

-- _ResolvedEntry
pub record Entry : Type 0 where
  pub canonical_key : Option String
  pub notion_page_id : Option String
  pub notion_title : Option String

pub record Resolution : Type 0 where
  pub canonical_key : Option String
  pub registry_present : Bool
  pub matched : Bool
  pub ambiguous : Bool
  pub notion_page_id : Option String
  pub notion_title : Option String

-- A dict from a form to its candidates, which are distinct.
abbrev pub Forms : Type 0
Forms = List (List ℕ × List Entry)

pub record Index : Type 0 where
  pub exact_to_entries : Forms
  pub norm_to_entries : Forms
  pub override_norm_to_entries : Forms

unfoldable pub lookup : List ℕ → Forms → Option (List Entry)
lookup form [] = none
lookup form ((f, entries) ∷ rest) =
    let later = lookup form rest in if f == form then some entries else later

-- value.rsplit("/", 1)[-1]: what stands behind the last slash
unfoldable pub after_last_slash : List ℕ → List ℕ
after_last_slash [] = []
after_last_slash (c ∷ cs) =
    if exists (λ d. nat_beq d b'/') cs
    then after_last_slash cs
    else if nat_beq c b'/'
    then cs
    else c ∷ cs

-- not in _NON_ALNUM
abbrev is_alnum : ℕ → Bool
is_alnum c = (leb b'a' c && leb c b'z') || (leb b'0' c && leb c b'9')

module _ (fold : Folding) where
  unfoldable pub normalize : String → List ℕ
  unfolding after_last_slash
  normalize value = select is_alnum (fold.lower (after_last_slash (codes value)))

  unfoldable pub exact : String → List ℕ
  exact value = fold.casefold (strip (codes value))

abbrev pub unmatched : Bool → Bool → Resolution
unmatched present ambiguous = record {
  canonical_key = none;
  registry_present = present;
  matched = false;
  ambiguous = ambiguous;
  notion_page_id = none;
  notion_title = none;
}

-- `if not candidates`, `if len(candidates) != 1`, and the one entry
abbrev pub decide : Option (List Entry) → Resolution
decide none = unmatched true false
decide (some []) = unmatched true false
decide (some (entry ∷ [])) = record {
  canonical_key = entry.canonical_key;
  registry_present = true;
  matched = true;
  ambiguous = false;
  notion_page_id = entry.notion_page_id;
  notion_title = entry.notion_title;
}
decide (some (_ ∷ _ ∷ _)) = unmatched true true

-- `if candidates is None`
abbrev pub or_else : Option (List Entry) → Option (List Entry) → Option (List Entry)
or_else none other = other
or_else (some entries) other = some entries

abbrev pub is_empty : List ℕ → Bool
is_empty [] = true
is_empty (_ ∷ _) = false

-- The registry is absent or unreadable where there is no index.
unfoldable pub resolve : Folding → Option Index → String → Resolution
unfolding normalize exact lookup
resolve fold none project_name = unmatched false false
resolve fold (some index) project_name =
    let norm = normalize fold project_name in
    if is_empty norm
    then unmatched true false
    else decide (
        or_else (lookup norm index.override_norm_to_entries) (
          or_else (lookup (exact fold project_name) index.exact_to_entries)
            (lookup norm index.norm_to_entries)))
