-- ===== src/Models.antt =====
-- src/bridge_db/models.py: who may act, the trust labels, and the stewards of the sections.
use bridge_db.Prelude.{ℕ, String, ◌≡◌, ◌↔◌, Bool, true, List, [], ◌∷◌, arith, nat_beq, Eq, nat_eq}

-- PrincipalID
pub data Principal : Type 0 where
  cc codex claude_ai notion_os personal_ops hermes : Principal

-- CallerID: the principals that may name themselves on write tools
pub data Caller : Type 0 where
  cc codex claude_ai notion_os personal_ops : Caller

pub data SourceTrust : Type 0 where
  operator agent ingested : SourceTrust

abbrev pub principal_of : Caller → Principal
principal_of Caller.cc = Principal.cc
principal_of Caller.codex = Principal.codex
principal_of Caller.claude_ai = Principal.claude_ai
principal_of Caller.notion_os = Principal.notion_os
principal_of Caller.personal_ops = Principal.personal_ops

-- The wire names, and PRINCIPAL_IDS as the names that are known.
abbrev pub principal_ids : List (String × Principal)
principal_ids =
    ("cc", Principal.cc)
    ∷ ("codex", Principal.codex)
    ∷ ("claude_ai", Principal.claude_ai)
    ∷ ("notion_os", Principal.notion_os)
    ∷ ("personal_ops", Principal.personal_ops)
    ∷ ("hermes", Principal.hermes)
    ∷ []

abbrev pub section_owners : List (String × Caller)
section_owners =
    ("career", Caller.claude_ai)
    ∷ ("speaking", Caller.claude_ai)
    ∷ ("research", Caller.claude_ai)
    ∷ ("capabilities", Caller.claude_ai)
    ∷ ("portfolio", Caller.cc)
    ∷ []

abbrev principal_rank : Principal → ℕ
principal_rank Principal.cc = 0
principal_rank Principal.codex = 1
principal_rank Principal.claude_ai = 2
principal_rank Principal.notion_os = 3
principal_rank Principal.personal_ops = 4
principal_rank Principal.hermes = 5

abbrev caller_rank : Caller → ℕ
caller_rank Caller.cc = 0
caller_rank Caller.codex = 1
caller_rank Caller.claude_ai = 2
caller_rank Caller.notion_os = 3
caller_rank Caller.personal_ops = 4

abbrev trust_rank : SourceTrust → ℕ
trust_rank operator = 0
trust_rank agent = 1
trust_rank ingested = 2

abbrev pub principal_beq : Principal → Principal → Bool
principal_beq a b = nat_beq (principal_rank a) (principal_rank b)

abbrev pub caller_beq : Caller → Caller → Bool
caller_beq a b = nat_beq (caller_rank a) (caller_rank b)

abbrev pub trust_beq : SourceTrust → SourceTrust → Bool
trust_beq a b = nat_beq (trust_rank a) (trust_rank b)

pub principal_beq_iff : (a b : Principal) → (principal_beq a b ≡ true) ↔ (a ≡ b)
principal_beq_iff a b = ground arith

pub caller_beq_iff : (a b : Caller) → (caller_beq a b ≡ true) ↔ (a ≡ b)
caller_beq_iff a b = ground arith

pub trust_beq_iff : (a b : SourceTrust) → (trust_beq a b ≡ true) ↔ (a ≡ b)
trust_beq_iff a b = ground arith

instance abbrev pub principal_eq : Eq Principal
principal_eq = record { beq = principal_beq; beq_iff = principal_beq_iff }

instance abbrev pub caller_eq : Eq Caller
caller_eq = record { beq = caller_beq; beq_iff = caller_beq_iff }

instance abbrev pub trust_eq : Eq SourceTrust
trust_eq = record { beq = trust_beq; beq_iff = trust_beq_iff }

abbrev pub principal_name : Principal → String
principal_name Principal.cc = "cc"
principal_name Principal.codex = "codex"
principal_name Principal.claude_ai = "claude_ai"
principal_name Principal.notion_os = "notion_os"
principal_name Principal.personal_ops = "personal_ops"
principal_name Principal.hermes = "hermes"

abbrev pub caller_name : Caller → String
caller_name c = principal_name (principal_of c)

abbrev pub trust_name : SourceTrust → String
trust_name operator = "operator"
trust_name agent = "agent"
trust_name ingested = "ingested"
