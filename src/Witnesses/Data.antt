-- ===== src/Witnesses/Data.antt =====
-- The data of the concrete runs.
use bridge_db.Prelude.{String, true, false, Option, none, some, [], ◌∷◌, str}
use bridge_db.Models.{Principal, Caller, operator}
use bridge_db.Json.{Json, null, object, get}
use bridge_db.Platform.{Platform}
use bridge_db.Auth.{Settings, lifespan}
use bridge_db.Auth.Grants.{Grant}
use bridge_db.Resolver.{unmatched}
use bridge_db.Handoffs.Tables.{Tables}
use bridge_db.Handoffs.Store.{Store, Call}
use bridge_db.Handoffs.Create.{Payload, create_handoff}
use bridge_db.Handoffs.Claim.{Mint, pick_up_handoff}
use bridge_db.Handoffs.Complete.{Clock}
use bridge_db.Handoffs.Ceremonies.{Ceremony, run_promote_handoff}
use bridge_db.Handoffs.Invariant.{empty}

-- "without" and "with" a capability, and a row's own image
abbrev image : Option Json → String
image none = "row"
image (some null) = "without"
image (some _) = "with"

abbrev dumped : Json → String
dumped (object fields) = image (get fields "capability_token_sha256")
dumped _ = ""

abbrev pub platform : Platform
platform = record { sha256 = λ s. s; dumps = dumped; from_iso = λ s. some 90000000000; iso_z = str }

abbrev pub ai_grant : Grant
ai_grant = record {
  caller = Principal.claude_ai;
  issued_at = 1;
  expires_at = 5000;
  generation = 1;
  scopes = "create_handoff" ∷ [];
}

abbrev pub cc_grant : Grant
cc_grant = record {
  caller = Principal.cc;
  issued_at = 1;
  expires_at = 5000;
  generation = 2;
  scopes = "pick_up_handoff" ∷ "clear_handoff" ∷ [];
}

abbrev pub settings : Settings
settings = record {
  mode = "enforce";
  registry = ("ai-hash", ai_grant) ∷ ("cc-hash", cc_grant) ∷ [];
  now = 1000;
}

abbrev pub ai_call : Call
ai_call = record {
  settings = settings;
  conn = lifespan (some Principal.claude_ai) (some "ai-hash") (some 1);
  resolve = λ name. unmatched true false;
  db_now = "2026-01-01T00:00:00Z";
}

abbrev pub cc_call : Call
cc_call = record {
  settings = settings;
  conn = lifespan (some Principal.cc) (some "cc-hash") (some 2);
  resolve = λ name. unmatched true false;
  db_now = "2026-01-01T01:00:00Z";
}

abbrev pub payload : Payload
payload = record {
  project_name = "bridge-db";
  project_path = some "/work/bridge-db";
  roadmap_file = none;
  phase = some "2";
}

abbrev pub mint : Mint
mint = record { session = "s1"; secret = "k1"; issued_at = 7000000 }

abbrev pub clock : Clock
clock = record { checked = 8000000; stamped = 8000000; locked = 8000000 }

abbrev pub same : Tables → Tables
same t = t

-- an operator at a terminal, with the answer given
abbrev pub at_terminal : String → Ceremony
at_terminal answer = record {
  tty = true;
  answer = some answer;
  between = same;
  db_now = "2026-01-01T00:30:00Z";
  reviewed_at = 99000000000;
  locked_at = 99000000000;
  stamped_at = 99000000000;
}

abbrev pub new_store : Store
new_store = record { tables = empty; trail = [] }

abbrev pub dispatched : Store
dispatched = (create_handoff ai_call Caller.claude_ai payload operator new_store).1

abbrev pub approved : Store
approved = (run_promote_handoff platform (at_terminal "y") 1 dispatched).1

abbrev pub taken : Store
taken = (pick_up_handoff platform cc_call Caller.cc 1 same mint approved).1
