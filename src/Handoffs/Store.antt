-- ===== src/Handoffs/Store.antt =====
-- The state of a handoff tool, and what one tool call reads from outside.
use bridge_db.Prelude.{String}
use bridge_db.Auth.{Settings, Connection}
use bridge_db.Resolver.{Resolution}
use bridge_db.Session.{Session}
use bridge_db.Handoffs.Tables.{Tables}
pub use bridge_db.Session.{gate, audit, sometimes, get_tables, put_tables, always_tx}

abbrev pub Store : Type 0
Store = Session Tables

pub record Call : Type 0 where
  pub settings : Settings
  pub conn : Connection
  pub resolve : String → Resolution  -- project_resolver.resolve
  pub db_now : String  -- strftime('%Y-%m-%dT%H:%M:%SZ', 'now')
