-- ===== src/Db.antt =====
-- packages/orchestrator/src/db.ts and types.ts: the tables of sessions and of context snapshots, as
-- lists in insertion order. A text is a number, a NULL column is `none`, a time is a number that
-- grows, and `cost_usd` is counted in whole units of the smallest price step. SQLite runs with
-- `foreign_keys = ON`: a row that another table refers to cannot be deleted, and a snapshot of a
-- session that is not there cannot be inserted.
use claude_agent_runner.Common.{
  ℕ, ◌+◌, Option, none, some, Bool, List, [], ◌∷◌, ◌++◌, if◌then◌else◌, ◌==◌, filter, find?, any,
  not, ◌&&◌,
}

pub data SessionStatus : Type 0 where
  starting cloning syncing ready busy idle stopped error : SessionStatus

pub record SessionConfig : Type 0 where
  pub name : Option ℕ
  pub pinned : Bool
  pub repo : Option ℕ
  pub branch : Option ℕ
  pub workspace : Option ℕ
  pub vault_name : Option ℕ
  pub agent_id : Option ℕ
  pub model : ℕ
  pub system_prompt : Option ℕ
  pub max_turns : Option ℕ
  pub thinking : Option Bool
  pub additional_directories : Option ℕ
  pub compact_instructions : Option ℕ
  pub permission_mode : Option ℕ
  pub mcp_servers : Option ℕ
  pub allowed_paths : Option ℕ
  pub forked_from : Option ℕ
  pub tenant_id : Option ℕ

pub record SessionRow : Type 0 where
  pub id : ℕ
  pub container_id : ℕ
  pub status : SessionStatus
  pub oauth_token_index : ℕ
  pub config : SessionConfig
  pub open config use *
  pub created_at : ℕ
  pub last_activity : ℕ
  pub message_count : ℕ
  pub input_tokens : ℕ
  pub output_tokens : ℕ
  pub cost_usd : ℕ
  pub last_error : Option ℕ
  pub sdk_session_id : Option ℕ
  pub context_tokens : ℕ
  pub compact_count : ℕ
  pub last_compact_at : Option ℕ

pub record SnapshotRow : Type 0 where
  pub id : ℕ
  pub session_id : ℕ
  pub request_id : Option ℕ
  pub trigger : ℕ
  pub message_count : ℕ
  pub roles : ℕ
  pub messages : ℕ
  pub created_at : ℕ

pub record Db : Type 0 where
  pub sessions : List SessionRow
  pub snapshots : List SnapshotRow
  pub next_snapshot_id : ℕ

abbrev pub has_id : ℕ → SessionRow → Bool
has_id id r = r.id == id

-- `none` is the exception that the foreign key raises.
unfoldable pub insert_snapshot : ℕ → ℕ → ℕ → ℕ → ℕ → Option ℕ → ℕ → Db → Option (ℕ × Db)
insert_snapshot session trigger message_count roles messages request now db =
    if any (has_id session) db.sessions
    then some (
      db.next_snapshot_id,
      record db {
        snapshots = db.snapshots ++ row ∷ [];
        next_snapshot_id = db.next_snapshot_id + 1;
      },
    )
    else none
  where
    row : SnapshotRow
    row = record {
      id = db.next_snapshot_id;
      session_id = session;
      request_id = request;
      trigger = trigger;
      message_count = message_count;
      roles = roles;
      messages = messages;
      created_at = now;
    }

-- `ORDER BY id DESC`: ids grow along the table.
pub list_snapshots : ℕ → Db → List SnapshotRow
list_snapshots session db = newest_first (filter (λ r. r.session_id == session) db.snapshots) []
  where
    newest_first : List SnapshotRow → List SnapshotRow → List SnapshotRow
    newest_first [] acc = acc
    newest_first (r ∷ rs) acc = newest_first rs (r ∷ acc)

pub get_snapshot : ℕ → Db → Option SnapshotRow
get_snapshot id db = find? (λ r. r.id == id) db.snapshots

abbrev pub refers_to : ℕ → SnapshotRow → Bool
refers_to session r = r.session_id == session

-- `DELETE FROM sessions WHERE id = ?`; `none` is the exception that the foreign key raises.
unfoldable pub delete_session : ℕ → Db → Option Db
delete_session id db =
    if any (has_id id) db.sessions && any (refers_to id) db.snapshots
    then none
    else some (record db { sessions = filter (λ r. not (has_id id r)) db.sessions })
