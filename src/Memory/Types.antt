-- ===== src/Memory/Types.antt =====
-- packages/memory/src/MemoryTypes.ts, as far as the filters, the policies and the index read it. A
-- time is its number of milliseconds. An importance is a number from 0 to 1 in the source, which
-- only compares it: here it is counted in thousandths. The content is the list of its UTF-16 code units.
use agent_os.Base.{ℕ, String, Bool, List, Option, Eq, eq_of_discrete}

pub data MemoryScope : Type 0 where
  conversation project execution plugin user knowledge system : MemoryScope

unfoldable pub MemoryScope-discrete : Discrete MemoryScope
MemoryScope-discrete = hlevel

instance abbrev pub scope_eq : Eq MemoryScope
scope_eq = eq_of_discrete MemoryScope-discrete

-- Left out: the embedding, the source's tool and label, the metadata, the last access, the count of
-- accesses and the visibility, which nothing here reads.
pub record MemoryRecord : Type 0 where
  pub id : String
  pub scope : MemoryScope
  pub content : List ℕ
  pub plugin_id : String
  pub user_id : Option String
  pub project_id : Option String
  pub tags : List String
  pub importance : ℕ
  pub created_at : ℕ
  pub ttl_ms : Option ℕ
  pub read_only : Bool

-- Left out: the description and the default visibility.
pub record MemoryPolicy : Type 0 where
  pub id : String
  pub ttl_ms : Option ℕ
  pub max_count : Option ℕ
  pub max_size_bytes : Option ℕ
  pub pinned : Bool
  pub default_importance : ℕ

pub record MemoryFilter : Type 0 where
  pub scopes : Option (List MemoryScope)
  pub plugin_ids : Option (List String)
  pub user_id : Option String
  pub project_id : Option String
  pub tags : Option (List String)
  pub min_importance : Option ℕ
  pub include_read_only : Option Bool
  pub query : Option String
