-- ===== src/Memory/Policies.antt =====
-- packages/memory/src/MemoryPolicies.ts: which records have expired, and which are evicted. Creation
-- times are read as numbers of milliseconds, and an importance is counted in thousandths.
-- `Array.sort` is stable.
pub mod Eviction
use agent_os.Base.{
  ℕ, zero, suc, ◌+◌, ◌-◌, ◌*◌, String, nat_eq, Bool, true, false, not, List, [], ◌∷◌, Option, none,
  some, ◌==◌, if◌then◌else◌, ltb, length, keep, take,
}
use agent_os.Memory.Types.{
  MemoryScope, conversation, project, execution, plugin, user, knowledge, system, MemoryRecord,
  MemoryPolicy,
}

-- An importance in thousandths.
unfoldable pub get_default_policy : MemoryScope → MemoryPolicy
get_default_policy conversation = record {
  id = "conversation-default";
  ttl_ms = some 3600000;
  max_count = some 1000;
  max_size_bytes = none;
  pinned = false;
  default_importance = 500;
}
get_default_policy project = record {
  id = "project-default";
  ttl_ms = some (86400000 * 7);
  max_count = some 5000;
  max_size_bytes = none;
  pinned = false;
  default_importance = 700;
}
get_default_policy execution = record {
  id = "execution-default";
  ttl_ms = some 3600000;
  max_count = some 500;
  max_size_bytes = none;
  pinned = false;
  default_importance = 800;
}
get_default_policy plugin = record {
  id = "plugin-default";
  ttl_ms = some (86400000 * 30);
  max_count = some 2000;
  max_size_bytes = none;
  pinned = false;
  default_importance = 600;
}
get_default_policy user = record {
  id = "user-default";
  ttl_ms = some (86400000 * 365);
  max_count = some 10000;
  max_size_bytes = none;
  pinned = false;
  default_importance = 900;
}
get_default_policy knowledge = record {
  id = "knowledge-default";
  ttl_ms = some (86400000 * 365);
  max_count = some 50000;
  max_size_bytes = none;
  pinned = false;
  default_importance = 800;
}
get_default_policy system = record {
  id = "system-default";
  ttl_ms = none;
  max_count = some 1000;
  max_size_bytes = none;
  pinned = true;
  default_importance = 1000;
}

expired_after : Option ℕ → ℕ → Bool
expired_after none age = false
expired_after (some ttl) age = ltb ttl age

-- A record created after `now` has the age 0 here and a negative one in the source: not expired.
unfoldable pub is_expired : MemoryRecord → ℕ → Bool
unfolding expired_after
is_expired r now = expired_after r.ttl_ms (now - r.created_at)

unfoldable pub filter_expired : List MemoryRecord → ℕ → List MemoryRecord
unfolding is_expired
filter_expired rs now = keep (λ r. not (is_expired r now)) rs

unfoldable pub is_pinned : MemoryRecord → Bool
is_pinned r = r.read_only

over_limit : Option ℕ → ℕ → ℕ
over_limit none n = 0
over_limit (some max_count) n = n - max_count

unfoldable pub calculate_eviction_count : List MemoryRecord → MemoryPolicy → ℕ
unfolding over_limit
calculate_eviction_count rs policy = over_limit policy.max_count (length rs)

-- The comparison of the sort is above 0.
unfoldable pub comes_after : MemoryRecord → MemoryRecord → Bool
comes_after a b =
    if a.importance == b.importance
    then ltb b.created_at a.created_at
    else ltb b.importance a.importance

pub insert_record : MemoryRecord → List MemoryRecord → List MemoryRecord
unfolding comes_after
insert_record r [] = r ∷ []
insert_record r (s ∷ rs) =
    let rest = insert_record r rs in if comes_after r s then s ∷ rest else r ∷ s ∷ rs

-- `sort`: a record stays before those that compare equal and stood after it.
unfoldable pub sort_records : List MemoryRecord → List MemoryRecord
unfolding insert_record
sort_records [] = []
sort_records (r ∷ rs) = insert_record r (sort_records rs)

unfoldable pub select_eviction_candidates : List MemoryRecord → ℕ → List MemoryRecord
unfolding is_pinned sort_records
select_eviction_candidates rs zero = []
select_eviction_candidates rs (suc count) =
    take (suc count) (sort_records (keep (λ r. not (is_pinned r)) rs))

fits : (List ℕ → ℕ) → Option ℕ → Option (List ℕ) → Bool
fits encoded_length (some max_size) (some content) = not (ltb max_size (encoded_length content))
fits encoded_length _ _ = true

-- The field `allowed` of the answer, for a record's content, if it has one; the number of bytes of
-- a text in UTF-8 is a parameter.
unfoldable pub can_create : (List ℕ → ℕ) → Option (List ℕ) → MemoryPolicy → Bool
unfolding fits
can_create encoded_length content policy = fits encoded_length policy.max_size_bytes content
