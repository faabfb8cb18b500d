-- ===== src/Memory/Tests.antt =====
-- The theorems about memories at a few records.
use agent_os.Memory.Types.{MemoryScope, scope_eq, MemoryRecord, MemoryFilter}
use agent_os.Memory.Indexer.{MemoryChunk, MemoryIndexerOptions, slice, chunks_from, chunk_content}
use agent_os.Memory.Indexer.Chunks.{
  join_chunks, IsShort, chunk_content_joined, chunk_content_endless,
}
use agent_os.Memory.Registry.{empty_registry, get_default, Operation, add, drop, choose, apply_all}
use agent_os.Memory.Registry.Default.{get_default-apply_all}
use agent_os.Memory.Policies.{select_eviction_candidates}
use agent_os.Memory.Policies.Eviction.{IsFirst, evictable, select_eviction_candidates-IsFirst}
use agent_os.Memory.Filters.{apply_filter}
use agent_os.Memory.Filters.Matching.{matches_filter, apply_filter-keep}
use agent_os.Base.Int.{pos, negsuc}
use agent_os.Base.{
  ℕ, ◌-◌, String, true, false, List, [], ◌∷◌, ◌++◌, none, some, ◌≡◌, refl, ◌↔◌, length, min, keep,
  All, arith,
}
use mathlib.Core.List.{Perm}

abbrev memory_of : String → (importance created_at : ℕ) → MemoryRecord
memory_of id importance created_at = record {
  id = id;
  scope = MemoryScope.project;
  content = 1 ∷ 2 ∷ 3 ∷ 4 ∷ 5 ∷ [];
  plugin_id = "notes";
  user_id = some "ann";
  project_id = none;
  tags = "plan" ∷ [];
  importance = importance;
  created_at = created_at;
  ttl_ms = none;
  read_only = false;
}

abbrev in_threes : MemoryIndexerOptions
in_threes = record { chunk_size = 3; chunk_overlap = 1 }

chunk_content_joined_example :
    (chunks : List MemoryChunk) × (chunk_content in_threes (memory_of "a" 5 1) ≡ some chunks)
    × (join_chunks (3 - 1) chunks ≡ 1 ∷ 2 ∷ 3 ∷ 4 ∷ 5 ∷ [])
    × All (IsShort 3) chunks
chunk_content_joined_example =
    chunk_content_joined in_threes (memory_of "a" 5 1) (omega arith) (omega arith)

-- A chunk size of less than the default overlap.
abbrev too_small : MemoryIndexerOptions
too_small = record { chunk_size = 4; chunk_overlap = 100 }

chunk_content_endless_example :
    (chunks_from too_small "a" (1 ∷ 2 ∷ 3 ∷ 4 ∷ 5 ∷ []) 9 (pos 0) 0 ≡ none)
    × (chunk_content too_small (memory_of "a" 5 1) ≡ none)
chunk_content_endless_example =
    chunk_content_endless too_small (memory_of "a" 5 1) 9 (omega arith) (omega arith)

-- A start below 0 counts from the end.
slice_negative : slice (1 ∷ 2 ∷ 3 ∷ 4 ∷ 5 ∷ []) (negsuc 1) (pos 5) ≡ 4 ∷ 5 ∷ []
slice_negative = refl

abbrev operations : List (Operation ℕ)
operations = add "disk" 1 ∷ add "cloud" 2 ∷ choose "cloud" ∷ choose "tape" ∷ drop "cloud" ∷ []

get_default-apply_all_example :
    (get_default (apply_all operations empty_registry) ≡ none)
    ↔ ((apply_all operations empty_registry).providers ≡ [])
get_default-apply_all_example = get_default-apply_all operations

abbrev memories : List MemoryRecord
memories =
    memory_of "a" 500 9
    ∷ memory_of "b" 200 8
    ∷ record (memory_of "c" 100 1) { read_only = true }
    ∷ memory_of "d" 200 3
    ∷ []

select_eviction_candidates-IsFirst_example :
    (spared : List MemoryRecord) × Perm
      (select_eviction_candidates memories 2 ++ spared)
      (evictable memories)
    × (length (select_eviction_candidates memories 2) ≡ min 2 (length (evictable memories)))
    × All (λ a. All (IsFirst a) spared) (select_eviction_candidates memories 2)
select_eviction_candidates-IsFirst_example = select_eviction_candidates-IsFirst memories 2

abbrev important : MemoryFilter
important = record {
  scopes = some [];
  plugin_ids = some ("notes" ∷ []);
  user_id = some "ann";
  project_id = none;
  tags = none;
  min_importance = some 300;
  include_read_only = none;
  query = none;
}

apply_filter-keep_example :
    apply_filter memories important ≡ keep (matches_filter important) memories
apply_filter-keep_example = apply_filter-keep memories important
