-- ===== src/Memory/Filters.antt =====
-- packages/memory/src/MemoryFilters.ts. `filterByMetadata`, which compares values of any type, is
-- left out, and so is `filterByPredicate`, which is the filter of arrays.
pub mod Matching
use agent_os.Base.{
  ℕ, String, string_eq, Bool, true, false, not, ◌||◌, List, [], ◌∷◌, Option, none, some, ◌==◌,
  if◌then◌else◌, ltb, leb, length, keep, includes,
}
use agent_os.Memory.Types.{MemoryScope, MemoryScope-discrete, scope_eq, MemoryRecord, MemoryFilter}

-- `scopes.length === 0`
abbrev pub is_empty : {A : Type 0} → List A → Bool
is_empty [] = true
is_empty (x ∷ xs) = false

-- `userId === wanted`, where there may be no user
abbrev pub is_just : Option String → String → Bool
is_just none wanted = false
is_just (some id) wanted = id == wanted

-- `tags.some((t) => tagSet.has(t))`
abbrev pub any_in : List String → List String → Bool
any_in wanted [] = false
any_in wanted (t ∷ tags) = includes wanted t || any_in wanted tags

unfoldable pub filter_by_scope : List MemoryRecord → List MemoryScope → List MemoryRecord
filter_by_scope rs scopes =
    if is_empty scopes then rs else keep (λ (r : MemoryRecord). includes scopes r.scope) rs

unfoldable pub filter_by_plugin_id : List MemoryRecord → List String → List MemoryRecord
filter_by_plugin_id rs plugin_ids =
    if is_empty plugin_ids
    then rs
    else keep (λ (r : MemoryRecord). includes plugin_ids r.plugin_id) rs

unfoldable pub filter_by_user_id : List MemoryRecord → String → List MemoryRecord
filter_by_user_id rs user_id = keep (λ (r : MemoryRecord). is_just r.user_id user_id) rs

unfoldable pub filter_by_project_id : List MemoryRecord → String → List MemoryRecord
filter_by_project_id rs project_id = keep (λ (r : MemoryRecord). is_just r.project_id project_id) rs

unfoldable pub filter_by_tags : List MemoryRecord → List String → List MemoryRecord
filter_by_tags rs tags =
    if is_empty tags then rs else keep (λ (r : MemoryRecord). any_in tags r.tags) rs

unfoldable pub filter_by_importance : List MemoryRecord → ℕ → List MemoryRecord
filter_by_importance rs min_importance =
    keep (λ (r : MemoryRecord). leb min_importance r.importance) rs

unfoldable pub exclude_read_only : List MemoryRecord → List MemoryRecord
exclude_read_only rs = keep (λ (r : MemoryRecord). not r.read_only) rs

-- `if (value !== undefined) { result = by(result, value); }`
abbrev pub where_given :
    {A : Type 0}
    → (List MemoryRecord → A → List MemoryRecord)
    → Option A
    → List MemoryRecord
    → List MemoryRecord
where_given by none rs = rs
where_given by (some value) rs = by rs value

-- `includeReadOnly !== true`
abbrev pub unless_included : Option Bool → List MemoryRecord → List MemoryRecord
unless_included (some true) rs = rs
unless_included (some false) rs = exclude_read_only rs
unless_included none rs = exclude_read_only rs

unfoldable pub apply_filter : List MemoryRecord → MemoryFilter → List MemoryRecord
unfolding filter_by_scope filter_by_plugin_id filter_by_user_id filter_by_project_id filter_by_tags
    filter_by_importance exclude_read_only
apply_filter rs f =
    let by_scope = where_given filter_by_scope f.scopes rs in
    let by_plugin = where_given filter_by_plugin_id f.plugin_ids by_scope in
    let by_user = where_given filter_by_user_id f.user_id by_plugin in
    let by_project = where_given filter_by_project_id f.project_id by_user in
    let by_tag = where_given filter_by_tags f.tags by_project in
    let by_importance = where_given filter_by_importance f.min_importance by_tag in
    unless_included f.include_read_only by_importance

-- A query, as far as a filter is built from it.
pub record MemoryQuery : Type 0 where
  pub text : String
  pub scopes : Option (List MemoryScope)
  pub plugin_ids : Option (List String)
  pub user_id : Option String
  pub project_id : Option String
  pub tags : Option (List String)
  pub min_importance : Option ℕ
  pub include_read_only : Option Bool

unfoldable pub query_to_filter : MemoryQuery → MemoryFilter
query_to_filter q = record {
  scopes = q.scopes;
  plugin_ids = q.plugin_ids;
  user_id = q.user_id;
  project_id = q.project_id;
  tags = q.tags;
  min_importance = q.min_importance;
  include_read_only = q.include_read_only;
  query = some q.text;
}
