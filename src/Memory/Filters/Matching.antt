-- ===== src/Memory/Filters/Matching.antt =====
-- Which records a filter keeps.
use agent_os.Memory.Types.{MemoryScope, scope_eq, MemoryRecord, MemoryFilter}
use agent_os.Memory.Filters.{
  is_empty, is_just, any_in, filter_by_scope, filter_by_plugin_id, filter_by_user_id,
  filter_by_project_id, filter_by_tags, filter_by_importance, exclude_read_only, where_given,
  unless_included, apply_filter,
}
use agent_os.Base.{
  String, string_eq, Bool, true, false, not, ◌&&◌, ◌||◌, List, [], ◌∷◌, Option, none, some, ◌≡◌,
  refl, ◌∙◌, ap, sym, leb, keep, includes, arith,
}

module _ {A : Type 0} where
  keep_all : (xs : List A) → keep (λ x. true) xs ≡ xs
  keep_all [] = refl
  keep_all (x ∷ xs) = ap (λ ys. x ∷ ys) (keep_all xs)

  keep-keep : (p q : A → Bool) (xs : List A) → keep q (keep p xs) ≡ keep (λ x. p x && q x) xs
  keep-keep p q [] = refl
  keep-keep p q (x ∷ xs) = ground (arith, keep-keep p q xs)

-- A criterion that is not given, or that is an empty list, holds of every record.
abbrev pub given : {A : Type 0} → (A → Bool) → Option A → Bool
given p none = true
given p (some a) = p a

abbrev pub is_included : Option Bool → Bool
is_included none = false
is_included (some b) = b

-- What a filter asks of a record, criterion by criterion.
abbrev pub matches_scope : MemoryFilter → MemoryRecord → Bool
matches_scope f r = given (λ scopes. is_empty scopes || includes scopes r.scope) f.scopes

abbrev pub matches_plugin : MemoryFilter → MemoryRecord → Bool
matches_plugin f r = given (λ ids. is_empty ids || includes ids r.plugin_id) f.plugin_ids

abbrev pub matches_tags : MemoryFilter → MemoryRecord → Bool
matches_tags f r = given (λ tags. is_empty tags || any_in tags r.tags) f.tags

abbrev pub matches_filter : MemoryFilter → MemoryRecord → Bool
matches_filter f r =
    matches_scope f r
    && matches_plugin f r
    && given (is_just r.user_id) f.user_id
    && given (is_just r.project_id) f.project_id
    && matches_tags f r
    && given (λ least. leb least r.importance) f.min_importance
    && (is_included f.include_read_only || not r.read_only)

where_given-keep :
    {A : Type 0} (by : List MemoryRecord → A → List MemoryRecord) (p : A → MemoryRecord → Bool)
    (o : Option A) (rs : List MemoryRecord)
    → ((rs : List MemoryRecord) (a : A) → by rs a ≡ keep (p a) rs)
    → where_given by o rs ≡ keep (λ r. given (λ a. p a r) o) rs
where_given-keep by p none rs h = sym (keep_all rs)
where_given-keep by p (some a) rs h = h rs a

-- One more criterion.
and_then-keep :
    (p q : MemoryRecord → Bool) (rs before after : List MemoryRecord)
    → before ≡ keep p rs
    → after ≡ keep q before
    → after ≡ keep (λ r. p r && q r) rs
and_then-keep p q rs before after e f = f ∙ ap (keep q) e ∙ keep-keep p q rs

filter_by_scope-keep :
    (rs : List MemoryRecord) (scopes : List MemoryScope)
    → filter_by_scope rs scopes
      ≡ keep (λ (r : MemoryRecord). is_empty scopes || includes scopes r.scope) rs
unfolding filter_by_scope
filter_by_scope-keep rs [] = sym (keep_all rs)
filter_by_scope-keep rs (s ∷ scopes) = refl

filter_by_plugin_id-keep :
    (rs : List MemoryRecord) (ids : List String)
    → filter_by_plugin_id rs ids
      ≡ keep (λ (r : MemoryRecord). is_empty ids || includes ids r.plugin_id) rs
unfolding filter_by_plugin_id
filter_by_plugin_id-keep rs [] = sym (keep_all rs)
filter_by_plugin_id-keep rs (id ∷ ids) = refl

filter_by_tags-keep :
    (rs : List MemoryRecord) (tags : List String)
    → filter_by_tags rs tags ≡ keep (λ (r : MemoryRecord). is_empty tags || any_in tags r.tags) rs
unfolding filter_by_tags
filter_by_tags-keep rs [] = sym (keep_all rs)
filter_by_tags-keep rs (t ∷ tags) = refl

unless_included-keep :
    (o : Option Bool) (rs : List MemoryRecord)
    → unless_included o rs ≡ keep (λ (r : MemoryRecord). is_included o || not r.read_only) rs
unfolding exclude_read_only
unless_included-keep none rs = refl
unless_included-keep (some true) rs = sym (keep_all rs)
unless_included-keep (some false) rs = refl

-- A filter keeps, in their order, just the records that meet each of its criteria: a criterion that
-- is not given, or is an empty list, holds of every record, and a read-only record is kept only if
-- the filter includes those.
pub apply_filter-keep :
    (rs : List MemoryRecord) (f : MemoryFilter) → apply_filter rs f ≡ keep (matches_filter f) rs
unfolding apply_filter filter_by_user_id filter_by_project_id filter_by_importance
apply_filter-keep rs f =
    and_then-keep _ _ rs _ _
      (and_then-keep _ _ rs _ _
        (and_then-keep _ _ rs _ _
          (and_then-keep _ _ rs _ _
            (and_then-keep _ _ rs _ _
              (and_then-keep _ _ rs _ _
                (where_given-keep filter_by_scope _ f.scopes rs filter_by_scope-keep)
                (where_given-keep filter_by_plugin_id _ f.plugin_ids _ filter_by_plugin_id-keep))
              (where_given-keep filter_by_user_id (λ u r. is_just r.user_id u) f.user_id _
                (λ rs u. refl)))
            (where_given-keep filter_by_project_id (λ u r. is_just r.project_id u) f.project_id _
              (λ rs u. refl)))
          (where_given-keep filter_by_tags _ f.tags _ filter_by_tags-keep))
        (where_given-keep filter_by_importance (λ least r. leb least r.importance) f.min_importance
          _ (λ rs u. refl)))
      (unless_included-keep f.include_read_only _)
