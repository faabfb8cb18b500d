-- ===== src/Memory/Policies/Eviction.antt =====
-- Which records are evicted.
use agent_os.Memory.Types.{MemoryRecord}
use agent_os.Memory.Policies.{
  is_pinned, comes_after, insert_record, sort_records, select_eviction_candidates,
}
use agent_os.Base.{
  ℕ, zero, suc, ◌+◌, ◌≤◌, ◌<◌, ◌==◌, nat_eq, true, false, not, List, [], ◌∷◌, ◌++◌, ◌≡◌, refl, ◌∙◌,
  sym, ap, subst, min, length, keep, take, drop, take-drop, All, arith, Bool-cases, inl, inr,
}
use mathlib.Core.List.{Perm}
use mathlib.Core.List.Perm

-- `a` is less important than `b`, or as important and not newer.
pub data IsFirst (a b : MemoryRecord) : Type 0 where
  less_important : a.importance < b.importance → IsFirst a b
  not_newer : a.importance ≡ b.importance → a.created_at ≤ b.created_at → IsFirst a b

IsFirst-trans : (a b c : MemoryRecord) → IsFirst a b → IsFirst b c → IsFirst a c
IsFirst-trans a b c (less_important h) (less_important k) = less_important (omega arith)
IsFirst-trans a b c (less_important h) (not_newer k l) = less_important (omega arith)
IsFirst-trans a b c (not_newer h i) (less_important k) = less_important (omega arith)
IsFirst-trans a b c (not_newer h i) (not_newer k l) = not_newer (h ∙ k) (omega arith)

-- The comparison of the source on two records.
comes_after-IsFirst : (a b : MemoryRecord) → comes_after a b ≡ false → IsFirst a b
unfolding comes_after
comes_after-IsFirst a b h = elim (Bool-cases (a.importance == b.importance)) [
  | inl same ↦ not_newer (ground arith) (ground arith)
  | inr other ↦ less_important (ground arith)
]

after-IsFirst : (a b : MemoryRecord) → comes_after a b ≡ true → IsFirst b a
unfolding comes_after
after-IsFirst a b h = elim (Bool-cases (a.importance == b.importance)) [
  | inl same ↦ not_newer (ground arith) (ground arith)
  | inr other ↦ less_important (ground arith)
]

abbrev IsSorted : List MemoryRecord → Type 0
IsSorted [] = Unit
IsSorted (r ∷ rs) = All (IsFirst r) rs × IsSorted rs

All-insert :
    (P : MemoryRecord → Type 0) (r : MemoryRecord) (rs : List MemoryRecord)
    → P r
    → All P rs
    → All P (insert_record r rs)
unfolding insert_record
All-insert P r [] p h = (p, tt)
All-insert P r (s ∷ rs) p h = elim (Bool-cases (comes_after r s)) [
  | inl after ↦ rw (after, insert_record) (h.0, All-insert P r rs p h.1)
  | inr first ↦ rw (first, insert_record) (p, (h.0, h.1))
]

All-below :
    (r s : MemoryRecord) (rs : List MemoryRecord)
    → IsFirst r s
    → All (IsFirst s) rs
    → All (IsFirst r) rs
All-below r s [] h a = tt
All-below r s (t ∷ rs) h a = (IsFirst-trans r s t h a.0, All-below r s rs h a.1)

insert_record-IsSorted :
    (r : MemoryRecord) (rs : List MemoryRecord) → IsSorted rs → IsSorted (insert_record r rs)
unfolding insert_record
insert_record-IsSorted r [] h = (tt, tt)
insert_record-IsSorted r (s ∷ rs) h = elim (Bool-cases (comes_after r s)) [
  | inl after ↦
      rw (after, insert_record)
        (All-insert (IsFirst s) r rs (after-IsFirst r s after) h.0, insert_record-IsSorted r rs h.1)
  | inr not_after ↦
      let first = comes_after-IsFirst r s not_after in
      rw (not_after, insert_record) ((first, All-below r s rs first h.0), (h.0, h.1))
]

sort_records-IsSorted : (rs : List MemoryRecord) → IsSorted (sort_records rs)
unfolding sort_records
sort_records-IsSorted [] = tt
sort_records-IsSorted (r ∷ rs) =
    insert_record-IsSorted r (sort_records rs) (sort_records-IsSorted rs)

insert_record-perm :
    (r : MemoryRecord) (rs : List MemoryRecord) → Perm (insert_record r rs) (r ∷ rs)
unfolding insert_record
insert_record-perm r [] = Perm.rfl
insert_record-perm r (s ∷ rs) = elim (Bool-cases (comes_after r s)) [
  | inl after ↦
      rw (after, insert_record)
        (Perm.trans (Perm.cons s (insert_record-perm r rs)) (Perm.swap r s rs))
  | inr first ↦ rw (first, insert_record) Perm.rfl
]

sort_records-perm : (rs : List MemoryRecord) → Perm (sort_records rs) rs
unfolding sort_records
sort_records-perm [] = Perm.rfl
sort_records-perm (r ∷ rs) =
    Perm.trans (insert_record-perm r (sort_records rs)) (Perm.cons r (sort_records-perm rs))

length-insert_record :
    (r : MemoryRecord) (rs : List MemoryRecord) → length (insert_record r rs) ≡ length rs + 1
unfolding insert_record
length-insert_record r [] = omega arith
length-insert_record r (s ∷ rs) = ground (arith, length-insert_record r rs)

length-sort_records : (rs : List MemoryRecord) → length (sort_records rs) ≡ length rs
unfolding sort_records
length-sort_records [] = refl
length-sort_records (r ∷ rs) =
    omega (arith, length-insert_record r (sort_records rs), length-sort_records rs)

length-take : (n : ℕ) (rs : List MemoryRecord) → length (take n rs) ≡ min n (length rs)
length-take zero rs = omega arith
length-take (suc n) [] = omega arith
length-take (suc n) (r ∷ rs) = omega (arith, length-take n rs)

All-drop :
    (P : MemoryRecord → Type 0) (n : ℕ) (rs : List MemoryRecord) → All P rs → All P (drop n rs)
All-drop P zero rs h = h
All-drop P (suc n) [] h = tt
All-drop P (suc n) (r ∷ rs) h = All-drop P n rs h.1

-- What is taken from a sorted list comes before what is left.
taken-IsFirst :
    (n : ℕ) (rs : List MemoryRecord)
    → IsSorted rs
    → All (λ a. All (IsFirst a) (drop n rs)) (take n rs)
taken-IsFirst zero rs s = tt
taken-IsFirst (suc n) [] s = tt
taken-IsFirst (suc n) (r ∷ rs) s = (All-drop (IsFirst r) n rs s.0, taken-IsFirst n rs s.1)

abbrev pub evictable : List MemoryRecord → List MemoryRecord
evictable rs = keep (λ r. not (is_pinned r)) rs

select_eviction_candidates-take :
    (rs : List MemoryRecord) (count : ℕ)
    → select_eviction_candidates rs count ≡ take count (sort_records (evictable rs))
unfolding select_eviction_candidates
select_eviction_candidates-take rs zero = refl
select_eviction_candidates-take rs (suc count) = refl

-- The records to evict and those that are spared are together the records that are not pinned; as
-- many are evicted as were asked for, or all of them, and each that is evicted is less important
-- than each that is spared, or as important and not newer.
pub select_eviction_candidates-IsFirst :
    (rs : List MemoryRecord) (count : ℕ)
    → (spared : List MemoryRecord) × Perm
        (select_eviction_candidates rs count ++ spared)
        (evictable rs)
      × (length (select_eviction_candidates rs count) ≡ min count (length (evictable rs)))
      × All (λ a. All (IsFirst a) spared) (select_eviction_candidates rs count)
select_eviction_candidates-IsFirst rs count =
    let sorted = sort_records (evictable rs) in
    rw (select_eviction_candidates-take rs count) (
      drop count sorted,
      subst (λ all. Perm all (evictable rs)) (sym (take-drop count sorted))
          (sort_records-perm (evictable rs)),
      length-take count sorted ∙ ap (min count) (length-sort_records (evictable rs)),
      taken-IsFirst count sorted (sort_records-IsSorted (evictable rs)),
    )
