-- ===== src/Memory/Indexer.antt =====
-- packages/memory/src/MemoryIndexer.ts: a memory's content cut into chunks that overlap. The id of a
-- chunk is its parent's id with its index; the embedding and the metadata, which it copies, are left
-- out. The case mapping of the search is a parameter.
pub mod Chunks
use agent_os.Base.{
  ℕ, zero, suc, ◌+◌, ◌-◌, String, string_eq, nat_eq, Bool, true, false, ◌||◌, List, [], ◌∷◌, ◌++◌,
  map, Option, none, some, ◌==◌, if◌then◌else◌, ltb, leb, min, length, take, drop, keep,
  Option-cases,
}
use agent_os.Base.Int.{ℤ, pos, negsuc, sub_ℕ, ◌+ℤ◌, ltb_ℤ, min_ℤ}
use agent_os.Base.Map.{Map, get, put, remove, has, keys}
use agent_os.Memory.Types.{MemoryRecord}

pub record MemoryChunk : Type 0 where
  pub id : String × ℕ
  pub parent_id : String
  pub content : List ℕ
  pub index : ℕ

pub record MemoryIndexerOptions : Type 0 where
  pub chunk_size : ℕ
  pub chunk_overlap : ℕ

unfoldable pub default_indexer_options : MemoryIndexerOptions
default_indexer_options = record { chunk_size = 1000; chunk_overlap = 100 }

-- The place that an argument of `slice` stands for: a negative one counts from the end.
abbrev pub place_of : ℤ → ℕ → ℕ
place_of (pos n) length = min n length
place_of (negsuc n) length = length - suc n

-- `content.slice(start, end)`
abbrev pub slice : List ℕ → ℤ → ℤ → List ℕ
slice content start end =
    let from = place_of start (length content) in
    take (place_of end (length content) - from) (drop from content)

abbrev pub chunk_of : String → ℕ → List ℕ → MemoryChunk
chunk_of id index content = record {
  id = (id, index);
  parent_id = id;
  content = content;
  index = index;
}

abbrev pub cons_chunk : MemoryChunk → Option (List MemoryChunk) → Option (List MemoryChunk)
cons_chunk c none = none
cons_chunk c (some cs) = some (c ∷ cs)

-- The `while` loop; `none` is that the fuel ran out. A start can go below 0, when the overlap is
-- more than the size.
unfoldable pub chunks_from :
    MemoryIndexerOptions → String → List ℕ → ℕ → (start : ℤ) (index : ℕ) → Option (List MemoryChunk)
unfolding ◌+ℤ◌ ltb_ℤ min_ℤ
chunks_from o id content zero start index = none
chunks_from o id content (suc fuel) start index =
    let end = min_ℤ (start +ℤ pos o.chunk_size) (pos (length content)) in
    let next = start +ℤ sub_ℕ o.chunk_size o.chunk_overlap in
    let rest = chunks_from o id content fuel next (index + 1) in
    if ltb_ℤ start (pos (length content))
    then cons_chunk (chunk_of id index (slice content start end)) rest
    else some []

-- With a round for each unit of the content, and one more.
unfoldable pub chunk_content : MemoryIndexerOptions → MemoryRecord → Option (List MemoryChunk)
unfolding chunks_from
chunk_content o r =
    if leb (length r.content) o.chunk_size
    then some (chunk_of r.id 0 r.content ∷ [])
    else chunks_from o r.id r.content (length r.content + 1) (pos 0) 0

pub record MemoryIndexer : Type 0 where
  pub options : MemoryIndexerOptions
  pub chunks : Map String (List MemoryChunk)

abbrev index_with : MemoryRecord → Option (List MemoryChunk) → MemoryIndexer → Option MemoryIndexer
index_with r none s = none
index_with r (some chunks) s = some (record s { chunks = put s.chunks r.id chunks })

unfoldable pub index : MemoryRecord → MemoryIndexer → Option MemoryIndexer
unfolding chunk_content
index r s = index_with r (chunk_content s.options r) s

abbrev or_none : Option (List MemoryChunk) → List MemoryChunk
or_none none = []
or_none (some chunks) = chunks

unfoldable pub get_chunks : MemoryIndexer → String → List MemoryChunk
get_chunks s memory_id = or_none (get s.chunks memory_id)

-- The index without the memory, and whether it was there. `remove` of the class.
unfoldable pub remove_chunks : String → MemoryIndexer → MemoryIndexer × Bool
remove_chunks memory_id s =
    (record s { chunks = remove s.chunks memory_id }, has s.chunks memory_id)

unfoldable pub get_indexed_ids : MemoryIndexer → List String
get_indexed_ids s = keys s.chunks

count_chunks : Map String (List MemoryChunk) → ℕ
count_chunks [] = 0
count_chunks ((id, chunks) ∷ m) = length chunks + count_chunks m

unfoldable pub get_chunk_count : MemoryIndexer → ℕ
unfolding count_chunks
get_chunk_count s = count_chunks s.chunks

unfoldable pub clear_chunks : MemoryIndexer → MemoryIndexer
clear_chunks s = record s { chunks = [] }

-- `text.startsWith(part)` and `text.includes(part)`
starts_with : List ℕ → List ℕ → Bool
starts_with part [] = if length part == 0 then true else false
starts_with [] (x ∷ text) = true
starts_with (y ∷ part) (x ∷ text) =
    let rest = starts_with part text in if x == y then rest else false

contains_text : List ℕ → List ℕ → Bool
unfolding starts_with
contains_text part [] = starts_with part []
contains_text part (x ∷ text) =
    let rest = contains_text part text in starts_with part (x ∷ text) || rest

search_in : (List ℕ → List ℕ) → List ℕ → Map String (List MemoryChunk) → List MemoryChunk
unfolding contains_text
search_in lower part [] = []
search_in lower part ((id, chunks) ∷ m) =
    keep (λ (c : MemoryChunk). contains_text part (lower c.content)) chunks
    ++ search_in lower part m

unfoldable pub search_chunks : (List ℕ → List ℕ) → MemoryIndexer → List ℕ → List MemoryChunk
unfolding search_in
search_chunks lower s text = search_in lower (lower text) s.chunks
