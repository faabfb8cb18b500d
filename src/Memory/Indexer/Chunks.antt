-- ===== src/Memory/Indexer/Chunks.antt =====
-- What the chunks of a content are.
use agent_os.Memory.Types.{MemoryRecord}
use agent_os.Memory.Indexer.{
  MemoryChunk, MemoryIndexerOptions, slice, chunk_of, cons_chunk, chunks_from, chunk_content,
}
use agent_os.Base.Int.{ℤ, pos, sub_ℕ, ◌+ℤ◌, ltb_ℤ, min_ℤ, +ℤ-sub_ℕ, ltb_ℤ-+ℤ}
use agent_os.Base.{
  ℕ, zero, suc, ◌+◌, ◌-◌, ◌≤◌, ◌<◌, String, true, List, [], ◌∷◌, ◌++◌, Option, none, some, ◌≡◌,
  refl, ◌∙◌, sym, ap, ltb, leb, min, length, take, drop, take-drop, drop-drop, take-take, drop_all,
  length-take-le, length-drop, take_all, All, arith, Bool-cases, inl, inr,
}

-- The content back from its chunks: the part of each that the next one does not repeat.
abbrev pub join_chunks : ℕ → List MemoryChunk → List ℕ
join_chunks n [] = []
join_chunks n (c ∷ cs) = take n c.content ++ join_chunks n cs

abbrev pub IsShort : ℕ → MemoryChunk → Type 0
IsShort size c = length c.content ≤ size

-- The chunks from a place on.
record IsCut (o : MemoryIndexerOptions) (content : List ℕ) (found : Option (List MemoryChunk))
    : Type 0 where
  chunks : List MemoryChunk
  is_found : found ≡ some chunks
  joined : join_chunks (o.chunk_size - o.chunk_overlap) chunks ≡ content
  short : All (IsShort o.chunk_size) chunks

module _ (o : MemoryIndexerOptions) (id : String) (content : List ℕ) where
  -- What the round at a start has for its chunk.
  abbrev found : ℤ → List ℕ
  found start = slice content start (min_ℤ (start +ℤ pos o.chunk_size) (pos (length content)))

  chunks_from_end :
      (fuel start index : ℕ)
      → length content ≤ start
      → chunks_from o id content (suc fuel) (pos start) index ≡ some []
  unfolding ltb_ℤ
  chunks_from_end fuel start index le = unfold chunks_from in ground arith

  chunks_from_more :
      (fuel : ℕ) (start : ℤ) (index : ℕ)
      → ltb_ℤ start (pos (length content)) ≡ true
      → chunks_from o id content (suc fuel) start index
        ≡ cons_chunk (chunk_of id index (found start)) (
            chunks_from o id content fuel (start +ℤ sub_ℕ o.chunk_size o.chunk_overlap) (index + 1))
  chunks_from_more fuel start index lt = unfold chunks_from in rw lt refl

  found-take :
      (start : ℕ)
      → start < length content
      → found (pos start)
        ≡ take (min (start + o.chunk_size) (length content) - start) (drop start content)
  unfolding ◌+ℤ◌ ltb_ℤ min_ℤ
  found-take start lt = ground arith

  -- The next chunk repeats what this one has after its first units.
  take-found :
      (n start : ℕ)
      → start < length content
      → n ≤ o.chunk_size
      → take n (found (pos start)) ≡ take n (drop start content)
  take-found n start lt le =
      ap (take n) (found-take start lt)
      ∙ elim (Bool-cases (leb (start + o.chunk_size) (length content))) [
        | inl inside ↦
            let whole : min (start + o.chunk_size) (length content) - start ≡ o.chunk_size =
              ground arith in
            rw whole (take-take n o.chunk_size (drop start content) le)
        | inr past ↦
            ap (take n)
              (take_all _ (drop start content) (ground (arith, length-drop start content)))
      ]

  chunks_from-IsCut :
      (fuel start index : ℕ)
      → o.chunk_overlap < o.chunk_size
      → length content - start < fuel
      → IsCut o (drop start content) (chunks_from o id content fuel (pos start) index)
  chunks_from-IsCut zero start index lt enough = absurd (omega arith)
  chunks_from-IsCut (suc fuel) start index lt enough =
      elim (Bool-cases (ltb start (length content))) [
        | inl more ↦
            let step = o.chunk_size - o.chunk_overlap in
            let r = chunks_from-IsCut fuel (start + step) (index + 1) lt (ground arith) in
            let chunk = chunk_of id index (found (pos start)) in
            record {
              chunks = chunk ∷ r.chunks;
              is_found =
                  chunks_from_more fuel (pos start) index (unfold ltb_ℤ in ground arith)
                  ∙ ap (λ z. cons_chunk chunk (chunks_from o id content fuel z (index + 1)))
                      (+ℤ-sub_ℕ start o.chunk_size o.chunk_overlap (omega arith))
                  ∙ ap (cons_chunk chunk) r.is_found;
              joined =
                  ap (λ x. x ++ join_chunks step r.chunks)
                    (take-found step start (ground arith) (omega arith))
                  ∙ ap (λ y. take step (drop start content) ++ y)
                      (r.joined ∙ sym (drop-drop start step (start + step) content refl))
                  ∙ take-drop step (drop start content);
              short = (
                rw (found-take start (ground arith)) (
                    ground (
                      arith,
                      length-take-le (min (start + o.chunk_size) (length content) - start)
                          (drop start content),
                    )),
                r.short,
              );
            }
        | inr over ↦ record {
          chunks = [];
          is_found = chunks_from_end fuel start index (ground arith);
          joined = sym (drop_all start content (ground arith));
          short = tt;
        }
      ]

  -- Where the overlap is not less than the size, no start is past the first one.
  chunks_from_endless :
      (fuel : ℕ) (start : ℤ) (index : ℕ)
      → o.chunk_size ≤ o.chunk_overlap
      → ltb_ℤ start (pos (length content)) ≡ true
      → chunks_from o id content fuel start index ≡ none
  chunks_from_endless zero start index le lt = unfold chunks_from in refl
  chunks_from_endless (suc fuel) start index le lt =
      chunks_from_more fuel start index lt
      ∙ ap (cons_chunk (chunk_of id index (found start))) (
          chunks_from_endless fuel (start +ℤ sub_ℕ o.chunk_size o.chunk_overlap) (index + 1) le
            (ltb_ℤ-+ℤ start o.chunk_size o.chunk_overlap (length content) le lt))

-- With an overlap less than the size, a content longer than the size is cut into chunks that are
-- not longer than the size, and the parts that the next chunk does not repeat, put together, are
-- the content: the loop ends, and loses, repeats and reorders nothing.
pub chunk_content_joined :
    (o : MemoryIndexerOptions) (r : MemoryRecord)
    → o.chunk_overlap < o.chunk_size
    → o.chunk_size < length r.content
    → (chunks : List MemoryChunk) × (chunk_content o r ≡ some chunks)
      × (join_chunks (o.chunk_size - o.chunk_overlap) chunks ≡ r.content)
      × All (IsShort o.chunk_size) chunks
unfolding chunk_content
chunk_content_joined o r lt long =
    let cut = chunks_from-IsCut o r.id r.content (length r.content + 1) 0 0 lt (omega arith) in
    (cut.chunks, ground (arith, cut.is_found), cut.joined, cut.short)

-- With an overlap that is not less than the size, the loop over a content longer than the size
-- never ends, however many rounds it is given.
pub chunk_content_endless :
    (o : MemoryIndexerOptions) (r : MemoryRecord) (fuel : ℕ)
    → o.chunk_size ≤ o.chunk_overlap
    → o.chunk_size < length r.content
    → (chunks_from o r.id r.content fuel (pos 0) 0 ≡ none) × (chunk_content o r ≡ none)
unfolding chunk_content
chunk_content_endless o r fuel le long =
    let within : ltb_ℤ (pos 0) (pos (length r.content)) ≡ true = unfold ltb_ℤ in ground arith in
    let endless = chunks_from_endless o r.id r.content (length r.content + 1) (pos 0) 0 le within in
    (chunks_from_endless o r.id r.content fuel (pos 0) 0 le within, ground (arith, endless))
