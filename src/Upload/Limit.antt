-- ===== src/Upload/Limit.antt =====
-- Reading an upload in chunks, against its length.
use image_genie.Base.{
  ℕ, zero, suc, ◌+◌, ◌≤◌, ◌<◌, ◌≡◌, refl, sym, ap, ◌∙◌, inl, inr, Bool, true, false, [], ◌∷◌, ◌++◌,
  arith, ltb, if◌then◌else◌, ltb→lt, lt→ltb, Bool-cases, length, take, drop, take-append-drop,
  length-take, length-drop,
}
use mathlib.Core.Path.{sym}
use mathlib.Core.List.{append_assoc, append-nil}
use image_genie.Pipeline.{Blob}
use image_genie.Upload.{
  ReadResult, read_bytes, over_limit, read_chunks, unless_empty, read_within_limit, chunk_bytes,
}

abbrev within_limit : ℕ → ℕ → Blob → ReadResult
within_limit max_bytes size bytes = if ltb max_bytes size then over_limit else read_bytes bytes

read_chunks_lem :
    (fuel chunk_size max_bytes : ℕ) (left : Blob) (total : ℕ) (so_far : Blob)
    → 0 < chunk_size
    → length left ≤ fuel
    → total ≤ max_bytes
    → read_chunks fuel chunk_size max_bytes left total so_far
      ≡ within_limit max_bytes (total + length left) (so_far ++ left)
unfolding read_chunks
read_chunks_lem zero chunk_size max_bytes [] total so_far pos enough fits =
    let under : ltb max_bytes (total + 0) ≡ false = ground (arith, fits) in
    rw (under, append-nil so_far) refl
read_chunks_lem zero chunk_size max_bytes (b ∷ left) total so_far pos enough fits =
    absurd (omega arith)
read_chunks_lem (suc fuel) chunk_size max_bytes [] total so_far pos enough fits =
    let under : ltb max_bytes (total + 0) ≡ false = ground (arith, fits) in
    rw (under, append-nil so_far) refl
read_chunks_lem (suc fuel) chunk_size max_bytes (b ∷ left) total so_far pos enough fits =
    let all = b ∷ left in
    let chunk = take chunk_size all in
    let short = length-take chunk_size all in
    let gone = length-drop chunk_size all in
    elim (Bool-cases (ltb max_bytes (total + length chunk))) [
      | inl over ↦
          let too : ltb max_bytes (total + length all) ≡ true =
            lt→ltb max_bytes (total + length all)
              (omega (arith, short, ltb→lt max_bytes (total + length chunk) over)) in
          rw (over, too) refl
      | inr under ↦
          let still : total + length chunk ≤ max_bytes = ground (arith, under) in
          let size : total + length chunk + length (drop chunk_size all) ≡ total + length all =
            omega (arith, short, gone) in
          let whole : (so_far ++ chunk) ++ drop chunk_size all ≡ so_far ++ all =
            append_assoc so_far chunk (drop chunk_size all)
            ∙ ap (λ l. so_far ++ l) (take-append-drop chunk_size all) in
          let rest =
            read_chunks_lem fuel chunk_size max_bytes (drop chunk_size all) (total + length chunk)
              (so_far ++ chunk) pos (omega (arith, gone, enough)) still in
          rw under (rest ∙ rw (size, whole) refl)
    ]

-- An upload is read whole when it is neither empty nor over the limit, and refused otherwise, whatever the size
-- of the chunks.
pub read_within_limit_lem :
    (chunk_size max_bytes : ℕ) (upload : Blob)
    → 0 < chunk_size
    → read_within_limit chunk_size max_bytes upload
      ≡ (if ltb max_bytes (length upload) then over_limit else unless_empty (read_bytes upload))
unfolding read_within_limit
read_within_limit_lem chunk_size max_bytes upload pos =
    let read =
      read_chunks_lem (length upload) chunk_size max_bytes upload 0 [] pos (omega arith)
        (omega arith) in
    let zero_add : 0 + length upload ≡ length upload = omega arith in
    ap unless_empty read ∙ pick (ltb max_bytes (0 + length upload)) ∙ rw zero_add refl
  where
    pick :
        (b : Bool)
        → unless_empty (if b then over_limit else read_bytes upload)
          ≡ (if b then over_limit else unless_empty (read_bytes upload))
    pick true = refl
    pick false = refl

whole_file :
    (over : Bool) (upload bytes : Blob)
    → (if over then over_limit else unless_empty (read_bytes upload)) ≡ read_bytes bytes
    → (over ≡ false) × (bytes ≡ upload) × (0 < length upload)
whole_file true upload bytes h = cc h
whole_file false [] bytes h = cc h
whole_file false (b ∷ upload) bytes h = (refl, cc h, omega arith)

pub read_bytes-whole :
    (max_bytes : ℕ) (upload bytes : Blob)
    → read_within_limit chunk_bytes max_bytes upload ≡ read_bytes bytes
    → (bytes ≡ upload) × (length upload ≤ max_bytes) × (0 < length upload)
read_bytes-whole max_bytes upload bytes h =
    let (under, whole, not_empty) =
      whole_file (ltb max_bytes (length upload)) upload bytes
        (sym (read_within_limit_lem chunk_bytes max_bytes upload (omega arith)) ∙ h) in
    (whole, ground (arith, under), not_empty)
