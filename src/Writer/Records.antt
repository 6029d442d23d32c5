-- ===== src/Writer/Records.antt =====
-- The format of a binary file, by a reader of its own, and what the writer puts into it.
use zdaq.Base.{
  ℕ, zero, suc, ◌+◌, ◌-◌, ◌^◌, ◌≤◌, ◌<◌, ◌≡◌, refl, ap, ◌∙◌, sym, subst, false, List, [], ◌∷◌, ◌++◌,
  map, length, All, arith, u32, ok, le→leb,
}
use mathlib.Core.List.{append-nil, append_assoc}
use zdaq.Base.Memory.{
  Bytes, cut, cut-append, encode, decode, decode-encode, length-encode, length-slice,
}
use zdaq.Zlib.{Zlib}
use zdaq.Buffer.{Buffer, size, image, uncompress, payload}
use zdaq.Buffer.Fields.{view}
use zdaq.Buffer.Compression.{HasRoom, marked, compress_always, length-deflate}
use zdaq.Merger.Receive.{copy_in, buffer_size}
use zdaq.Source.Frames.{expand_received}
use zdaq.Writer.{Writer, append_to, block, store_buffer, store_buffers, record_event}

-- Read `n` bytes as a number, and give the rest.
abbrev number_in : ℕ → Bytes → ℕ × Bytes
number_in n s = let (digits, rest) = cut n s in (decode digits, rest)

read_blocks : ℕ → Bytes → List Bytes × Bytes
read_blocks zero s = ([], s)
read_blocks (suc k) s =
    let (n, more) = number_in 4 s in
    let (body, rest) = cut n more in let later = read_blocks k rest in (body ∷ later.0, later.1)

-- An event number, the bodies of the buffers, and what stands behind them.
unfoldable pub read_record : Bytes → ℕ × List Bytes × Bytes
unfolding read_blocks
read_record s =
    let (event, more) = number_in 4 s in
    let (count, bodies) = number_in 4 more in
    let (blocks, rest) = read_blocks count bodies in (event, blocks, rest)

abbrev pub blocks : List Buffer → Bytes
blocks [] = []
blocks (c ∷ cs) = block c ++ blocks cs

-- What one event adds to the file.
abbrev pub recorded : ℕ → List Buffer → Bytes
recorded event cs = (encode 4 event ++ encode 4 (u32 (length cs))) ++ blocks cs

cut_word : (v : ℕ) (s : Bytes) → cut 4 (encode 4 v ++ s) ≡ (encode 4 v, s)
cut_word v s =
    subst (λ n. cut n (encode 4 v ++ s) ≡ (encode 4 v, s)) (length-encode 4 v)
      (cut-append (encode 4 v) s)

cut-image : (c : Buffer) (s : Bytes) → cut (size c) (image c ++ s) ≡ (image c, s)
unfolding image
cut-image c s =
    subst (λ n. cut n (image c ++ s) ≡ (image c, s)) (length-slice 0 (size c) c.mem)
      (cut-append (image c) s)

read_blocks_step :
    (k : ℕ) (c : Buffer) (s : Bytes)
    → read_blocks (suc k) (encode 4 (size c) ++ (image c ++ s))
      ≡ (image c ∷ (read_blocks k s).0, (read_blocks k s).1)
unfolding read_blocks
read_blocks_step k c s =
    rw
      (
        cut_word (size c) (image c ++ s),
        decode-encode 4 (size c) (unfold size in omega arith),
        cut-image c s,
      )
      refl

read_blocks-blocks :
    (cs : List Buffer) (rest : Bytes)
    → read_blocks (length cs) (blocks cs ++ rest) ≡ (map image cs, rest)
unfolding read_blocks
read_blocks-blocks [] rest = refl
read_blocks-blocks (c ∷ cs) rest =
    ap (read_blocks (suc (length cs))) (
      append_assoc (block c) (blocks cs) rest
      ∙ append_assoc (encode 4 (size c)) (image c) (blocks cs ++ rest))
    ∙ read_blocks_step (length cs) c (blocks cs ++ rest)
    ∙ ap (λ p. (image c ∷ p.0, p.1)) (read_blocks-blocks cs rest)

read_record-recorded :
    (event : ℕ) (cs : List Buffer) (rest : Bytes)
    → event < 2 ^ 32
    → length cs < 2 ^ 32
    → read_record (recorded event cs ++ rest) ≡ (event, map image cs, rest)
unfolding read_record
read_record-recorded event cs rest small few =
    let counted : u32 (length cs) ≡ length cs = omega arith in
    let tail = blocks cs ++ rest in
    ap read_record (
      append_assoc (encode 4 event ++ encode 4 (u32 (length cs))) (blocks cs) rest
      ∙ append_assoc (encode 4 event) (encode 4 (u32 (length cs))) tail)
    ∙ rw
        (
          cut_word event (encode 4 (u32 (length cs)) ++ tail),
          decode-encode 4 event small,
          cut_word (u32 (length cs)) tail,
          decode-encode 4 (u32 (length cs)) (omega arith),
          counted,
          read_blocks-blocks cs rest,
        )
        refl

-- The buffers of an event and their images in the file: taken in as a merger takes them in, and
-- expanded, an image holds what the buffer held.
pub data AllStored (z : Zlib) : List Buffer → List Buffer → Type 0 where
  none_left : AllStored z [] []
  stored :
      {b c : Buffer} {bs cs : List Buffer} (r e : Buffer)
      → copy_in (image c) ≡ ok r
      → uncompress z r ≡ ok e
      → view e ≡ record (view b) { flags = marked (view b).flags - 1; body = payload b }
      → AllStored z bs cs
      → AllStored z (b ∷ bs) (c ∷ cs)

-- A buffer that a merger hands over: compressible in place, and no larger than a merger's.
pub record IsStorable (b : Buffer) : Type 0 where
  pub room : HasRoom b
  pub small : b.cap ≤ buffer_size

append_to_twice :
    (s t : Bytes) (fs : List Bytes) → append_to t (append_to s fs) ≡ append_to (s ++ t) fs
append_to_twice s t [] = refl
append_to_twice s t (f ∷ fs) = ap (λ x. x ∷ fs) (append_assoc f s t)

append_to_nothing : (fs : List Bytes) → append_to [] fs ≡ fs
append_to_nothing [] = refl
append_to_nothing (f ∷ fs) = ap (λ x. x ∷ fs) (append-nil f)

module _ (z : Zlib) where
  store_one :
      (b : Buffer) (w : Writer)
      → IsStorable b
      → (c r e : Buffer) × (w' : Writer) × (store_buffer z b w ≡ ok (w', c))
        × (w'.files ≡ append_to (block c) w.files)
        × (w'.event ≡ w.event)
        × (copy_in (image c) ≡ ok r)
        × (uncompress z r ≡ ok e)
        × (view e ≡ record (view b) { flags = marked (view b).flags - 1; body = payload b })
  unfolding store_buffer
  store_one b w fit =
      let (c, made, seen, cap_kept, sized) = compress_always z b fit.room in
      let (r, e, taken, expanded, shown) = expand_received z b c fit.room fit.small made in
      let inside : size c ≤ c.cap =
        unfold size in omega (arith, cap_kept, sized, length-deflate z b, fit.room.in_cap) in
      (
        c,
        r,
        e,
        record w { total_size = u32 (w.total_size + size c); files = append_to (block c) w.files },
        rw (made, le→leb (size c) c.cap inside) refl,
        refl,
        refl,
        taken,
        expanded,
        shown,
      )

  store-All :
      (bs : List Buffer) (w : Writer)
      → All IsStorable bs
      → (w' : Writer) × (cs : List Buffer) × (store_buffers z bs w ≡ ok (w', cs))
        × (w'.files ≡ append_to (blocks cs) w.files)
        × (w'.event ≡ w.event)
        × (length cs ≡ length bs)
        × AllStored z bs cs
  unfolding store_buffers
  store-All [] w fit = (w, [], refl, sym (append_to_nothing w.files), refl, refl, none_left)
  store-All (b ∷ bs) w fit =
      let (c, r, e, w₁, one, files₁, event₁, taken, expanded, shown) = store_one b w fit.0 in
      let (w₂, cs, others, files₂, event₂, count, all) = store-All bs w₁ fit.1 in
      (
        w₂,
        c ∷ cs,
        rw (one, others) refl,
        files₂ ∙ ap (append_to (blocks cs)) files₁ ∙ append_to_twice (block c) (blocks cs) w.files,
        event₂ ∙ event₁,
        ap suc count,
        stored r e taken expanded shown all,
      )

  -- An event is written whole: what is added to the file reads back as the event number and a body for
  -- each buffer, whatever follows it in the file; and each body, taken in by a merger and expanded,
  -- has the header fields and the payload of its buffer.
  pub record_event-read_record :
      (dss : List Buffer) (w : Writer)
      → w.dummy ≡ false
      → All IsStorable dss
      → w.event < 2 ^ 32
      → length dss < 2 ^ 32
      → (w' : Writer) × (cs : List Buffer) × (record_event z dss w ≡ ok (w', cs))
        × (w'.files ≡ append_to (recorded w.event cs) w.files)
        × (w'.event ≡ u32 (w.event + 1))
        × ((rest : Bytes)
            → read_record (recorded w.event cs ++ rest) ≡ (w.event, map image cs, rest))
        × AllStored z dss cs
  unfolding record_event
  record_event-read_record dss w real fit small few =
      let head = encode 4 w.event ++ encode 4 (u32 (length dss)) in
      let w₁ = record w { files = append_to head w.files } in
      let (w₂, cs, kept, files₂, event₂, count, all) = store-All dss w₁ fit in
      (
        record w₂ { event = u32 (w₂.event + 1) },
        cs,
        rw (kept, real) refl,
        files₂
            ∙ append_to_twice head (blocks cs) w.files
            ∙ ap (λ n. append_to ((encode 4 w.event ++ encode 4 (u32 n)) ++ blocks cs) w.files)
                (sym count),
        ap (λ n. u32 (n + 1)) event₂,
        λ rest. read_record-recorded w.event cs rest small (omega (arith, count)),
        all,
      )
