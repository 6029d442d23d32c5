-- ===== src/Buffer/Compression.antt =====
-- `compress` and `uncompress`: what they do to the payload and to the flag in the first word.
use zdaq.Base.{
  ℕ, subst, ◌+◌, ◌-◌, ◌/◌, ◌%◌, ◌^◌, ◌≤◌, ◌<◌, ◌≡◌, refl, ap, ◌∙◌, some, arith, le→leb, ◌==◌,
  if◌then◌else◌, length, ok, false,
}
use zdaq.Base.Memory.{
  memory_laws, Bytes, blit, read, write, read_lt, read-blit_before, length-slice,
}
use zdaq.Zlib.{Zlib, compress_bound}
use zdaq.Buffer.{
  Buffer, detector_id, data_source_id, event_id, bx_id, payload, masked, with_bit, without_bit,
  replace, compress, uncompress, obuf_size,
}
use zdaq.Buffer.Fields.{Packet, view}

abbrev pub marked : ℕ → ℕ
marked f = if f % 2 == 0 then f + 1 else f

-- The result of `replace`, field by field.
record IsReplaced (b c : Buffer) (flags : ℕ) (out : Bytes) : Type 0 where
  seen : view c ≡ record (view b) { flags = flags; body = out }
  cap_kept : c.cap ≡ b.cap
  sized : c.psize ≡ length out

module _ (b : Buffer) (out : Bytes) (flag : ℕ → ℕ) where
  replaced : Buffer
  replaced =
      let mem = blit 20 out b.mem in
      record b { mem = write 0 4 (flag (read 0 4 mem)) mem; psize = length out }

  replace_ok : 20 + length out ≤ b.cap → replace out flag b ≡ ok replaced
  unfolding replace replaced
  replace_ok fits = rw (le→leb _ _ fits)

  replaced-IsReplaced :
      flag (read 0 4 b.mem) < 2 ^ 32
      → flag (read 0 4 b.mem) % 2 ^ 16 ≡ read 0 4 b.mem % 2 ^ 16
      → IsReplaced b replaced (flag (read 0 4 b.mem) / 2 ^ 16) out
  unfolding replaced view detector_id data_source_id event_id bx_id payload
  replaced-IsReplaced small low =
      let mem = blit 20 out b.mem in
      let w = flag (read 0 4 mem) in
      let before = ap flag (read-blit_before 0 4 20 out b.mem (omega arith)) in
      record { seen = grind (memory_laws, before); cap_kept = refl; sized = refl }

-- The guard of `compress` compares a value that is 0 or 65536 with 1.
guard_dead : (b : Buffer) → (masked b == 1) ≡ false
guard_dead b = ground arith

-- A buffer whose payload, compressed at the worst, fits in its allocation and in `obuf`.
pub record HasRoom (b : Buffer) : Type 0 where
  pub inside : 20 + b.psize ≤ b.cap
  pub in_cap : 20 + compress_bound b.psize ≤ b.cap
  pub in_obuf : compress_bound b.psize ≤ obuf_size

pub length-deflate :
    (z : Zlib) (b : Buffer) → length (z.deflate (payload b)) ≤ compress_bound b.psize
unfolding payload
length-deflate z b =
    subst (λ k. length (z.deflate (payload b)) ≤ compress_bound k) (length-slice 20 b.psize b.mem)
      (z.length-deflate (payload b))

-- Compression never takes its early return: whatever the flag says, the payload is compressed (again)
-- and the flag is set afterwards.
pub compress_always :
    (z : Zlib) (b : Buffer)
    → HasRoom b
    → (c : Buffer) × (compress z b ≡ ok c)
      × (view c ≡ record (view b) { flags = marked (view b).flags; body = z.deflate (payload b) })
      × (c.cap ≡ b.cap)
      × (c.psize ≡ length (z.deflate (payload b)))
unfolding compress view detector_id
compress_always z b room =
    let out = z.deflate (payload b) in
    let bound = length-deflate z b in
    let done =
      replaced-IsReplaced b out with_bit (ground (arith, read_lt 0 4 b.mem))
        (ground (arith, read_lt 0 4 b.mem)) in
    (
      replaced b out with_bit,
      rw
          (
            guard_dead b,
            le→leb _ _ room.inside,
            le→leb (length out) obuf_size (omega (arith, room.in_obuf)),
          )
          (replace_ok b out with_bit (omega (arith, room.in_cap))),
      done.seen ∙ ap (λ f. record (view b) { flags = f; body = out }) (ground arith),
      done.cap_kept,
      done.sized,
    )

-- A marked payload that zlib accepts is replaced by its expansion and the mark is taken away; a
-- buffer with no mark is left as it is.
pub uncompress-cases :
    (z : Zlib) (b : Buffer)
    → ((view b).flags % 2 ≡ 0 → uncompress z b ≡ ok b)
      × ((p : Bytes)
          → (view b).flags % 2 ≡ 1
          → z.inflate (payload b) ≡ some p
          → 20 + b.psize ≤ b.cap
          → 20 + length p ≤ b.cap
          → length p ≤ obuf_size
          → (c : Buffer) × (uncompress z b ≡ ok c)
            × (view c ≡ record (view b) { flags = (view b).flags - 1; body = p })
            × (c.cap ≡ b.cap)
            × (c.psize ≡ length p))
unfolding uncompress view detector_id
uncompress-cases z b = (
  λ clear. ground arith,
  λ p set inflated inside fits small.
      let done =
        replaced-IsReplaced b p without_bit (ground (arith, read_lt 0 4 b.mem))
          (ground (arith, read_lt 0 4 b.mem)) in
      let marked_here : (masked b == 0) ≡ false = ground arith in
      (
        replaced b p without_bit,
        rw (marked_here, le→leb _ _ inside, inflated, le→leb (length p) obuf_size small)
            (replace_ok b p without_bit fits),
        done.seen ∙ ap (λ f. record (view b) { flags = f; body = p }) (ground arith),
        done.cap_kept,
        done.sized,
      ),
)

pub length-payload : (b : Buffer) → length (payload b) ≡ b.psize
unfolding payload
length-payload b = length-slice 20 b.psize b.mem

-- What `compress` made is expanded to the payload that it was made from.
pub expand_compressed :
    (z : Zlib) (b : Buffer) (room : HasRoom b) (c : Buffer)
    → compress z b ≡ ok c
    → (d : Buffer) × (uncompress z c ≡ ok d)
      × (view d ≡ record (view b) { flags = marked (view b).flags - 1; body = payload b })
      × (d.cap ≡ b.cap)
      × (d.psize ≡ b.psize)
unfolding view
expand_compressed z b room c made =
    let (c', made', seen, cap_kept, sized) = compress_always z b room in
    let same : c' ≡ c = cc (made, made') in
    let seen' =
      subst
        (λ x.
          view x ≡ record (view b) { flags = marked (view b).flags; body = z.deflate (payload b) })
        same seen in
    let cap' = subst (λ x. x.cap ≡ b.cap) same cap_kept in
    let sized' = subst (λ x. x.psize ≡ length (z.deflate (payload b))) same sized in
    let flags' = ap (λ v. v.flags) seen' in
    let inflated : z.inflate (payload c) ≡ some (payload b) =
      ap (λ v. z.inflate v.body) seen' ∙ z.inflate-deflate (payload b) in
    let (d, expanded, after, cap_d, sized_d) =
      (uncompress-cases z c).1 (payload b) (ground arith) inflated
        (omega (arith, room.in_cap, cap', sized', length-deflate z b))
        (omega (arith, room.inside, cap', length-payload b))
        (omega (arith, room.in_obuf, length-payload b)) in
    (
      d,
      expanded,
      after ∙ ap (λ (v : Packet). record v { flags = v.flags - 1; body = payload b }) seen',
      cap_d ∙ cap',
      sized_d ∙ length-payload b,
    )

-- A buffer that is not marked comes back from `compress` and `uncompress` with every field and the
-- whole payload as they were.
pub uncompress-compress :
    (z : Zlib) (b : Buffer)
    → HasRoom b
    → (view b).flags % 2 ≡ 0
    → (c d : Buffer) × (compress z b ≡ ok c)
      × (uncompress z c ≡ ok d)
      × (view d ≡ view b)
      × (d.cap ≡ b.cap)
      × (d.psize ≡ b.psize)
unfolding view
uncompress-compress z b room clear =
    let (c, made, _, _, _) = compress_always z b room in
    let (d, expanded, seen, cap_kept, sized) = expand_compressed z b room c made in
    (
      c,
      d,
      made,
      expanded,
      seen ∙ ap (λ f. record (view b) { flags = f }) (ground arith),
      cap_kept,
      sized,
    )

-- A second `compress` compresses the compressed payload again, and one `uncompress` then gives back
-- the first compression, marked as if it were plain.
pub compress_twice :
    (z : Zlib) (b c d : Buffer)
    → HasRoom b
    → compress z b ≡ ok c
    → HasRoom c
    → compress z c ≡ ok d
    → (e : Buffer) × (uncompress z d ≡ ok e)
      × (payload e ≡ z.deflate (payload b))
      × ((view e).flags % 2 ≡ 0)
      × (uncompress z e ≡ ok e)
unfolding view
compress_twice z b c d room_b once room_c twice =
    let (c', once', seen, _, _) = compress_always z b room_b in
    let same : c' ≡ c = cc (once, once') in
    let body_c : payload c ≡ z.deflate (payload b) =
      subst (λ x. payload x ≡ z.deflate (payload b)) same (ap (λ v. v.body) seen) in
    let (e, expanded, after, _, _) = expand_compressed z c room_c d twice in
    let clear : (view e).flags % 2 ≡ 0 = ap (λ v. v.flags % 2) after ∙ ground arith in
    (e, expanded, ap (λ v. v.body) after ∙ body_c, clear, (uncompress-cases z e).0 clear)
