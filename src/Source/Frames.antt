-- ===== src/Source/Frames.antt =====
-- What a source sends is what the merger's buffer holds after it has been taken in.
use zdaq.Base.{
  ℕ, ◌+◌, ◌-◌, ◌^◌, ◌≤◌, ◌<◌, ◌≡◌, refl, ap, ◌∙◌, sym, subst, arith, le→leb, u32, length, true,
  some, ok, [],
}
use zdaq.Base.Memory.{blit, slice, read, length-slice, blit_empty, slice-slice}
use zdaq.Zlib.{Zlib, compress_bound}
use zdaq.Buffer.{
  Buffer, payload, image, size, new, set_size, set_payload_size, set_event_id, set_bx_id, compress,
  uncompress, detector_id, data_source_id, event_id, bx_id,
}
use zdaq.Buffer.Fields.{Packet, view, view-setters}
use zdaq.Buffer.Compression.{
  HasRoom, marked, compress_always, uncompress-cases, length-deflate, length-payload,
}
use zdaq.Merger.Receive.{copy_in, buffer_size}
use zdaq.Source.{Source, frame}

-- A message body holds the header and the whole payload of the buffer that it was copied from.
copy_in-image :
    (b : Buffer)
    → 20 + b.psize ≤ buffer_size
    → (r : Buffer) × (copy_in (image b) ≡ ok r)
      × (view r ≡ view b)
      × (r.cap ≡ buffer_size)
      × (r.psize ≡ b.psize)
unfolding copy_in image size new set_size view detector_id data_source_id event_id bx_id payload
    read
copy_in-image b fits =
    let k = u32 (b.psize + 20) in
    let long = length-slice 0 k b.mem in
    let full : 20 + b.psize ≡ k = omega arith in
    let same = blit_empty (slice 0 k b.mem) in
    let sized : u32 (length (slice 0 k b.mem) + 2 ^ 32 - 20) ≡ b.psize = omega (arith, long) in
    (
      record {
        cap = buffer_size;
        mem = blit 0 (slice 0 k b.mem) [];
        psize = u32 (length (slice 0 k b.mem) + 2 ^ 32 - 20);
      },
      rw (le→leb (length (slice 0 k b.mem)) buffer_size (omega (arith, long))),
      rw (same, sized)
          (ground (
            arith,
            slice-slice 0 4 k b.mem (omega arith),
            slice-slice 4 4 k b.mem (omega arith),
            slice-slice 8 4 k b.mem (omega arith),
            slice-slice 12 8 k b.mem (omega arith),
            slice-slice 20 b.psize k b.mem (omega arith),
          )),
      refl,
      sized,
    )

-- The buffer of a source as `publish` sets it before it compresses.
prepared : ℕ → ℕ → ℕ → Buffer → Buffer
prepared bx gtc len b = set_payload_size len (set_event_id gtc (set_bx_id bx b))

abbrev announced : ℕ → ℕ → ℕ → Buffer → Packet
announced bx gtc len b = record (view b) { event = gtc; bx = bx; body = slice 20 len b.mem }

view-prepared :
    (bx gtc len : ℕ) (b : Buffer)
    → bx < 2 ^ 64
    → gtc < 2 ^ 32
    → view (prepared bx gtc len b) ≡ announced bx gtc len b
unfolding prepared set_payload_size set_event_id set_bx_id view detector_id data_source_id event_id
    bx_id payload
view-prepared bx gtc len b hb hg =
    let a = set_payload_size len b in
    (view-setters (set_bx_id bx a) 0 0 gtc 0 (omega arith) hg (omega arith)).2
    ∙ ap (λ (v : Packet). record v { event = gtc })
        ((view-setters a 0 0 0 bx (omega arith) (omega arith) hb).3)

-- A source's allocation holds the payload, compressed at the worst, and a merger's buffer holds the
-- source's.
pub record Fits (len : ℕ) (b : Buffer) : Type 0 where
  pub inside : 20 + len ≤ b.cap
  pub in_cap : 20 + compress_bound len ≤ b.cap
  pub in_merger : b.cap ≤ buffer_size

prepared-HasRoom : (bx gtc len : ℕ) (b : Buffer) → Fits len b → HasRoom (prepared bx gtc len b)
unfolding prepared set_payload_size set_event_id set_bx_id
prepared-HasRoom bx gtc len b f = record {
  inside = f.inside;
  in_cap = f.in_cap;
  in_obuf = omega (arith, f.in_cap, f.in_merger);
}

frame_ok :
    (z : Zlib) (bx gtc len : ℕ) (s : Source) (c : Buffer)
    → s.compress ≡ true
    → compress z (prepared bx gtc len s.buffer) ≡ ok c
    → 20 + c.psize ≤ c.cap
    → frame z bx gtc len s ≡ ok (record s { buffer = c }, image c)
unfolding frame prepared size
frame_ok z bx gtc len s c on made fits =
    rw (on, made, le→leb (u32 (c.psize + 20)) c.cap (omega arith))

-- What is taken in from a compressed buffer expands to the payload before compression.
pub expand_received :
    (z : Zlib) (b c : Buffer)
    → HasRoom b
    → b.cap ≤ buffer_size
    → compress z b ≡ ok c
    → (r e : Buffer) × (copy_in (image c) ≡ ok r)
      × (uncompress z r ≡ ok e)
      × (view e ≡ record (view b) { flags = marked (view b).flags - 1; body = payload b })
unfolding view
expand_received z b c room small made =
    let (c', made', seen, cap_c, sized_c) = compress_always z b room in
    let same : c' ≡ c = cc (made, made') in
    let sized : c.psize ≡ length (z.deflate (payload b)) =
      subst (λ x. x.psize ≡ length (z.deflate (payload b))) same sized_c in
    let (r, taken, seen_r, cap_r, sized_r) =
      copy_in-image c (omega (arith, sized, length-deflate z b, room.in_cap)) in
    let seen' = seen_r ∙ ap view (sym same) ∙ seen in
    let inflated : z.inflate (payload r) ≡ some (payload b) =
      ap (λ v. z.inflate v.body) seen' ∙ z.inflate-deflate (payload b) in
    let flags' = ap (λ v. v.flags) seen' in
    let (e, expanded, seen_e, _, _) =
      (uncompress-cases z r).1 (payload b) (ground arith) inflated
        (omega (arith, cap_r, sized_r, sized, length-deflate z b, room.in_cap))
        (omega (arith, cap_r, length-payload b, room.inside))
        (omega (arith, length-payload b, room.in_obuf)) in
    (
      r,
      e,
      taken,
      expanded,
      seen_e ∙ ap (λ (v : Packet). record v { flags = v.flags - 1; body = payload b }) seen',
    )

-- With compression on, the body that `publish` sends is taken in and expanded to the payload that the
-- caller had written, under the event and crossing numbers given and the source's own identities.
pub frame-received :
    (z : Zlib) (bx gtc len : ℕ) (s : Source)
    → s.compress ≡ true
    → bx < 2 ^ 64
    → gtc < 2 ^ 32
    → Fits len s.buffer
    → (c r e : Buffer) × (frame z bx gtc len s ≡ ok (record s { buffer = c }, image c))
      × (copy_in (image c) ≡ ok r)
      × (uncompress z r ≡ ok e)
      × (view e ≡ record (view s.buffer) {
        flags = marked (view s.buffer).flags - 1;
        event = gtc;
        bx = bx;
        body = slice 20 len s.buffer.mem;
      })
      × (c.cap ≡ s.buffer.cap)
      × (view c ≡ record (view s.buffer) {
        flags = marked (view s.buffer).flags;
        event = gtc;
        bx = bx;
        body = z.deflate (slice 20 len s.buffer.mem);
      })
frame-received z bx gtc len s on hb hg f =
    let b = prepared bx gtc len s.buffer in
    let room = prepared-HasRoom bx gtc len s.buffer f in
    let (c, made, seen_c, cap_c, sized_c) = compress_always z b room in
    let roomy : 20 + c.psize ≤ c.cap =
      omega (arith, cap_c, sized_c, length-deflate z b, room.in_cap) in
    let small : b.cap ≤ buffer_size =
      unfold prepared set_payload_size set_event_id set_bx_id in f.in_merger in
    let (r, e, taken, expanded, seen) = expand_received z b c room small made in
    let prep = view-prepared bx gtc len s.buffer hb hg in
    (
      c,
      r,
      e,
      frame_ok z bx gtc len s c on made roomy,
      taken,
      expanded,
      seen ∙ unfold view in ap (λ (v : Packet). record v { flags = marked v.flags - 1 }) prep,
      cap_c ∙ unfold prepared set_payload_size set_event_id set_bx_id in refl,
      seen_c
          ∙ unfold view in
            ap (λ (v : Packet). record v { flags = marked v.flags; body = z.deflate v.body }) prep,
    )
