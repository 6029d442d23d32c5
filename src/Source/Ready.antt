-- ===== src/Source/Ready.antt =====
-- A source from its constructor on: what every payload and every message leaves in order.
use zdaq.Base.{
  ℕ, ◌+◌, ◌-◌, ◌/◌, ◌%◌, ◌^◌, ◌≤◌, ◌<◌, ◌≡◌, refl, ap, ◌∙◌, sym, subst, true, false, [], ◌∷◌, arith,
  le→leb, length, ok,
}
use zdaq.Base.Memory.{Bytes, blit, slice, read, decode, read-blit_before, slice-blit_self}
use zdaq.Zlib.{Zlib, compress_bound}
use zdaq.Buffer
use zdaq.Buffer.{Buffer, image, uncompress}
use zdaq.Buffer.Fields.{view, view-setters}
use zdaq.Buffer.Compression.{marked}
use zdaq.Wire.{source_header, data_header}
use zdaq.Merger.Receive.{copy_in}
use zdaq.Source.{Source, make, fill, buffer_size, exchange, delivered}
use zdaq.Source.Pusher.{publish}
use zdaq.Source.Frames.{Fits, frame-received}

-- The identities stand in the header text and in the buffer, compression is on, and of the flags
-- at most the mark of a compressed payload is set.
pub record IsReady (det dif : ℕ) (s : Source) : Type 0 where
  pub header : s.header ≡ source_header det dif
  pub compressing : s.compress ≡ true
  pub cap : s.buffer.cap ≡ buffer_size
  pub detector : (view s.buffer).detector ≡ det % 2 ^ 16
  pub source : (view s.buffer).source ≡ dif
  pub flags : (view s.buffer).flags ≤ 1

pub make-IsReady : (det dif : ℕ) → dif < 2 ^ 32 → IsReady det dif (make det dif)
unfolding make
make-IsReady det dif h =
    let b = Buffer.new buffer_size in
    let first = (view-setters b det 0 0 0 (omega arith) (omega arith) (omega arith)).0 in
    let second =
      (view-setters (Buffer.set_detector_id det b) 0 dif 0 0 h (omega arith) (omega arith)).1 in
    let no_flags : (view b).flags ≡ 0 = unfold view Buffer.new read slice decode in refl in
    record {
      header = refl;
      compressing = refl;
      cap = unfold Buffer.set_data_source_id Buffer.set_detector_id Buffer.new in refl;
      detector = ap (λ v. v.detector) second ∙ ap (λ v. v.detector) first;
      source = ap (λ v. v.source) second;
      flags =
          subst (λ f. f ≤ 1) (sym (ap (λ v. v.flags) second ∙ ap (λ v. v.flags) first ∙ no_flags))
            (omega arith);
    }

-- Writing a payload keeps a source ready, and puts the payload where `publish` takes it from.
pub fill-IsReady :
    (det dif : ℕ) (p : Bytes) (s : Source)
    → IsReady det dif s
    → 20 + length p ≤ buffer_size
    → (s' : Source) × (fill p s ≡ ok s')
      × IsReady det dif s'
      × (slice 20 (length p) s'.buffer.mem ≡ p)
unfolding fill view Buffer.detector_id Buffer.data_source_id
fill-IsReady det dif p s r fits = (
  record s { buffer = record b { mem = blit 20 p b.mem } },
  rw (le→leb (20 + length p) s.buffer.cap (omega (arith, r.cap))),
  record {
    header = r.header;
    compressing = r.compressing;
    cap = r.cap;
    detector = ap (λ w. w % 2 ^ 16) (read-blit_before 0 4 20 p b.mem (omega arith)) ∙ r.detector;
    source = read-blit_before 4 4 20 p b.mem (omega arith) ∙ r.source;
    flags =
        subst (λ w. w / 2 ^ 16 ≤ 1) (sym (read-blit_before 0 4 20 p b.mem (omega arith))) r.flags;
  },
  slice-blit_self 20 p b.mem,
)
  where
    b : Buffer
    b = s.buffer

-- With compression on, `publish` sends two parts. The second one, taken in by a merger, holds the
-- payload under the numbers given, and the source is ready for the next.
pub publish-received :
    (z : Zlib) (det dif bx gtc len : ℕ) (s : Source)
    → IsReady det dif s
    → bx < 2 ^ 64
    → gtc < 2 ^ 32
    → 20 + compress_bound len ≤ buffer_size
    → (c r e : Buffer) × (publish z bx gtc len delivered s
        ≡ ok (
          record s { buffer = c },
          record { socket = 0; more = true; body = data_header (source_header det dif) gtc bx }
              ∷ record { socket = 0; more = false; body = image c }
              ∷ [],
        ))
      × (copy_in (image c) ≡ ok r)
      × (uncompress z r ≡ ok e)
      × (view e ≡ record {
        detector = det % 2 ^ 16;
        flags = 0;
        source = dif;
        event = gtc;
        bx = bx;
        body = slice 20 len s.buffer.mem;
      })
      × IsReady det dif (record s { buffer = c })
unfolding publish exchange
publish-received z det dif bx gtc len s ready hb hg room =
    let fits : Fits len s.buffer = record {
      inside = omega (arith, ready.cap);
      in_cap = omega (arith, ready.cap);
      in_merger = omega (arith, ready.cap);
    } in
    let (c, r, e, framed, taken, expanded, seen, cap, left) =
      frame-received z bx gtc len s ready.compressing hb hg fits in
    let unmarked : marked (view s.buffer).flags - 1 ≡ 0 = ground (arith, ready.flags) in
    (
      c,
      r,
      e,
      rw (framed, ready.header),
      taken,
      expanded,
      seen ∙ ground (arith, ready.detector, ready.source),
      record {
        header = ready.header;
        compressing = ready.compressing;
        cap = cap ∙ ready.cap;
        detector = ap (λ v. v.detector) left ∙ ready.detector;
        source = ap (λ v. v.source) left ∙ ready.source;
        flags = subst (λ f. f ≤ 1) (sym (ap (λ v. v.flags) left)) (ground (arith, ready.flags));
      },
    )
