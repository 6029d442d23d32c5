-- ===== src/Merger/Receive.antt =====
-- How the merger takes a message body in: zmMerger.cc, `processData`, from the new buffer to
-- `uncompress`.
use zdaq.Base.{ℕ, leb, length, Result, ok, ◌>>◌, guard, overrun}
use zdaq.Base.Memory.{Bytes, blit}
use zdaq.Buffer
use zdaq.Buffer.{Buffer}

abbrev pub buffer_size : ℕ
buffer_size = 524288

-- `memcpy(b->ptr(), message->data(), message->size()); b->setSize(message->size())`.
unfoldable pub copy_in : Bytes → Result Buffer
copy_in body = do
  guard (leb (length body) buffer_size) overrun
  let b = Buffer.new buffer_size
  ok (Buffer.set_size (length body) (record b { mem = blit 0 body b.mem }))
