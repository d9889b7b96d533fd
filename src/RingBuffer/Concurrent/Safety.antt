-- ===== src/RingBuffer/Concurrent/Safety.antt =====
-- A reader and a writer that are interleaved in any way: no byte is lost, repeated or torn, no copy
-- faults, and the two copies never touch one byte.
use mathlib.Core.List.{append_assoc, append-nil}
use cxxaudio_utilities.Base.{
  ℕ, ◌+◌, ◌≤◌, ◌<◌, ◌≡◌, ◌≢◌, refl, arith, some, List, [], ◌++◌, length, take, drop,
  take-append-drop, length-drop, length-append, ap, sym, ◌∙◌,
}
use cxxaudio_utilities.RingBuffer.{
  RingBuffer, copy_out, copy_in, advance_read_position, advance_write_position,
}
use cxxaudio_utilities.RingBuffer.Invariant.{
  Holds, stored, wrap, bytes_available_to_read-eq-stored, bytes_available_to_write-eq-free,
}
use cxxaudio_utilities.RingBuffer.Advance.{contents, length-contents}
use cxxaudio_utilities.RingBuffer.Concurrent.{
  idle, loaded, copied, System, reading_at, writing_at, Step, read_load, read_copy, read_store,
  write_load, write_copy, write_store, Reach, here, next,
}
use cxxaudio_utilities.RingBuffer.Concurrent.Invariant.{
  IsSound, ReaderOk-eq, WriterOk-eq, ReaderOk-more, WriterOk-fewer, copied-ReaderOk,
  copied-WriterOk, store-Leaves, take-Leaves,
}

pub same_block : {r : RingBuffer} {m m' : List ℕ} → Holds r m → r.buffer ≡ some m' → m ≡ m'
same_block v e = cc (v.allocated, e)

module _ {s : System} (v : IsSound s) where
  after_read_store :
      (p n : ℕ) (destination : List ℕ)
      → s.reader ≡ copied p destination n
      → IsSound (record s {
        ring = advance_read_position (reading_at s.ring p) n;
        reader = idle;
        received = s.received ++ take n destination;
      })
  unfolding advance_read_position
  after_read_store p n destination e =
      let ok = ReaderOk-eq s.ring s.reader (copied p destination n) e v.reader_ok in
      let l = take-Leaves v.holds p n destination ok in
      let r' = advance_read_position (reading_at s.ring p) n in
      let fewer : stored r' ≤ stored s.ring = omega (
        arith,
        length-contents l.holds,
        length-contents v.holds,
        ap length l.now,
        length-drop n (contents s.ring),
      ) in
      record {
        block = v.block;
        holds = l.holds;
        fifo =
            ap (λ q. (s.received ++ take n destination) ++ q) l.now
            ∙ append_assoc s.received (take n destination) (drop n (contents s.ring))
            ∙ ap (λ q. s.received ++ (q ++ drop n (contents s.ring))) ok.2
            ∙ ap (λ q. s.received ++ q) (take-append-drop n (contents s.ring))
            ∙ v.fifo;
        reader_ok = tt;
        writer_ok = WriterOk-fewer v.holds r'.read_position s.writer fewer v.writer_ok;
      }

  after_write_store :
      (p n : ℕ) (source : List ℕ)
      → s.writer ≡ copied p source n
      → IsSound (record s {
        ring = advance_write_position (writing_at s.ring p) n;
        writer = idle;
        sent = s.sent ++ take n source;
      })
  unfolding advance_write_position
  after_write_store p n source e =
      let ok = WriterOk-eq s.ring v.block s.writer (copied p source n) e v.writer_ok in
      let l = store-Leaves v.holds p n source ok in
      let r' = advance_write_position (writing_at s.ring p) n in
      let more : stored s.ring ≤ stored r' = omega (
        arith,
        length-contents l.holds,
        length-contents v.holds,
        ap length l.now,
        length-append (contents s.ring) (take n source),
      ) in
      record {
        block = v.block;
        holds = l.holds;
        fifo =
            ap (λ q. s.received ++ q) l.now
            ∙ sym (append_assoc s.received (contents s.ring) (take n source))
            ∙ ap (λ q. q ++ take n source) v.fifo;
        reader_ok = ReaderOk-more v.holds r' (take n source) s.reader more refl l.now v.reader_ok;
        writer_ok = tt;
      }

  after_write_copy :
      (p n : ℕ) (source m m' : List ℕ)
      → s.writer ≡ loaded p source n
      → s.ring.buffer ≡ some m
      → copy_in (writing_at s.ring p) m source n ≡ some m'
      → IsSound (record s { ring = record s.ring { buffer = some m' }; writer = copied p source n })
  after_write_copy p n source m m' e b h =
      let ok = WriterOk-eq s.ring v.block s.writer (loaded p source n) e v.writer_ok in
      let at_block : copy_in (writing_at s.ring p) v.block source n ≡ some m' =
        rw (same_block v.holds b) h in
      let w = copied-WriterOk v.holds p n source m' ok at_block in
      record {
        block = m';
        holds = w.keeps;
        fifo = ap (λ q. s.received ++ q) w.same ∙ v.fifo;
        reader_ok =
            ReaderOk-more v.holds (record s.ring { buffer = some m' }) [] s.reader (omega arith)
              refl (w.same ∙ sym (append-nil (contents s.ring))) v.reader_ok;
        writer_ok = w.ok;
      }

  after_read_copy :
      (p n : ℕ) (destination destination' m : List ℕ)
      → s.reader ≡ loaded p destination n
      → s.ring.buffer ≡ some m
      → copy_out (reading_at s.ring p) m destination n ≡ some destination'
      → IsSound (record s { reader = copied p destination' n })
  after_read_copy p n destination destination' m e b h =
      let ok = ReaderOk-eq s.ring s.reader (loaded p destination n) e v.reader_ok in
      let at_block : copy_out (reading_at s.ring p) v.block destination n ≡ some destination' =
        rw (same_block v.holds b) h in
      record {
        block = v.block;
        holds = v.holds;
        fifo = v.fifo;
        reader_ok = copied-ReaderOk v.holds p n destination destination' ok at_block;
        writer_ok = v.writer_ok;
      }

  pub Step-IsSound : {t : System} → Step s t → IsSound t
  Step-IsSound (read_load destination byte_count allow e fits late) = record {
    block = v.block;
    holds = v.holds;
    fifo = v.fifo;
    reader_ok = (refl, omega (arith, bytes_available_to_read-eq-stored v.holds), omega arith);
    writer_ok = v.writer_ok;
  }
  Step-IsSound (read_copy p n destination destination' m e b h) =
      after_read_copy p n destination destination' m e b h
  Step-IsSound (read_store p n destination e) = after_read_store p n destination e
  Step-IsSound (write_load source byte_count allow e fits late) = record {
    block = v.block;
    holds = v.holds;
    fifo = v.fifo;
    reader_ok = v.reader_ok;
    writer_ok = (refl, omega (arith, bytes_available_to_write-eq-free v.holds), omega arith);
  }
  Step-IsSound (write_copy p n source m m' e b h) = after_write_copy p n source m m' e b h
  Step-IsSound (write_store p n source e) = after_write_store p n source e

pub Reach-IsSound : {s t : System} → IsSound s → Reach s t → IsSound t
Reach-IsSound v here = v
Reach-IsSound v (next r st) = Step-IsSound (Reach-IsSound v r) st

-- Both threads idle, and nothing transferred yet.
abbrev pub start : RingBuffer → System
start r = record { ring = r; reader = idle; writer = idle; sent = contents r; received = [] }

module _ {r : RingBuffer} {m : List ℕ} (v : Holds r m) {s : System}
    (steps : Reach (start r) s) where
  pub start-IsSound : IsSound (start r)
  start-IsSound = record { block = m; holds = v; fifo = refl; reader_ok = tt; writer_ok = tt }

  -- However the steps of a reader and a writer are interleaved on an allocated ring buffer, the
  -- bytes received, followed by those stored, are the bytes sent, in order, where the bytes that
  -- were stored at the start count as sent.
  pub received-append-contents : s.received ++ contents s.ring ≡ s.sent
  received-append-contents = (Reach-IsSound start-IsSound steps).fifo

  -- However the steps are interleaved, the bytes that a reader is about to copy and those that a
  -- writer is about to store are different ones of the block.
  pub copies_disjoint :
      (p n q k : ℕ) (destination source : List ℕ)
      → s.reader ≡ loaded p destination n
      → s.writer ≡ loaded q source k
      → (i j : ℕ) → i < n
      → j < k
      → wrap s.ring.capacity_bytes (p + i) ≢ wrap s.ring.capacity_bytes (q + j)
  copies_disjoint p n q k destination source e e' i j hi hj =
      let sound = Reach-IsSound start-IsSound steps in
      let h = sound.holds in
      let rd = ReaderOk-eq s.ring s.reader (loaded p destination n) e sound.reader_ok in
      let wr = WriterOk-eq s.ring sound.block s.writer (loaded q source k) e' sound.writer_ok in
      λ same. ground arith
