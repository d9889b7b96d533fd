-- ===== src/Tests/Concurrent.antt =====
-- A reader and a writer in the middle of their calls on one ring buffer of 8 bytes.
use cxxaudio_utilities.Base.{ℕ, ◌+◌, ◌≡◌, ◌≢◌, refl, arith, true, some, List, [], ◌∷◌, ◌++◌, memcpy}
use cxxaudio_utilities.RingBuffer.{
  bytes_available_to_read, bytes_available_to_write, refuses, copy_in, copy_out,
  advance_read_position, advance_write_position,
}
use cxxaudio_utilities.RingBuffer.Invariant.{wrap}
use cxxaudio_utilities.RingBuffer.Advance.{contents}
use cxxaudio_utilities.RingBuffer.Concurrent.{
  idle, loaded, copied, System, Reach, here, next, read_load, read_copy, read_store, write_load,
  write_copy, write_store, reading_at, writing_at, Run, nothing, reads, writes,
}
use cxxaudio_utilities.RingBuffer.Concurrent.Safety.{
  start, received-append-contents, copies_disjoint,
}
use cxxaudio_utilities.RingBuffer.Concurrent.Progress.{Progress, reader_finishes}
use cxxaudio_utilities.Tests.Rings.{block, wrapped, wrapped-Holds}

-- Both threads have loaded the positions.
abbrev both_loaded : System
both_loaded = record (start wrapped) {
  reader = loaded 6 (0 ∷ 0 ∷ 0 ∷ []) 3;
  writer = loaded 2 (1 ∷ 2 ∷ []) 2;
}

to_both_loaded : Reach (start wrapped) both_loaded
unfolding bytes_available_to_read bytes_available_to_write refuses
to_both_loaded =
    next (next here (read_load (0 ∷ 0 ∷ 0 ∷ []) 3 true refl (omega arith) refl))
      (write_load (1 ∷ 2 ∷ []) 2 true refl (omega arith) refl)

received-append-contents_example : [] ++ contents wrapped ≡ 16 ∷ 17 ∷ 10 ∷ 11 ∷ []
unfolding contents
received-append-contents_example = received-append-contents wrapped-Holds to_both_loaded

copies_disjoint_example : wrap 8 (6 + 2) ≢ wrap 8 (2 + 1)
copies_disjoint_example =
    copies_disjoint wrapped-Holds to_both_loaded 6 3 2 2 (0 ∷ 0 ∷ 0 ∷ []) (1 ∷ 2 ∷ []) refl refl 2 1
      (omega arith) (omega arith)

-- The writer copies first and moves its position between the reader's two steps.
abbrev block_written : List ℕ
block_written = 10 ∷ 11 ∷ 1 ∷ 2 ∷ 14 ∷ 15 ∷ 16 ∷ 17 ∷ []

abbrev both_copied : System
both_copied = record both_loaded {
  ring = record wrapped { buffer = some block_written };
  reader = copied 6 (16 ∷ 17 ∷ 10 ∷ []) 3;
  writer = copied 2 (1 ∷ 2 ∷ []) 2;
}

abbrev both_done : System
both_done =
    let stored = record both_copied {
      ring = advance_write_position (writing_at both_copied.ring 2) 2;
      writer = idle;
      sent = both_copied.sent ++ 1 ∷ 2 ∷ [];
    } in
    record stored {
      ring = advance_read_position (reading_at stored.ring 6) 3;
      reader = idle;
      received = 16 ∷ 17 ∷ 10 ∷ [];
    }

to_both_done : Run both_loaded both_done 2
unfolding copy_in copy_out memcpy
to_both_done =
    reads
      (writes
        (reads
          (writes nothing (write_copy 2 2 (1 ∷ 2 ∷ []) block block_written refl refl refl) refl)
          (read_copy 6 3 (0 ∷ 0 ∷ 0 ∷ []) (16 ∷ 17 ∷ 10 ∷ []) block_written refl refl refl) refl)
        (write_store 2 2 (1 ∷ 2 ∷ []) refl) refl)
      (read_store 6 3 (16 ∷ 17 ∷ 10 ∷ []) refl) refl

reader_finishes_example : Progress both_loaded both_done (16 ∷ 17 ∷ 10 ∷ []) 2
unfolding contents
reader_finishes_example =
    reader_finishes wrapped-Holds to_both_loaded 6 3 (0 ∷ 0 ∷ 0 ∷ []) refl to_both_done
      (omega arith)
