-- ===== src/RingBuffer/Concurrent/Progress.antt =====
-- A reader that has loaded the positions ends its call in two steps of its own, whatever a writer
-- does in the meantime.
use cxxaudio_utilities.Base.{
  ℕ, zero, suc, ◌≤◌, ◌<◌, ◌≡◌, refl, arith, true, false, some, List, ◌++◌, take, drop, take-append,
  ap, ap₂, sym, ◌∙◌,
}
use cxxaudio_utilities.RingBuffer.{RingBuffer, copy_out, copy_in}
use cxxaudio_utilities.RingBuffer.Invariant.{Holds, stored}
use cxxaudio_utilities.RingBuffer.Copies.{segment, copy_out_lem}
use cxxaudio_utilities.RingBuffer.Advance.{contents, length-contents, stored-lt}
use cxxaudio_utilities.RingBuffer.Concurrent.{
  idle, loaded, copied, System, reading_at, Step, read_load, read_copy, read_store, write_load,
  write_copy, write_store, Reach, by_reader, Run, nothing, reads, writes, writing_at,
}
use cxxaudio_utilities.RingBuffer.Concurrent.Invariant.{
  IsSound, ReaderOk-eq, WriterOk-eq, copied-WriterOk, store-Leaves,
}
use cxxaudio_utilities.RingBuffer.Concurrent.Safety.{
  same_block, Step-IsSound, Reach-IsSound, start, start-IsSound,
}

-- The bytes in front stay there while the writer makes a step, and so does the reader.
writer-front :
    {s t : System} (n : ℕ)
    → IsSound s
    → n ≤ stored s.ring
    → (a : Step s t) → by_reader a ≡ false
    → (t.reader ≡ s.reader)
      × (t.received ≡ s.received)
      × (take n (contents t.ring) ≡ take n (contents s.ring))
writer-front n v le (read_load destination byte_count allow e fits late) own = absurd (cc own)
writer-front n v le (read_copy p k destination destination' m e b h) own = absurd (cc own)
writer-front n v le (read_store p k destination e) own = absurd (cc own)
writer-front n v le (write_load source byte_count allow e fits late) own = (refl, refl, refl)
writer-front {s} n v le (write_copy p k source m m' e b h) own =
    let ok = WriterOk-eq s.ring v.block s.writer (loaded p source k) e v.writer_ok in
    let at_block : copy_in (writing_at s.ring p) v.block source k ≡ some m' =
      rw (same_block v.holds b) h in
    let w = copied-WriterOk v.holds p k source m' ok at_block in (refl, refl, ap (take n) w.same)
writer-front {s} n v le (write_store p k source e) own =
    let ok = WriterOk-eq s.ring v.block s.writer (copied p source k) e v.writer_ok in
    let l = store-Leaves v.holds p k source ok in
    (
      refl,
      refl,
      ap (take n) l.now
          ∙ take-append n (contents s.ring) (take k source)
              (omega (arith, length-contents v.holds)),
    )

-- Where the reader is after `k` steps of its own.
abbrev After : ℕ → ℕ → List ℕ → System → System → ℕ → Type 0
After p n destination s u zero =
    (u.reader ≡ loaded p destination n)
    × (u.received ≡ s.received)
    × (take n (contents u.ring) ≡ take n (contents s.ring))
After p n destination s u (suc zero) =
    (out : List ℕ) × (u.reader ≡ copied p out n)
    × (u.received ≡ s.received)
    × (take n (contents u.ring) ≡ take n (contents s.ring))
After p n destination s u (suc (suc zero)) =
    (u.reader ≡ idle) × (u.received ≡ s.received ++ take n (contents s.ring))
After p n destination s u (suc (suc (suc k))) = Unit

Run-IsSound : {s u : System} {k : ℕ} → IsSound s → Run s u k → IsSound u
Run-IsSound v nothing = v
Run-IsSound v (reads run a own) = Step-IsSound (Run-IsSound v run) a
Run-IsSound v (writes run a own) = Step-IsSound (Run-IsSound v run) a

-- The reader's step after loading, and the one after copying.
reader-copies :
    {s t : System} (p n : ℕ) (destination : List ℕ)
    → s.reader ≡ loaded p destination n
    → (a : Step s t) → by_reader a ≡ true
    → (out : List ℕ) × (t.reader ≡ copied p out n)
      × (t.received ≡ s.received)
      × (contents t.ring ≡ contents s.ring)
reader-copies p n destination h (read_load d byte_count allow e fits late) own = absurd (cc (e, h))
reader-copies p n destination h (read_copy q k d out m e b c) own = (out, cc (e, h), refl, refl)
reader-copies p n destination h (read_store q k d e) own = absurd (cc (e, h))
reader-copies p n destination h (write_load source byte_count allow e fits late) own =
    absurd (cc own)
reader-copies p n destination h (write_copy q k source m m' e b c) own = absurd (cc own)
reader-copies p n destination h (write_store q k source e) own = absurd (cc own)

reader-stores :
    {s t : System} (p n : ℕ) (out : List ℕ)
    → s.reader ≡ copied p out n
    → (a : Step s t) → by_reader a ≡ true
    → (t.reader ≡ idle) × (t.received ≡ s.received ++ take n out)
reader-stores p n out h (read_load d byte_count allow e fits late) own = absurd (cc (e, h))
reader-stores p n out h (read_copy q k d out' m e b c) own = absurd (cc (e, h))
reader-stores {s} p n out h (read_store q k d e) own =
    let same : copied q d k ≡ copied p out n = sym e ∙ h in
    let count : k ≡ n = cc same in
    let bytes : d ≡ out = cc same in
    (refl, ap₂ (λ (i : ℕ) (xs : List ℕ). s.received ++ take i xs) count bytes)
reader-stores p n out h (write_load source byte_count allow e fits late) own = absurd (cc own)
reader-stores p n out h (write_copy q k source m m' e b c) own = absurd (cc own)
reader-stores p n out h (write_store q k source e) own = absurd (cc own)

module _ (p n : ℕ) (destination : List ℕ) (s : System) where
  write-After :
      {t u : System} (k : ℕ)
      → IsSound t
      → After p n destination s t k
      → (a : Step t u) → by_reader a ≡ false
      → After p n destination s u k
  write-After {t} zero v h a own =
      let ok = ReaderOk-eq t.ring t.reader (loaded p destination n) h.0 v.reader_ok in
      let w = writer-front n v ok.1 a own in (w.0 ∙ h.0, w.1 ∙ h.1, w.2 ∙ h.2)
  write-After {t} (suc zero) v h a own =
      let ok = ReaderOk-eq t.ring t.reader (copied p h.0 n) h.1 v.reader_ok in
      let w = writer-front n v ok.1 a own in (h.0, w.0 ∙ h.1, w.1 ∙ h.2, w.2 ∙ h.3)
  write-After {t} (suc (suc zero)) v h a own =
      let w = writer-front 0 v (omega arith) a own in (w.0 ∙ h.0, w.1 ∙ h.1)
  write-After (suc (suc (suc k))) v h a own = tt

  read-After :
      {t u : System} (k : ℕ)
      → IsSound t
      → After p n destination s t k
      → (a : Step t u) → by_reader a ≡ true
      → After p n destination s u (suc k)
  read-After zero v h a own =
      let c = reader-copies p n destination h.0 a own in
      (c.0, c.1, c.2 ∙ h.1, ap (take n) c.3 ∙ h.2)
  read-After {t} (suc zero) v h a own =
      let ok = ReaderOk-eq t.ring t.reader (copied p h.0 n) h.1 v.reader_ok in
      let d = reader-stores p n h.0 h.1 a own in (d.0, d.1 ∙ ap₂ ◌++◌ h.2 (ok.2 ∙ h.3))
  read-After (suc (suc k)) v h a own = tt

  Run-After :
      {u : System} {k : ℕ}
      → IsSound s
      → s.reader ≡ loaded p destination n
      → Run s u k
      → After p n destination s u k
  Run-After v e nothing = (e, refl, refl)
  Run-After v e (reads {k} run a own) = read-After k (Run-IsSound v run) (Run-After v e run) a own
  Run-After {k} v e (writes run a own) = write-After k (Run-IsSound v run) (Run-After v e run) a own

-- What a reader has come to after `k` steps of its own: it can make another one, or the call has
-- ended with the bytes `front`.
pub data Progress (s u : System) (front : List ℕ) (k : ℕ) : Type 0 where
  goes_on : {t : System} → k < 2 → (a : Step u t) → by_reader a ≡ true → Progress s u front k
  ended : k ≡ 2 → u.reader ≡ idle → u.received ≡ s.received ++ front → Progress s u front k

After-Progress :
    (p n : ℕ) (destination : List ℕ) (s : System) {u : System} (k : ℕ)
    → IsSound u
    → k ≤ 2
    → After p n destination s u k
    → Progress s u (take n (contents s.ring)) k
After-Progress p n destination s {u} zero v le h =
    let ok = ReaderOk-eq u.ring u.reader (loaded p destination n) h.0 v.reader_ok in
    let c = u.ring.capacity_bytes in
    let out = segment v.block c u.ring.read_position n ++ drop n destination in
    let copies : copy_out (reading_at u.ring p) v.block destination n ≡ some out =
      rw ok.0 (copy_out_lem v.holds destination n (omega (arith, stored-lt v.holds)) ok.2) in
    Progress.goes_on (omega arith)
      (read_copy p n destination out v.block h.0 v.holds.allocated copies) refl
After-Progress p n destination s (suc zero) v le h =
    Progress.goes_on (omega arith) (read_store p n h.0 h.1) refl
After-Progress p n destination s (suc (suc zero)) v le h = Progress.ended refl h.0 h.1
After-Progress p n destination s (suc (suc (suc k))) v le h = absurd (omega arith)

-- However the steps of a reader and a writer are interleaved on an allocated ring buffer: from where
-- a reader has loaded the positions it can make a step of its own until it has made two, whatever
-- steps the writer makes in between, and after these two its call has ended and it has received
-- the front of the contents that it found.
pub reader_finishes :
    {r : RingBuffer} {m : List ℕ}
    → Holds r m
    → {s : System} → Reach (start r) s
    → (p n : ℕ) (destination : List ℕ) → s.reader ≡ loaded p destination n
    → {u : System} {k : ℕ} → Run s u k
    → k ≤ 2
    → Progress s u (take n (contents s.ring)) k
reader_finishes v {s} steps p n destination e {k} run le =
    let sound = Reach-IsSound (start-IsSound v steps) steps in
    After-Progress p n destination s k (Run-IsSound sound run) le
      (Run-After p n destination s sound e run)
