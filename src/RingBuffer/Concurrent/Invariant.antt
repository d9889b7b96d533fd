-- ===== src/RingBuffer/Concurrent/Invariant.antt =====
-- What holds between the steps of a reader and a writer.
use cxxaudio_utilities.Base.{
  ℕ, ◌+◌, ◌-◌, ◌≤◌, ◌<◌, ◌≡◌, refl, arith, Option, some, List, ◌++◌, length, take, drop, ltb,
  if◌then◌else◌, byte_at, take-append, take_all, get_or_ext, ap, sym, ◌∙◌,
}
use cxxaudio_utilities.RingBuffer.{
  RingBuffer, copy_out, copy_in, advance_read_position, advance_write_position,
}
use cxxaudio_utilities.RingBuffer.Invariant.{Holds, stored, wrap}
use cxxaudio_utilities.RingBuffer.Copies.{
  segment, byte_at-segment, length-segment, copy_out_lem, copy_in-Stored, Stored, distance,
}
use cxxaudio_utilities.RingBuffer.Advance.{
  contents, contents-segment, length-contents, stored-lt, take-segment, Leaves,
  advance_read_position-Leaves, advance_write_position-Leaves,
}
use cxxaudio_utilities.RingBuffer.Concurrent.{
  Phase, idle, loaded, copied, System, reading_at, writing_at,
}

-- A reader moves bytes that are stored, from the read position on.
abbrev pub ReaderOk : RingBuffer → Phase → Type 0
ReaderOk r idle = Unit
ReaderOk r (loaded p destination n) =
    (p ≡ r.read_position) × (n ≤ stored r) × (n ≤ length destination)
ReaderOk r (copied p destination n) =
    (p ≡ r.read_position) × (n ≤ stored r) × (take n destination ≡ take n (contents r))

-- The `n` bytes of the block behind the position `w` are the first of the source.
abbrev pub Placed : ℕ → ℕ → List ℕ → List ℕ → ℕ → Type 0
Placed cap w m source n =
    (j : ℕ) → j < cap → distance cap w j < n → byte_at m j ≡ byte_at source (distance cap w j)

-- A writer moves bytes to where none are stored, from the write position on.
abbrev pub WriterOk : RingBuffer → List ℕ → Phase → Type 0
WriterOk r m idle = Unit
WriterOk r m (loaded p source n) =
    (p ≡ r.write_position) × (n ≤ r.capacity_bytes - 1 - stored r) × (n ≤ length source)
WriterOk r m (copied p source n) =
    (p ≡ r.write_position)
    × (n ≤ r.capacity_bytes - 1 - stored r)
    × (n ≤ length source)
    × Placed r.capacity_bytes r.write_position m source n

pub record IsSound (s : System) : Type 0 where
  pub block : List ℕ
  pub holds : Holds s.ring block
  pub fifo : s.received ++ contents s.ring ≡ s.sent
  pub reader_ok : ReaderOk s.ring s.reader
  pub writer_ok : WriterOk s.ring block s.writer

pub ReaderOk-eq : (r : RingBuffer) (x y : Phase) → x ≡ y → ReaderOk r x → ReaderOk r y
ReaderOk-eq r x y e ok = rw (sym e) ok

pub WriterOk-eq :
    (r : RingBuffer) (m : List ℕ) (x y : Phase) → x ≡ y → WriterOk r m x → WriterOk r m y
WriterOk-eq r m x y e ok = rw (sym e) ok

module _ {r : RingBuffer} {m : List ℕ} (v : Holds r m) where
  -- What the reader has loaded may be read: the writer does not take it back.
  pub ReaderOk-more :
      (r' : RingBuffer) (more : List ℕ) (x : Phase)
      → stored r ≤ stored r'
      → r'.read_position ≡ r.read_position
      → contents r' ≡ contents r ++ more
      → ReaderOk r x
      → ReaderOk r' x
  ReaderOk-more r' more idle le e q ok = tt
  ReaderOk-more r' more (loaded p destination n) le e q ok = (ok.0 ∙ sym e, omega arith, ok.2)
  ReaderOk-more r' more (copied p destination n) le e q ok =
      let front : take n (contents r ++ more) ≡ take n (contents r) =
        take-append n (contents r) more (omega (arith, length-contents v)) in
      (ok.0 ∙ sym e, omega arith, ok.2 ∙ sym front ∙ ap (take n) (sym q))

  -- Where the writer has loaded its position there stays room: the reader only makes more.
  pub WriterOk-fewer :
      (p : ℕ) (x : Phase)
      → stored (reading_at r p) ≤ stored r
      → WriterOk r m x
      → WriterOk (reading_at r p) m x
  WriterOk-fewer p idle le ok = tt
  WriterOk-fewer p (loaded q source n) le ok = (ok.0, omega arith, ok.2)
  WriterOk-fewer p (copied q source n) le ok = (ok.0, omega arith, ok.2, ok.3)

  -- The reader's copy delivers the front of the contents.
  pub copied-ReaderOk :
      (p n : ℕ) (destination destination' : List ℕ)
      → ReaderOk r (loaded p destination n)
      → copy_out (reading_at r p) m destination n ≡ some destination'
      → ReaderOk r (copied p destination' n)
  copied-ReaderOk p n destination destination' ok h =
      let c = r.capacity_bytes in
      let out = segment m c r.read_position n ++ drop n destination in
      let at_position : copy_out r m destination n ≡ some destination' = rw (sym ok.0) h in
      let same : destination' ≡ out =
        cc (at_position, copy_out_lem v destination n (omega (arith, stored-lt v)) ok.2) in
      let front : take n out ≡ segment m c r.read_position n =
        take-append n (segment m c r.read_position n) (drop n destination)
          (omega (arith, length-segment m c r.read_position n))
        ∙ take_all n (segment m c r.read_position n)
            (omega (arith, length-segment m c r.read_position n)) in
      (
        ok.0,
        ok.1,
        ap (take n) same
            ∙ front
            ∙ sym (take-segment m c r.read_position (stored r) n ok.1)
            ∙ ap (take n) (sym (contents-segment v)),
      )

  -- The writer's copy leaves the contents alone, and places the bytes of the source.
  pub record WriteCopied (p n : ℕ) (source m' : List ℕ) : Type 0 where
    pub keeps : Holds (record r { buffer = some m' }) m'
    pub same : contents (record r { buffer = some m' }) ≡ contents r
    pub ok : WriterOk (record r { buffer = some m' }) m' (copied p source n)

  segment-kept :
      (n : ℕ) (source m' : List ℕ)
      → n ≤ r.capacity_bytes - 1 - stored r
      → ((j : ℕ)
          → j < r.capacity_bytes
          → byte_at m' j ≡ (
              if ltb (distance r.capacity_bytes r.write_position j) n
              then byte_at source (distance r.capacity_bytes r.write_position j)
              else byte_at m j))
      → segment m' r.capacity_bytes r.read_position (stored r)
        ≡ segment m r.capacity_bytes r.read_position (stored r)
  segment-kept n source m' free at =
      let c = r.capacity_bytes in
      let p = r.read_position in
      get_or_ext 0 (segment m' c p (stored r)) (segment m c p (stored r))
        (length-segment m' c p (stored r) ∙ sym (length-segment m c p (stored r)))
        λ i h. ground (
          arith,
          length-segment m' c p (stored r),
          byte_at-segment m c p (stored r) i,
          byte_at-segment m' c p (stored r) i,
          at (wrap c (p + i)),
        )

  Stored-WriteCopied :
      (p n : ℕ) (source : List ℕ) {result : Option (List ℕ)}
      → WriterOk r m (loaded p source n)
      → (s : Stored m source r.capacity_bytes r.write_position n result)
      → WriteCopied p n source s.out
  Stored-WriteCopied p n source ok s =
      let keeps : Holds (record r { buffer = some s.out }) s.out = record {
        allocated = refl;
        size = s.same_length ∙ v.size;
        capacity = v.capacity;
        mask = v.mask;
        read_in = v.read_in;
        write_in = v.write_in;
      } in
      record {
        keeps = keeps;
        same =
            contents-segment keeps
            ∙ segment-kept n source s.out ok.1 s.at
            ∙ sym (contents-segment v);
        ok = (ok.0, ok.1, ok.2, λ j h near. ground (arith, s.at j));
      }

  pub copied-WriterOk :
      (p n : ℕ) (source m' : List ℕ)
      → WriterOk r m (loaded p source n)
      → copy_in (writing_at r p) m source n ≡ some m'
      → WriteCopied p n source m'
  copied-WriterOk p n source m' ok h =
      let at_position : copy_in r m source n ≡ some m' = rw (sym ok.0) h in
      let s = copy_in-Stored v source n (omega arith) ok.2 in
      let same_block : s.out ≡ m' = cc (at_position, s.returns) in
      rw same_block at (Stored-WriteCopied p n source ok s)

  -- The writer's store appends the bytes of the source to the contents.
  pub store-Leaves :
      (p n : ℕ) (source : List ℕ)
      → WriterOk r m (copied p source n)
      → Leaves r (advance_write_position (writing_at r p) n) m (contents r ++ take n source)
  store-Leaves p n source ok =
      let placed : Stored m source r.capacity_bytes r.write_position n (some m) = record {
        out = m;
        returns = refl;
        same_length = refl;
        at = λ j h. ground (arith, ok.3 j h);
      } in
      let same : record r { buffer = some m } ≡ r =
        ap (λ b. record r { buffer = b }) (sym v.allocated) in
      let l = advance_write_position-Leaves v source n ok.1 ok.2 placed in rw ok.0 (rw same at l)

  -- The reader's store drops what it has copied.
  pub take-Leaves :
      (p n : ℕ) (destination : List ℕ)
      → ReaderOk r (copied p destination n)
      → Leaves r (advance_read_position (reading_at r p) n) m (drop n (contents r))
  take-Leaves p n destination ok = rw ok.0 (advance_read_position-Leaves v n ok.1)
