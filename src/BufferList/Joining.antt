-- ===== src/BufferList/Joining.antt =====
-- What appending and prepending buffer lists, and silence up to the capacity, do to the channel
-- streams.
use native.Mathlib.Nat.{zero-mul}
use mathlib.Core.List.{append-nil}
use cxxaudio_utilities.Base.{
  ℕ, ◌+◌, ◌-◌, ◌*◌, ◌≤◌, ◌≡◌, refl, sym, ap, ap₂, ◌∙◌, arith, true, ◌||◌, some, List, [], ◌∷◌, ◌++◌,
  map, length, take, drop, replicate, sub32, take_all, drop_all, length-take,
}
use cxxaudio_utilities.StreamDescription.{Constants, equal, is_float, is_signed_integer}
use cxxaudio_utilities.BufferList.{AudioBuffer, BufferList}
use cxxaudio_utilities.BufferList.Frames.{
  heads, contents, contents-heads, AllWide, Holds, Leaves, byte_size-le,
}
use cxxaudio_utilities.BufferList.Ends.{Leaves-eq}
use cxxaudio_utilities.BufferList.Insert.{insert_from_buffer-Leaves}
use cxxaudio_utilities.BufferList.Insert.Rows.{inserted}
use cxxaudio_utilities.BufferList.Insert.Transfer.{insertable, equal-bytes_per_frame}
use cxxaudio_utilities.BufferList.Silence.{insert_silence-Leaves, silenced, silenceable}
use cxxaudio_utilities.BufferList.Calls.{
  is_full, prepend_contents_of_buffer, append_contents_of_buffer, fill_remainder_with_silence,
}

-- Row by row, the bytes of the first in front of those of the second.
abbrev pub joined : List (List ℕ) → List (List ℕ) → List (List ℕ)
joined (c ∷ cs) (s ∷ ss) = (c ++ s) ∷ joined cs ss
joined cs ss = []

-- Rows of the same length.
abbrev Rows : ℕ → List (List ℕ) → Type 0
Rows n [] = Unit
Rows n (c ∷ cs) = (length c ≡ n) × Rows n cs

Rows-heads : (n m : ℕ) (bufs : List AudioBuffer) → n ≤ m → AllWide m bufs → Rows n (heads n bufs)
Rows-heads n m [] le w = tt
Rows-heads n m (a ∷ as') le w =
    (omega (arith, length-take n a.memory, w.0), Rows-heads n m as' le w.1)

length-heads : (n : ℕ) (bufs : List AudioBuffer) → length (heads n bufs) ≡ length bufs
length-heads n [] = refl
length-heads n (a ∷ as') = omega (arith, length-heads n as')

Rows-contents :
    {b : BufferList} {bufs : List AudioBuffer}
    → Holds b bufs
    → Rows (b.frame_length * b.format.bytes_per_frame) (contents b)
Rows-contents {b} {bufs} v = rw (contents-heads v) (
    Rows-heads _ (b.frame_capacity * b.format.bytes_per_frame) bufs
      (byte_size-le v b.frame_length v.within) v.wide)

length-contents :
    {b : BufferList} {bufs : List AudioBuffer} → Holds b bufs → length (contents b) ≡ length bufs
length-contents {b} {bufs} v = rw (contents-heads v) (length-heads _ bufs)

inserted-end :
    (w n : ℕ) (cs ss : List (List ℕ))
    → length cs ≡ length ss
    → Rows w cs
    → Rows n ss
    → inserted w 0 n cs ss ≡ joined cs ss
inserted-end w n [] [] same cw sn = refl
inserted-end w n [] (s ∷ ss) same cw sn = refl
inserted-end w n (c ∷ cs) [] same cw sn = absurd (omega arith)
inserted-end w n (c ∷ cs) (s ∷ ss) same cw sn =
    let front : take w c ≡ c = take_all w c (omega (arith, cw.0)) in
    let whole : take n s ≡ s = take_all n s (omega (arith, sn.0)) in
    let behind : drop w c ≡ [] = drop_all w c (omega (arith, cw.0)) in
    ap₂ ◌∷◌ (ap₂ ◌++◌ front (ap₂ ◌++◌ whole behind ∙ append-nil s))
      (inserted-end w n cs ss (omega arith) cw.1 sn.1)

inserted-front :
    (n : ℕ) (cs ss : List (List ℕ))
    → length cs ≡ length ss
    → Rows n ss
    → inserted 0 0 n cs ss ≡ joined ss cs
inserted-front n [] [] same sn = refl
inserted-front n [] (s ∷ ss) same sn = absurd (omega arith)
inserted-front n (c ∷ cs) [] same sn = absurd (omega arith)
inserted-front n (c ∷ cs) (s ∷ ss) same sn =
    ap₂ ◌∷◌ (ap (λ q. q ++ c) (take_all n s (omega (arith, sn.0))))
      (inserted-front n cs ss (omega arith) sn.1)

module _ {this buffer : BufferList} {bufs source : List AudioBuffer} (v : Holds this bufs)
    (v' : Holds buffer source) where
  -- With room for it, `AppendContentsOfBuffer` puts the whole contents of a buffer list of the same
  -- format and as many buffers behind those of an allocated one, channel stream by channel stream,
  -- and `PrependContentsOfBuffer` in front of them; both return the number of frames that the other
  -- buffer list has.
  pub append_prepend-joined :
      length bufs ≡ length source
      → equal this.format buffer.format ≡ true
      → this.frame_length + buffer.frame_length ≤ this.frame_capacity
      → (behind : BufferList) × (before : BufferList) × (append_contents_of_buffer this buffer
          ≡ some (buffer.frame_length, behind))
        × Leaves this behind
            (this.frame_length + buffer.frame_length)
            (joined (contents this) (contents buffer))
        × (prepend_contents_of_buffer this buffer ≡ some (buffer.frame_length, before))
        × Leaves this before
            (this.frame_length + buffer.frame_length)
            (joined (contents buffer) (contents this))
  unfolding append_contents_of_buffer prepend_contents_of_buffer
  append_prepend-joined same formats room =
      let bpf = this.format.bytes_per_frame in
      let n = buffer.frame_length in
      let count : (w : ℕ) → w ≤ this.frame_length → insertable this buffer 0 n w ≡ n =
        λ w le. ground arith in
      let bpfs : bpf ≡ buffer.format.bytes_per_frame =
        equal-bytes_per_frame this.format buffer.format formats in
      let rows : length (contents this) ≡ length (contents buffer) =
        length-contents v ∙ same ∙ sym (length-contents v') in
      let sized : Rows (n * bpf) (contents buffer) = rw bpfs (Rows-contents v') in
      let at_end = insert_from_buffer-Leaves v v' 0 n this.frame_length same in
      let in_front = insert_from_buffer-Leaves v v' 0 n 0 same in
      let ended : inserted (this.frame_length * bpf) (0 * bpf) (n * bpf) (contents this)
            (contents buffer)
          ≡ joined (contents this) (contents buffer) =
        ap (λ r. inserted (this.frame_length * bpf) r (n * bpf) (contents this) (contents buffer))
          (zero-mul bpf)
        ∙ inserted-end (this.frame_length * bpf) (n * bpf) (contents this) (contents buffer) rows
            (Rows-contents v) sized in
      let fronted : inserted (0 * bpf) (0 * bpf) (n * bpf) (contents this) (contents buffer)
          ≡ joined (contents buffer) (contents this) =
        ap (λ r. inserted r r (n * bpf) (contents this) (contents buffer)) (zero-mul bpf)
        ∙ inserted-front (n * bpf) (contents this) (contents buffer) rows sized in
      let end_count = count this.frame_length (omega arith) in
      let front_count = count 0 (omega arith) in
      (
        at_end.0,
        in_front.0,
        at_end.1 ∙ ap (λ m. some (m, at_end.0)) end_count,
        Leaves-eq (ap (λ m. this.frame_length + m) end_count)
            (ap
                (λ m.
                  inserted (this.frame_length * bpf) (0 * bpf) (m * bpf) (contents this)
                    (contents buffer))
                end_count
              ∙ ended)
            at_end.2,
        in_front.1 ∙ ap (λ m. some (m, in_front.0)) front_count,
        Leaves-eq (ap (λ m. this.frame_length + m) front_count)
            (ap (λ m. inserted (0 * bpf) (0 * bpf) (m * bpf) (contents this) (contents buffer))
                front_count
              ∙ fronted)
            in_front.2,
      )

silenced-end :
    (w n : ℕ) (rows : List (List ℕ))
    → Rows w rows
    → map (silenced w n) rows ≡ map (λ c. c ++ replicate n 0) rows
silenced-end w n [] r = refl
silenced-end w n (c ∷ cs) r =
    ap₂ ◌∷◌
      (ap₂ ◌++◌ (take_all w c (omega (arith, r.0))) (
        ap (λ q. replicate n 0 ++ q) (drop_all w c (omega (arith, r.0)))
        ∙ append-nil (replicate n 0)))
      (silenced-end w n cs r.1)

module _ {b : BufferList} {bufs : List AudioBuffer} (v : Holds b bufs) where
  -- On an allocated buffer list of floating-point or signed samples, `FillRemainderWithSilence`
  -- appends zero bytes to every channel stream, for as many frames as the capacity has left, which
  -- it returns. Afterwards the buffer list is full.
  pub fill_remainder_with_silence-full :
      (k : Constants)
      → is_float k b.format || is_signed_integer k b.format ≡ true
      → let n = b.frame_capacity - b.frame_length in
        (b' : BufferList) × (fill_remainder_with_silence k b ≡ some (n, b'))
        × (is_full b' ≡ true)
        × Leaves b b' b.frame_capacity
            (map (λ c. c ++ replicate (n * b.format.bytes_per_frame) 0) (contents b))
  unfolding fill_remainder_with_silence is_full
  fill_remainder_with_silence-full k samples =
      let bpf = b.format.bytes_per_frame in
      let n = b.frame_capacity - b.frame_length in
      let within = v.within in
      let fits = v.frames_fit in
      let left : sub32 b.frame_capacity b.frame_length ≡ n = omega arith in
      let s = insert_silence-Leaves v k b.frame_length n in
      let count : silenceable k b b.frame_length n ≡ n = ground arith in
      let done =
        Leaves-eq (omega (arith, count))
          (ap (λ m. map (silenced (b.frame_length * bpf) (m * bpf)) (contents b)) count
            ∙ silenced-end (b.frame_length * bpf) (n * bpf) (contents b) (Rows-contents v))
          s.2 in
      let full : s.0.frame_length ≡ s.0.frame_capacity = done.new_length ∙ sym done.same_capacity in
      (s.0, rw left (s.1 ∙ ap (λ m. some (m, s.0)) count), ground (arith, full), done)
