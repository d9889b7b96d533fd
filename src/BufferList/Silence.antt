-- ===== src/BufferList/Silence.antt =====
-- `InsertSilence`: zero bytes are put into every channel stream.
use native.Mathlib.Nat.{mul-le-mul_right, zero-mul}
use cxxaudio_utilities.Base.{
  ℕ, ◌+◌, ◌-◌, ◌*◌, ◌≤◌, ◌≡◌, refl, arith, inl, inr, false, ◌||◌, ◌&&◌, Bool-cases, Option, some,
  List, [], ◌∷◌, map, length, take, replicate, min, ltb, leb, ◌==◌, if◌then◌else◌, add32, sub32,
  mul32, ◌>>=◌, memcpy-Copied, memset_zero-Cleared, Copied, Cleared, take-append-drop,
  get_or-replicate, length-replicate, ap, ap₂, ◌∙◌, sym,
}
use cxxaudio_utilities.StreamDescription.{Constants, is_float, is_signed_integer}
use cxxaudio_utilities.BufferList.{
  AudioBuffer, BufferList, each, move_bytes, clear_bytes, move_frames, clear_frames,
  set_frame_length, insert_silence,
}
use cxxaudio_utilities.BufferList.Channels.{put_in, moved_up}
use cxxaudio_utilities.BufferList.Frames.{
  heads, contents, contents-heads, AllWide, Holds, Leaves, byte_size, set_frame_length-Leaves,
}
use cxxaudio_utilities.BufferList.Trim.{mul-sub_right}
use cxxaudio_utilities.BufferList.Insert.Transfer.{move_frames-each, move_frames-none, unchanged}

-- `n` zero bytes put into a row at `w`.
abbrev pub silenced : ℕ → ℕ → List ℕ → List ℕ
silenced w n = put_in w (replicate n 0)

-- What moving the ends up and clearing the gaps leaves.
record Silenced (cap w n e : ℕ) (bufs : List AudioBuffer) (result : Option (List AudioBuffer))
    : Type 0 where
  moved : List AudioBuffer
  moves : result ≡ some moved
  out : List AudioBuffer
  clears : each (clear_bytes w n) moved ≡ some out
  wide : AllWide cap out
  rows : heads (e + n) out ≡ map (silenced w n) (heads e bufs)

silence_row :
    (m : List ℕ) (w n e : ℕ) {result result' : Option (List ℕ)}
    → w ≤ e
    → e + n ≤ length m
    → (c : Copied m (w + n) m w (e - w) result) → (d : Cleared c.out w n result')
    → take (e + n) d.out ≡ silenced w n (take e m)
silence_row m w n e we em c d =
    moved_up m d.out (replicate n 0) w n e we em (length-replicate {A = ℕ} n 0) c
      (omega (arith, d.same_length, c.same_length))
      λ i. ground (arith, d.at i, get_or-replicate {A = ℕ} n 0 (i - w) 0)

each-Silenced :
    (cap w n e : ℕ) (bufs : List AudioBuffer)
    → w ≤ e
    → e + n ≤ cap
    → AllWide cap bufs
    → Silenced cap w n e bufs (each (move_bytes (w + n) w (e - w)) bufs)
unfolding each move_bytes clear_bytes
each-Silenced cap w n e [] we ec wide = record {
  moved = [];
  moves = refl;
  out = [];
  clears = refl;
  wide = wide;
  rows = refl;
}
each-Silenced cap w n e (a ∷ as') we ec wide =
    let c = memcpy-Copied a.memory (w + n) a.memory w (e - w) (omega arith) (omega arith) in
    let d = memset_zero-Cleared c.out w n (omega (arith, c.same_length)) in
    let rest = each-Silenced cap w n e as' we ec wide.1 in
    record {
      moved = record a { memory = c.out } ∷ rest.moved;
      moves = rw (c.returns, rest.moves);
      out = record a { memory = d.out } ∷ rest.out;
      clears = rw (d.returns, rest.clears);
      wide = (omega (arith, c.same_length, d.same_length), rest.wide);
      rows = ap₂ ◌∷◌ (silence_row a.memory w n e we (omega arith) c d) rest.rows;
    }

silenced_nothing : (w : ℕ) (rows : List (List ℕ)) → rows ≡ map (silenced w 0) rows
silenced_nothing w [] = refl
silenced_nothing w (c ∷ cs) = ap₂ ◌∷◌ (sym (take-append-drop w c)) (silenced_nothing w cs)

silenced_none : (w n k : ℕ) (rows : List (List ℕ)) → n ≡ 0 → rows ≡ map (silenced w (n * k)) rows
silenced_none w n k rows e =
    let none_left : n * k ≡ 0 = ap (λ i. i * k) e ∙ zero-mul k in
    rw none_left (silenced_nothing w rows)

-- How many frames are inserted: as many as are asked for and have room, and none if the samples
-- are neither floating-point nor signed, or the offset is behind the end.
abbrev pub silenceable : Constants → BufferList → ℕ → ℕ → ℕ
silenceable k b offset frame_length =
    if (is_float k b.format || is_signed_integer k b.format) && leb offset b.frame_length
    then min (b.frame_capacity - b.frame_length) frame_length
    else 0

-- What the code does after its checks, with `n` frames to insert.
unfoldable silence : BufferList → ℕ → ℕ → Option (ℕ × BufferList)
silence b w n = move_frames b (w + n) w (b.frame_length - w) >>= λ moved. clear_frames moved w n

module _ {b : BufferList} {bufs : List AudioBuffer} (v : Holds b bufs) where
  -- An insertion of `n` frames of silence at `w`, whose result is `result`.
  abbrev Silences : ℕ → ℕ → Option (ℕ × BufferList) → Type 0
  Silences w n result =
      let bpf = b.format.bytes_per_frame in
      (b' : BufferList) × (result ≡ some (n, b'))
      × Leaves b b' (b.frame_length + n) (map (silenced (w * bpf) (n * bpf)) (contents b))

  Silences-none :
      (w n : ℕ) {result : Option (ℕ × BufferList)}
      → n ≡ 0
      → result ≡ some (0, b)
      → Silences w n result
  Silences-none w n e h =
      let bpf = b.format.bytes_per_frame in
      (
        b,
        h ∙ ap (λ k. some (k, b)) (sym e),
        unchanged v n (map (silenced (w * bpf) (n * bpf)) (contents b)) e
            (silenced_none (w * bpf) n bpf (contents b) e),
      )

  silence-some :
      (w n : ℕ)
      → n == 0 ≡ false
      → w ≤ b.frame_length
      → b.frame_length + n ≤ b.frame_capacity
      → Silences w n (silence b w n)
  unfolding silence clear_frames
  silence-some w n some_left le room =
      let bpf = b.format.bytes_per_frame in
      let fits = v.frames_fit in
      let above : (w + n) * bpf ≡ w * bpf + n * bpf = omega arith in
      let whole : (b.frame_length + n) * bpf ≡ b.frame_length * bpf + n * bpf = omega arith in
      let end : b.frame_length * bpf + n * bpf ≤ b.frame_capacity * bpf =
        rw (sym whole) (mul-le-mul_right bpf room) in
      let s : Silenced (b.frame_capacity * bpf) (w * bpf) (n * bpf) (b.frame_length * bpf) bufs
          (each (move_bytes ((w + n) * bpf) (w * bpf) ((b.frame_length - w) * bpf)) bufs) =
        rw (above, mul-sub_right bpf b.frame_length w)
          (each-Silenced (b.frame_capacity * bpf) (w * bpf) (n * bpf) (b.frame_length * bpf) bufs
            (mul-le-mul_right bpf le) end v.wide) in
      let w_size : mul32 w bpf ≡ w * bpf = byte_size v w (omega arith) in
      let n_size : mul32 n bpf ≡ n * bpf = byte_size v n (omega arith) in
      let longer : add32 b.frame_length n ≡ b.frame_length + n = ground arith in
      let done : Holds (record b { list = some s.out }) s.out = record {
        allocated = refl;
        wide = s.wide;
        bytes_fit = v.bytes_fit;
        frames_fit = v.frames_fit;
        within = v.within;
      } in
      let after = set_frame_length-Leaves done (b.frame_length + n) room in
      (
        (set_frame_length (record b { list = some s.out }) (b.frame_length + n)).1,
        simp (
          move_frames-each v (w + n) w (b.frame_length - w) (omega arith) (omega arith),
          s.moves,
          some_left,
          w_size,
          n_size,
          s.clears,
          longer,
        ),
        record {
          buffers = after.buffers;
          holds = after.holds;
          now = after.now ∙ rw (contents-heads v, whole) s.rows;
          new_length = after.new_length;
          same_format = after.same_format;
          same_capacity = after.same_capacity;
        },
      )

  silence-Silences :
      (w n : ℕ)
      → w ≤ b.frame_length
      → b.frame_length + n ≤ b.frame_capacity
      → Silences w n (silence b w n)
  unfolding silence clear_frames
  silence-Silences w n le room = elim (Bool-cases (n == 0)) [
    | inl z ↦
        let none_fit : n ≡ 0 = ground arith in
        Silences-none w n none_fit (simp (move_frames-none v w n none_fit le, z))
    | inr nz ↦ silence-some w n nz le room
  ]

  Silences-count :
      (w m n : ℕ) {result : Option (ℕ × BufferList)}
      → m ≡ n
      → Silences w m result
      → Silences w n result
  Silences-count w m n e h = rw (sym e) h

  -- On an allocated buffer list, `InsertSilence` puts as many of `frame_length` zeroed frames as
  -- fit into every channel stream at `offset`, in front of what was there, and returns their
  -- number; for samples that are neither floating-point nor signed, and from behind the end, it
  -- inserts none. The format and the capacity stay, and the length grows by that number.
  pub insert_silence-Leaves :
      (k : Constants) (offset frame_length : ℕ)
      → let bpf = b.format.bytes_per_frame in
        let n = silenceable k b offset frame_length in
        (b' : BufferList) × (insert_silence k b offset frame_length ≡ some (n, b'))
        × Leaves b b' (b.frame_length + n) (map (silenced (offset * bpf) (n * bpf)) (contents b))
  unfolding insert_silence silence
  insert_silence-Leaves k w f =
      let n = silenceable k b w f in
      let inside = v.within in
      let fits = v.frames_fit in
      elim (Bool-cases (is_float k b.format || is_signed_integer k b.format)) [
        | inr unsigned ↦ Silences-none w n (ground arith) (simp unsigned)
        | inl samples ↦ elim (Bool-cases (ltb b.frame_length w || (f == 0))) [
          | inl refused ↦ Silences-none w n (ground arith) (simp (samples, refused))
          | inr goes ↦
              let count = min (b.frame_capacity - b.frame_length) f in
              let free : sub32 b.frame_capacity b.frame_length ≡ b.frame_capacity - b.frame_length =
                ground arith in
              let tail : sub32 b.frame_length w ≡ b.frame_length - w = ground arith in
              let behind : add32 w count ≡ w + count = ground arith in
              let same : insert_silence k b w f ≡ silence b w count =
                simp (samples, goes, free, tail, behind) in
              let s = silence-Silences w count (ground arith) (omega arith) in
              Silences-count w count n (ground arith) (s.0, same ∙ s.1, s.2)
        ]
      ]
