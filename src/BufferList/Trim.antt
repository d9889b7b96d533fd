-- ===== src/BufferList/Trim.antt =====
-- `TrimAtOffset`: frames are cut out of every channel stream.
use mathlib.Core.List.{append-nil}
use native.Mathlib.Nat.{mul-le-mul_right, mul-sub, mul_comm}
use cxxaudio_utilities.Base.{
  ℕ, ◌+◌, ◌-◌, ◌*◌, ◌≤◌, ◌<◌, ◌≡◌, refl, arith, inl, inr, ◌||◌, Bool-cases, Option, some, List, [],
  ◌∷◌, ◌++◌, map, take, min, ltb, ◌==◌, add32, sub32, mul32, u32_mod, memcpy-Copied, take-take,
  drop_all, length-take, take-append-drop, ap, ap₂, ◌∙◌, sym,
}
use cxxaudio_utilities.BufferList.{
  AudioBuffer, BufferList, each, move_bytes, move_frames, set_frame_length, trim_at_offset,
}
use cxxaudio_utilities.BufferList.Channels.{cut_out, moved_down}
use cxxaudio_utilities.BufferList.Frames.{
  heads, contents, contents-heads, AllWide, Holds, Leaves, byte_size-le, byte_size,
  set_frame_length-Leaves,
}

-- What moving the ends of all buffers down leaves.
record MovedDown (cap o f e : ℕ) (bufs : List AudioBuffer) (result : Option (List AudioBuffer))
    : Type 0 where
  out : List AudioBuffer
  returns : result ≡ some out
  wide : AllWide cap out
  rows : heads (o + (e - f)) out ≡ map (cut_out o f) (heads e bufs)

each-MovedDown :
    (cap o f e : ℕ) (bufs : List AudioBuffer)
    → o ≤ f
    → f ≤ e
    → e ≤ cap
    → AllWide cap bufs
    → MovedDown cap o f e bufs (each (move_bytes o f (e - f)) bufs)
unfolding each move_bytes
each-MovedDown cap o f e [] of fe ec w = record { out = []; returns = refl; wide = w; rows = refl }
each-MovedDown cap o f e (a ∷ as') of fe ec w =
    let wide = w.0 in
    let c = memcpy-Copied a.memory o a.memory f (e - f) (omega arith) (omega arith) in
    let rest = each-MovedDown cap o f e as' of fe ec w.1 in
    record {
      out = record a { memory = c.out } ∷ rest.out;
      returns = rw (c.returns, rest.returns);
      wide = (omega (arith, c.same_length), rest.wide);
      rows = ap₂ ◌∷◌ (moved_down a.memory o f e of fe (omega arith) c) rest.rows;
    }

-- Cutting out the end needs no move.
cut_out_end : (m : List ℕ) (o e : ℕ) → o ≤ e → take o m ≡ cut_out o e (take e m)
cut_out_end m o e le = sym (
    ap₂ ◌++◌ (take-take o e m le) (drop_all e (take e m) (omega (arith, length-take e m)))
    ∙ append-nil (take o m))

cut_out_ends :
    (o e : ℕ) (bufs : List AudioBuffer) → o ≤ e → heads o bufs ≡ map (cut_out o e) (heads e bufs)
cut_out_ends o e [] le = refl
cut_out_ends o e (a ∷ as') le = ap₂ ◌∷◌ (cut_out_end a.memory o e le) (cut_out_ends o e as' le)

-- Cutting out nothing changes nothing.
cut_out_nothing : (o : ℕ) (rows : List (List ℕ)) → rows ≡ map (cut_out o o) rows
cut_out_nothing o [] = refl
cut_out_nothing o (c ∷ cs) = ap₂ ◌∷◌ (sym (take-append-drop o c)) (cut_out_nothing o cs)

-- How many frames are trimmed.
abbrev pub trimmed : BufferList → ℕ → ℕ → ℕ
trimmed b offset frame_length = min frame_length (b.frame_length - offset)

-- The sizes of the frames that stay.
pub mul-sub_right : (k m n : ℕ) → (m - n) * k ≡ m * k - n * k
mul-sub_right k m n = rw (mul_comm (m - n) k, mul_comm m k, mul_comm n k) (mul-sub k m n)

kept_size_of : (k o n d : ℕ) → (o + n + d - n) * k ≡ o * k + ((o + n + d) * k - (o + n) * k)
kept_size_of k o n d = let shorter : o + n + d - n ≡ o + d = omega arith in rw shorter (omega arith)

whole_size :
    (k o n m d : ℕ)
    → o + n + d ≡ m
    → (o + n + d - n) * k ≡ o * k + ((o + n + d) * k - (o + n) * k)
    → (m - n) * k ≡ o * k + (m * k - (o + n) * k)
whole_size k o n m d e = rw e (λ h. h)

kept_size : (k o n m : ℕ) → o + n ≤ m → (m - n) * k ≡ o * k + (m * k - (o + n) * k)
kept_size k o n m le =
    let whole : o + n + (m - (o + n)) ≡ m = omega arith in
    whole_size k o n m (m - (o + n)) whole (kept_size_of k o n (m - (o + n)))

ends_cut :
    (k o n m : ℕ) (bufs : List AudioBuffer)
    → m ≡ o + n
    → heads ((m - n) * k) bufs ≡ map (cut_out (o * k) ((o + n) * k)) (heads (m * k) bufs)
ends_cut k o n m bufs e =
    let shorter : o + n - n ≡ o = omega arith in
    rw (e, shorter) (cut_out_ends (o * k) ((o + n) * k) bufs (mul-le-mul_right k (omega arith)))

module _ {b : BufferList} {bufs : List AudioBuffer} (v : Holds b bufs) where
  -- The loop over the buffers, which moves the bytes behind the frames `o` to `o + n` down.
  moves :
      (o n : ℕ)
      → o + n ≤ b.frame_length
      → let bpf = b.format.bytes_per_frame in
        MovedDown (b.frame_capacity * bpf) (o * bpf) ((o + n) * bpf) (b.frame_length * bpf) bufs (
          each
            (move_bytes (mul32 o bpf) (mul32 (o + n) bpf) (mul32 (b.frame_length - (o + n)) bpf))
            bufs)
  moves o n le =
      let bpf = b.format.bytes_per_frame in
      let inside = v.within in
      let down =
        each-MovedDown (b.frame_capacity * bpf) (o * bpf) ((o + n) * bpf) (b.frame_length * bpf)
          bufs (mul-le-mul_right bpf (omega arith)) (mul-le-mul_right bpf le)
          (byte_size-le v b.frame_length inside) v.wide in
      let left : mul32 (b.frame_length - (o + n)) bpf ≡ b.frame_length * bpf - (o + n) * bpf =
        byte_size v (b.frame_length - (o + n)) (omega arith)
        ∙ mul-sub_right bpf b.frame_length (o + n) in
      let to = byte_size v o (omega arith) in
      let from = byte_size v (o + n) (omega arith) in rw (to, from, left) down

  -- The buffers after the move, before the length is set.
  move_frames-down :
      (o n : ℕ)
      → o + n ≤ b.frame_length
      → let bpf = b.format.bytes_per_frame in
        (bufs' : List AudioBuffer) × (move_frames b o (o + n) (b.frame_length - (o + n))
          ≡ some (record b { list = some bufs' }))
        × AllWide (b.frame_capacity * bpf) bufs'
        × (heads ((b.frame_length - n) * bpf) bufs'
            ≡ map (cut_out (o * bpf) ((o + n) * bpf)) (heads (b.frame_length * bpf) bufs))
  unfolding move_frames
  move_frames-down o n le = elim (Bool-cases (b.frame_length - (o + n) == 0)) [
    | inl z ↦
        let whole : b.frame_length ≡ o + n = ground arith in
        let same : some b ≡ some (record b { list = some bufs }) =
          ap (λ l. some (record b { list = l })) v.allocated in
        (
          bufs,
          simp (z, same),
          v.wide,
          ends_cut b.format.bytes_per_frame o n b.frame_length bufs whole,
        )
    | inr nz ↦
        let m = moves o n le in
        (
          m.out,
          simp (nz, v.allocated, m.returns),
          m.wide,
          rw (kept_size b.format.bytes_per_frame o n b.frame_length le) m.rows,
        )
  ]

  -- A buffer list that stays as it is.
  unchanged :
      (o n : ℕ)
      → n ≡ 0
      → let bpf = b.format.bytes_per_frame in
        Leaves b b (b.frame_length - n) (map (cut_out (o * bpf) ((o + n) * bpf)) (contents b))
  unchanged o n e =
      let same : o + 0 ≡ o = omega arith in
      record {
        buffers = bufs;
        holds = v;
        now = rw (e, same) (cut_out_nothing (o * b.format.bytes_per_frame) (contents b));
        new_length = omega (arith, e);
        same_format = refl;
        same_capacity = refl;
      }

  -- On an allocated buffer list, `TrimAtOffset` cuts at most `frame_length` frames from `offset` on
  -- out of every channel stream, as many as there are, and returns their number; from behind the
  -- end it cuts none. The format and the capacity stay, and the length falls by that number.
  pub trim_at_offset-Leaves :
      (offset frame_length : ℕ)
      → frame_length < u32_mod
      → let bpf = b.format.bytes_per_frame in
        let n = trimmed b offset frame_length in
        (b' : BufferList) × (trim_at_offset b offset frame_length ≡ some (n, b'))
        × Leaves b b'
            (b.frame_length - n)
            (map (cut_out (offset * bpf) ((offset + n) * bpf)) (contents b))
  unfolding trim_at_offset
  trim_at_offset-Leaves offset frame_length bounded =
      let bpf = b.format.bytes_per_frame in
      let inside = v.within in
      let fits = v.frames_fit in
      elim (Bool-cases (ltb b.frame_length offset || (frame_length == 0))) [
        | inl refused ↦
            let none_left : min frame_length (b.frame_length - offset) ≡ 0 = ground arith in
            (
              b,
              simp (refused, none_left),
              unchanged offset (trimmed b offset frame_length) none_left,
            )
        | inr goes ↦
            let n = trimmed b offset frame_length in
            let le : offset + n ≤ b.frame_length = ground arith in
            let count : sub32 b.frame_length offset ≡ b.frame_length - offset = ground arith in
            let behind : add32 offset n ≡ offset + n = ground arith in
            let tail : sub32 b.frame_length (offset + n) ≡ b.frame_length - (offset + n) =
              ground arith in
            let left : sub32 b.frame_length n ≡ b.frame_length - n = ground arith in
            let m = move_frames-down offset n le in
            let v' : Holds (record b { list = some m.0 }) m.0 = record {
              allocated = refl;
              wide = m.2;
              bytes_fit = v.bytes_fit;
              frames_fit = v.frames_fit;
              within = v.within;
            } in
            let after = set_frame_length-Leaves v' (b.frame_length - n) (omega arith) in
            (
              (set_frame_length (record b { list = some m.0 }) (b.frame_length - n)).1,
              simp (goes, count, behind, tail, m.1, left),
              record {
                buffers = after.buffers;
                holds = after.holds;
                now = after.now ∙ rw (contents-heads v) m.3;
                new_length = after.new_length;
                same_format = after.same_format;
                same_capacity = after.same_capacity;
              },
            )
      ]
