-- ===== src/BufferList/Ends.antt =====
-- `TrimFirst` and `TrimLast`: frames are taken off the ends of every channel stream.
use native.Mathlib.Nat.{mul-le-mul_right, zero-mul}
use cxxaudio_utilities.Base.{
  ℕ, ◌+◌, ◌-◌, ◌*◌, ◌≤◌, ◌<◌, ◌≡◌, refl, arith, some, List, [], ◌∷◌, map, take, drop, min, sub32,
  u32_mod, take-take, ap, ap₂, ◌∙◌, sym,
}
use cxxaudio_utilities.BufferList.{AudioBuffer, BufferList, set_frame_length, trim_first, trim_last}
use cxxaudio_utilities.BufferList.Channels.{cut_out}
use cxxaudio_utilities.BufferList.Frames.{
  heads, contents, contents-heads, Holds, Leaves, set_frame_length-Leaves,
}
use cxxaudio_utilities.BufferList.Trim.{trimmed, trim_at_offset-Leaves}

-- Cutting out the start leaves the rest.
cut_out-drop : (n : ℕ) (rows : List (List ℕ)) → map (cut_out 0 n) rows ≡ map (drop n) rows
cut_out-drop n [] = refl
cut_out-drop n (c ∷ cs) = ap (◌∷◌ (drop n c)) (cut_out-drop n cs)

cut_out_first :
    (k m n : ℕ) (rows : List (List ℕ))
    → m ≡ n
    → map (cut_out (0 * k) ((0 + m) * k)) rows ≡ map (drop (n * k)) rows
cut_out_first k m n rows e =
    let zero_bytes : 0 * k ≡ 0 = zero-mul k in
    let count : (0 + m) * k ≡ n * k = ap (λ i. i * k) (omega (arith, e)) in
    rw (zero_bytes, count) (cut_out-drop (n * k) rows)

pub Leaves-eq :
    {b b' : BufferList} {m n : ℕ} {rows rows' : List (List ℕ)}
    → m ≡ n
    → rows ≡ rows'
    → Leaves b b' m rows
    → Leaves b b' n rows'
Leaves-eq e q l = record {
  buffers = l.buffers;
  holds = l.holds;
  now = l.now ∙ q;
  new_length = l.new_length ∙ e;
  same_format = l.same_format;
  same_capacity = l.same_capacity;
}

heads-take :
    (k n : ℕ) (bufs : List AudioBuffer) → k ≤ n → heads k bufs ≡ map (take k) (heads n bufs)
heads-take k n [] le = refl
heads-take k n (a ∷ as') le = ap₂ ◌∷◌ (sym (take-take k n a.memory le)) (heads-take k n as' le)

module _ {b : BufferList} {bufs : List AudioBuffer} (v : Holds b bufs) where
  -- On an allocated buffer list, `TrimFirst` drops the first frames of every channel stream and
  -- `TrimLast` the last ones: each as many as are asked for and there, which it returns.
  pub trim_first_last :
      (frame_length : ℕ)
      → frame_length < u32_mod
      → let bpf = b.format.bytes_per_frame in
        let n = min frame_length b.frame_length in
        (first : BufferList) × (last : BufferList) × (trim_first b frame_length ≡ some (n, first))
        × Leaves b first (b.frame_length - n) (map (drop (n * bpf)) (contents b))
        × (trim_last b frame_length ≡ (n, last))
        × Leaves b last (b.frame_length - n) (map (take ((b.frame_length - n) * bpf)) (contents b))
  unfolding trim_first trim_last
  trim_first_last frame_length bounded =
      let bpf = b.format.bytes_per_frame in
      let inside = v.within in
      let fits = v.frames_fit in
      let n = min frame_length b.frame_length in
      let first = trim_at_offset-Leaves v 0 frame_length bounded in
      let count : trimmed b 0 frame_length ≡ n = omega arith in
      let left : sub32 b.frame_length n ≡ b.frame_length - n = omega arith in
      let last = set_frame_length-Leaves v (b.frame_length - n) (omega arith) in
      (
        first.0,
        (set_frame_length b (b.frame_length - n)).1,
        first.1 ∙ ap (λ k. some (k, first.0)) count,
        Leaves-eq (omega (arith, count))
            (cut_out_first bpf (trimmed b 0 frame_length) n (contents b) count) first.2,
        rw left refl,
        Leaves-eq refl
            (heads-take ((b.frame_length - n) * bpf) (b.frame_length * bpf) bufs
                (mul-le-mul_right bpf (omega arith))
              ∙ ap (map (take ((b.frame_length - n) * bpf))) (sym (contents-heads v)))
            last,
      )
