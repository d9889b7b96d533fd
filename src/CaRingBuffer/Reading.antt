-- ===== src/CaRingBuffer/Reading.antt =====
-- What `Read` does on its two branches, in terms of the audio between the time bounds.
use mathlib.Core.Path.{subst}
use native.Mathlib.Nat.{mod-lt, mul-le-mul_right, mul-lt-mul_of_pos_right, add-mul}
use cxxaudio_utilities.Base.{
  ℕ, ◌+◌, ◌-◌, ◌*◌, ◌%◌, ◌^◌, ◌≤◌, ◌<◌, ◌≡◌, refl, sym, ap, ◌∙◌, arith, true, false, Option, some,
  List, [], ◌∷◌, ◌++◌, length, drop, replicate, ltb, leb, ◌==◌, max, min, if◌then◌else◌, get_or_ext,
  length-append, length-replicate, length-drop, ◌>>=◌, memset_zero-Cleared, ==_self, Bool, u32_mod,
}
use cxxaudio_utilities.StreamDescription.{Constants}
use cxxaudio_utilities.BufferList.{AudioBuffer, set_sizes}
use cxxaudio_utilities.RingBuffer.Invariant.{wrap}
use cxxaudio_utilities.AudioRingBuffer.Channels.{AllHave, whole}
use cxxaudio_utilities.AudioRingBuffer.Copies.{mul32_eq}
use cxxaudio_utilities.CaRingBuffer.{
  CaRingBuffer, pos, start_time, end_time, zero_abl, clear_around, fetch_frames, read, read_clamped,
  clamp_times_to_bounds,
}
use cxxaudio_utilities.CaRingBuffer.Times.{clamp_times_to_bounds_lem}
use cxxaudio_utilities.CaRingBuffer.Timeline.{Holds, timeline, timeline-frames, offset-later}
use cxxaudio_utilities.CaRingBuffer.Passes.{cleared, Became}
use cxxaudio_utilities.CaRingBuffer.Heard.{heard, byte_at-end, Became-heard}
use cxxaudio_utilities.CaRingBuffer.Fetching.{
  played, clear_around-Pass, fetch_frames-Fetched, lead_computed, total,
}

module _ {k : Constants} {r : CaRingBuffer} {blocks : List (List ℕ)} (v : Holds k r blocks) where
  abbrev cap : ℕ
  cap = r.capacity_frames

  abbrev bpf : ℕ
  bpf = r.format.bytes_per_frame

  read-read_clamped :
      (list : List AudioBuffer) (n start0 : ℕ)
      → 0 < n
      → n ≤ cap
      → start0 + n < 2 ^ 63
      → read r (some list) n (pos start0)
        ≡ read_clamped r list n start0 (start0 + n) (clamp_times_to_bounds r start0 (start0 + n))
  unfolding read
  read-read_clamped list n start0 positive fits counted =
      let some_frames : (n == 0) ≡ false = ground arith in
      let fits' : ltb cap n ≡ false = ground arith in
      let counted' : ltb (start0 + n) (2 ^ 63) ≡ true = ground arith in
      simp (some_frames, fits', counted')

  abbrev deliver_list : List AudioBuffer × ℕ → Option (Bool × Option (List AudioBuffer))
  deliver_list f = some (true, some (set_sizes f.1 f.0))

  -- The steps after the silence.
  abbrev finish : ℕ → ℕ → ℕ → ℕ → List AudioBuffer → Option (Bool × Option (List AudioBuffer))
  finish n start0 first last cleared =
      fetch_frames r blocks cleared ((first - start0) * bpf % u32_mod) first last >>= deliver_list

  read_clamped_apart :
      (list : List AudioBuffer) (n start0 first last : ℕ)
      → (first == last) ≡ false
      → read_clamped r list n start0 (start0 + n) (some (first, last))
        ≡ (clear_around r list n start0 (start0 + n) first last >>= finish n start0 first last)
  unfolding read_clamped
  read_clamped_apart list n start0 first last apart = simp (apart, v.allocated)

  -- What is fetched, as parts of the rows.
  common_heard :
      (list : List AudioBuffer) (n start0 : ℕ) (out : List AudioBuffer)
      → let first = max start0 (start_time r) in
        let last = min (start0 + n) (end_time r) in
        let lead = (first - start0) * bpf in
        let mid = (last - first) * bpf in
        let tail = (start0 + n - last) * bpf in
        first < last
        → n ≤ cap
        → lead + mid + tail ≡ n * bpf
        → AllHave (n * bpf) list
        → Became (played (cap * bpf) (first % cap * bpf) lead mid tail) blocks list out
        → out ≡ heard lead ((first - start_time r) * bpf) mid tail (timeline r) list
  common_heard list n start0 out common fits sum have h =
      let first = max start0 (start_time r) in
      let last = min (start0 + n) (end_time r) in
      let lead = (first - start0) * bpf in
      let mid = (last - first) * bpf in
      let tail = (start0 + n - last) * bpf in
      let start = start_time r in
      let positive : 0 < cap = omega (arith, v.capacity.at_least) in
      let inside : start % cap * bpf < cap * bpf =
        mul-lt-mul_of_pos_right {m = start % cap} {n = cap} {k = bpf} (mod-lt start positive)
          v.frame_size in
      let bounded : end_time r - start ≤ cap = omega (arith, v.timed.fits) in
      let part : (first - start) * bpf + mid ≤ (end_time r - start) * bpf =
        let le : first - start + (last - first) ≤ end_time r - start = omega (arith, common) in
        let le' : (first - start + (last - first)) * bpf ≤ (end_time r - start) * bpf =
          mul-le-mul_right bpf le in
        omega (arith, le', add-mul (first - start) (last - first) bpf) in
      let split : start + (first - start) ≡ first = omega arith in
      let place : first % cap * bpf ≡ wrap (cap * bpf) (start % cap * bpf + (first - start) * bpf) =
        ap (λ (i : ℕ). i % cap * bpf) (sym split)
        ∙ offset-later cap start (first - start) bpf positive v.frame_size
            (omega (arith, common, bounded)) in
      Became-heard (cap * bpf) (start % cap * bpf) (first % cap * bpf) ((end_time r - start) * bpf)
        lead ((first - start) * bpf) mid tail inside (mul-le-mul_right bpf bounded) part place
        blocks list out (subst (λ i. AllHave i list) (sym sum) have) h
      ∙ ap (λ q. heard lead ((first - start) * bpf) mid tail q list) (sym (timeline-frames v))

  -- `Read` from an allocated object of `n` frames, at least one and at most the capacity, into a
  -- list of as many buffers as there are blocks, each with room for those frames, for a time range
  -- whose end an `int64_t` holds and that has times in common with the time bounds: it succeeds,
  -- every buffer gets silence up to the first common time, the audio that its channel has for the
  -- common times, and silence up to the end of the range, and its size becomes that of the common
  -- part alone.
  pub ca_read_common :
      (list : List AudioBuffer) (n start0 : ℕ)
      → max start0 (start_time r) < min (start0 + n) (end_time r)
      → 0 < n
      → n ≤ cap
      → start0 + n < 2 ^ 63
      → length list ≡ length blocks
      → AllHave (n * bpf) list
      → let first = max start0 (start_time r) in
        let last = min (start0 + n) (end_time r) in
        let mid = (last - first) * bpf in
        read r (some list) n (pos start0)
        ≡ some (
          true,
          some (
              set_sizes mid (
                heard
                  ((first - start0) * bpf)
                  ((first - start_time r) * bpf)
                  mid
                  ((start0 + n - last) * bpf)
                  (timeline r)
                  list)),
        )
  ca_read_common list n start0 common positive fits counted same have =
      let first = max start0 (start_time r) in
      let last = min (start0 + n) (end_time r) in
      let lead = (first - start0) * bpf in
      let mid = (last - first) * bpf in
      let tail = (start0 + n - last) * bpf in
      let (t, clamped) = clamp_times_to_bounds_lem v.timed start0 (start0 + n) in
      let common' : ltb first last ≡ true = ground arith in
      let clamped' : clamp_times_to_bounds r start0 (start0 + n) ≡ some (first, last) =
        clamped ∙ ap (λ b. some (if b then (first, last) else (t, t))) common' in
      let apart : (first == last) ≡ false = ground arith in
      let c =
        clear_around-Pass v start0 n first last (omega arith) common (omega arith) fits list same
          have in
      let f =
        fetch_frames-Fetched v start0 n first last (omega arith) common (omega arith) fits list
          c.out have c.became in
      let out = heard lead ((first - start_time r) * bpf) mid tail (timeline r) list in
      let sum = total v start0 n first last (omega arith) common (omega arith) fits in
      let done : f.out ≡ out = common_heard list n start0 f.out common fits sum have f.became in
      read-read_clamped list n start0 positive fits counted
      ∙ ap (read_clamped r list n start0 (start0 + n)) clamped'
      ∙ read_clamped_apart list n start0 first last apart
      ∙ ap (λ o. o >>= finish n start0 first last) c.returns
      ∙ ap (λ l. fetch_frames r blocks c.out l first last >>= deliver_list)
          (lead_computed v start0 n first last (omega arith) common (omega arith) fits)
      ∙ ap (λ o. o >>= deliver_list) f.returns
      ∙ ap (λ l. some (true, some (set_sizes mid l))) done

-- Every buffer with its first `n` bytes silent.
abbrev pub hushed : ℕ → List AudioBuffer → List AudioBuffer
hushed n [] = []
hushed n (a ∷ as') = record a { memory = replicate n 0 ++ drop n a.memory } ∷ hushed n as'

zero_abl-hushed :
    (n : ℕ) (list : List AudioBuffer) → AllHave n list → zero_abl list 0 n ≡ some (hushed n list)
unfolding zero_abl
zero_abl-hushed n [] have = refl
zero_abl-hushed n (a ∷ as') have =
    let c = memset_zero-Cleared a.memory 0 n (omega (arith, have.0)) in
    let ok : leb 0 a.data_byte_size ≡ true = ground arith in
    let all = whole 0 n a.data_byte_size (omega (arith, have.0)) have.0.2 in
    let silent : c.out ≡ replicate n 0 ++ drop n a.memory =
      get_or_ext 0 c.out (replicate n 0 ++ drop n a.memory)
        (omega (
          arith,
          have.0,
          c.same_length,
          length-append (replicate n 0) (drop n a.memory),
          length-replicate {A = ℕ} n 0,
          length-drop n a.memory,
        ))
        λ i h. ground (arith, c.at i, byte_at-end n n a.memory i) in
    rw (ok, all, c.returns, zero_abl-hushed n as' have.1, silent) refl

module _ {k : Constants} {r : CaRingBuffer} {blocks : List (List ℕ)} (v : Holds k r blocks) where
  read_clamped_same :
      (list : List AudioBuffer) (n start0 t : ℕ)
      → n ≤ r.capacity_frames
      → AllHave (n * r.format.bytes_per_frame) list
      → read_clamped r list n start0 (start0 + n) (some (t, t))
        ≡ some (true, some (hushed (n * r.format.bytes_per_frame) list))
  unfolding read_clamped
  read_clamped_same list n start0 t fits have =
      let bytes = mul32_eq n r.capacity_frames r.format.bytes_per_frame fits v.small in
      let silent = zero_abl-hushed (n * r.format.bytes_per_frame) list have in
      rw (==_self t, bytes, silent) refl

  -- `Read` from an allocated object of `n` frames, at least one and at most the capacity, into a
  -- list whose buffers have room for those frames, for a time range whose end an `int64_t` holds and
  -- that has no time in common with the time bounds: it succeeds, and every buffer gets that many
  -- frames of silence and keeps its size.
  pub ca_read_silence :
      (list : List AudioBuffer) (n start0 : ℕ)
      → min (start0 + n) (end_time r) ≤ max start0 (start_time r)
      → 0 < n
      → n ≤ r.capacity_frames
      → start0 + n < 2 ^ 63
      → AllHave (n * r.format.bytes_per_frame) list
      → read r (some list) n (pos start0)
        ≡ some (true, some (hushed (n * r.format.bytes_per_frame) list))
  ca_read_silence list n start0 none_common positive fits counted have =
      let first = max start0 (start_time r) in
      let last = min (start0 + n) (end_time r) in
      let (t, clamped) = clamp_times_to_bounds_lem v.timed start0 (start0 + n) in
      let apart : ltb first last ≡ false = ground arith in
      let clamped' : clamp_times_to_bounds r start0 (start0 + n) ≡ some (t, t) =
        clamped ∙ ap (λ b. some (if b then (first, last) else (t, t))) apart in
      read-read_clamped v list n start0 positive fits counted
      ∙ ap (read_clamped r list n start0 (start0 + n)) clamped'
      ∙ read_clamped_same list n start0 t fits have
