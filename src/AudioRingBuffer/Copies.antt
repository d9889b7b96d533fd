-- ===== src/AudioRingBuffer/Copies.antt =====
-- The copies of `Read` and `Write` of the audio ring buffer, in frames: what they do to the audio that
-- waits in every channel.
use native.Mathlib.Nat.{add-mul, mul-le-mul_right, mul-lt-mul_of_pos_right}
use cxxaudio_utilities.Base.{
  ℕ, ◌+◌, ◌-◌, ◌*◌, ◌≤◌, ◌<◌, ◌≡◌, refl, sym, ap, ◌∙◌, arith, inl, inr, Bool-cases, some, List,
  length, ltb, add32, sub32, mul32, u32_mod, ◌>>=◌,
}
use cxxaudio_utilities.BufferList.{AudioBuffer}
use cxxaudio_utilities.RingBuffer.Invariant.{stored, wrap}
use cxxaudio_utilities.AudioRingBuffer.{AudioRingBuffer, store_abl, fetch_abl, copy_in, copy_out}
use cxxaudio_utilities.AudioRingBuffer.Channels.{
  AllHave, Grown, store_abl-StoredFlat, store_abl-StoredRound,
}
use cxxaudio_utilities.AudioRingBuffer.Fronts.{
  delivered, fetch_abl-delivered, fetch_abl-FetchedRound,
}
use cxxaudio_utilities.AudioRingBuffer.Frames.{
  Holds, positions, channels, channels-segments, wrap-mul, sub-mul_frame,
}

-- The offsets and sizes that the copies compute, where no product of 32 bits wraps.
pub mul32_eq : (x cap b : ℕ) → x ≤ cap → cap * b < u32_mod → mul32 x b ≡ x * b
mul32_eq x cap b le small = let le' : x * b ≤ cap * b = mul-le-mul_right b le in omega arith

-- The blocks after the copies of `Write`.
pub record CopiedIn (r : AudioRingBuffer) (blocks : List (List ℕ)) (list : List AudioBuffer) (n : ℕ)
    : Type 0 where
  pub out : List (List ℕ)
  pub returns : copy_in r blocks list n ≡ some out
  pub grown :
      Grown
        (r.capacity_frames * r.format.bytes_per_frame)
        (r.read_pointer * r.format.bytes_per_frame)
        (stored (positions r) * r.format.bytes_per_frame)
        (n * r.format.bytes_per_frame)
        blocks
        list
        out

-- A transfer of `n` frames from position `p` on that goes round: what both parts of it are.
pub record Round (cap p n b : ℕ) : Type 0 where
  pub over_bytes : cap * b ≤ p * b + n * b
  pub first_frames : sub32 cap p ≡ cap - p
  pub first_bytes : mul32 (cap - p) b ≡ cap * b - p * b
  pub second_frames : sub32 n (cap - p) ≡ n - (cap - p)
  pub second_bytes : mul32 (n - (cap - p)) b ≡ n * b - (cap * b - p * b)

pub Round-of_over :
    (cap p n b : ℕ)
    → p < cap
    → n ≤ cap
    → cap ≤ p + n
    → cap < u32_mod
    → cap * b < u32_mod
    → Round cap p n b
Round-of_over cap p n b inside le over cap_small small =
    let le' : cap * b ≤ (p + n) * b = mul-le-mul_right b over in
    let part = sub-mul_frame p cap b (omega arith) in
    record {
      over_bytes = omega (arith, le', add-mul p n b);
      first_frames = omega arith;
      first_bytes = mul32_eq (cap - p) cap b (omega arith) small ∙ part;
      second_frames = omega arith;
      second_bytes =
          mul32_eq (n - (cap - p)) cap b (omega arith) small
          ∙ sub-mul_frame (cap - p) n b (omega arith)
          ∙ ap (λ (t : ℕ). n * b - t) part;
    }

module _ {r : AudioRingBuffer} {blocks : List (List ℕ)} (v : Holds r blocks) where
  abbrev bpf : ℕ
  bpf = r.format.bytes_per_frame

  abbrev cap : ℕ
  cap = r.capacity_frames

  abbrev front : ℕ
  front = r.read_pointer

  abbrev waiting : ℕ
  waiting = stored (positions r)

  pub pointer-mul : r.write_pointer * bpf ≡ wrap (cap * bpf) (front * bpf + waiting * bpf)
  pointer-mul =
      let start : wrap cap (front + waiting) ≡ r.write_pointer = ground arith in
      sym (
        ap (wrap (cap * bpf)) (sym (add-mul front waiting bpf))
        ∙ wrap-mul cap (front + waiting) bpf v.frame_size
        ∙ ap (λ i. i * bpf) start)

  front-lt : front * bpf < cap * bpf
  front-lt = mul-lt-mul_of_pos_right {m = front} {n = cap} {k = bpf} v.placed.read_in v.frame_size

  pub copy_in-CopiedIn :
      (list : List AudioBuffer) (n : ℕ)
      → n ≤ cap - 1 - waiting
      → length list ≡ length blocks
      → AllHave (n * bpf) list
      → CopiedIn r blocks list n
  unfolding copy_in
  copy_in-CopiedIn list n le same have =
      let w = r.write_pointer in
      let sum : add32 w n ≡ w + n = ground arith in
      let room : waiting * bpf + n * bpf ≤ cap * bpf =
        let lt : (waiting + n) * bpf < cap * bpf =
          mul-lt-mul_of_pos_right {m = waiting + n} {n = cap} {k = bpf} (ground arith)
            v.frame_size in
        omega (arith, lt, add-mul waiting n bpf) in
      let offset : mul32 w bpf ≡ w * bpf =
        mul32_eq w cap bpf (omega (arith, v.placed.write_in)) v.small in
      elim (Bool-cases (ltb cap (w + n))) [
        | inl round ↦
            let go =
              Round-of_over cap w n bpf v.placed.write_in (ground arith) (ground arith)
                (ground arith) v.small in
            let s =
              store_abl-StoredRound (cap * bpf) (front * bpf) (w * bpf) (waiting * bpf) (n * bpf)
                front-lt room pointer-mul go.over_bytes blocks list same v.sized have in
            let z = cap * bpf - w * bpf in
            let y = n * bpf - z in
            let parts : copy_in r blocks list n
                ≡ (store_abl blocks (w * bpf) list 0 z >>= λ b. store_abl b 0 list z y) =
              rw
                (
                  sum, round, go.first_frames, go.second_frames, go.first_bytes, go.second_bytes,
                  offset,
                )
                refl in
            record {
              out = s.out;
              returns = parts ∙ ap (λ o. o >>= λ b. store_abl b 0 list z y) s.first ∙ s.second;
              grown = s.grown;
            }
        | inr flat ↦
            let end' : (w + n) * bpf ≤ cap * bpf = mul-le-mul_right bpf (ground arith) in
            let fits : w * bpf + n * bpf ≤ cap * bpf = omega (arith, end', add-mul w n bpf) in
            let count : mul32 n bpf ≡ n * bpf = mul32_eq n cap bpf (ground arith) v.small in
            let s =
              store_abl-StoredFlat (cap * bpf) (front * bpf) (w * bpf) (waiting * bpf) (n * bpf)
                front-lt room pointer-mul fits blocks list same v.sized have in
            let whole : copy_in r blocks list n ≡ store_abl blocks (w * bpf) list 0 (n * bpf) =
              rw (sum, flat, offset, count) refl in
            record { out = s.out; returns = whole ∙ s.returns; grown = s.grown }
      ]

  pub copy_out-delivered :
      (list : List AudioBuffer) (n : ℕ)
      → n ≤ waiting
      → length list ≡ length blocks
      → AllHave (n * bpf) list
      → copy_out r blocks list n ≡ some (delivered (n * bpf) (channels r) list)
  unfolding copy_out
  copy_out-delivered list n le same have =
      let sum : add32 front n ≡ front + n = ground arith in
      let below : waiting < cap = ground arith in
      let le' : n * bpf ≤ waiting * bpf = mul-le-mul_right bpf le in
      let small : waiting * bpf ≤ cap * bpf =
        let le'' : waiting ≤ cap = omega arith in mul-le-mul_right bpf le'' in
      let offset : mul32 front bpf ≡ front * bpf =
        mul32_eq front cap bpf (omega (arith, v.placed.read_in)) v.small in
      elim (Bool-cases (ltb cap (front + n))) [
        | inl round ↦
            let go =
              Round-of_over cap front n bpf v.placed.read_in (omega arith) (ground arith)
                (ground arith) v.small in
            let f =
              fetch_abl-FetchedRound (cap * bpf) (front * bpf) (waiting * bpf) (n * bpf) front-lt
                le' small go.over_bytes blocks list same v.sized have in
            let z = cap * bpf - front * bpf in
            let y = n * bpf - z in
            let parts : copy_out r blocks list n
                ≡ (fetch_abl list 0 blocks (front * bpf) z >>= λ l. fetch_abl l z blocks 0 y) =
              rw
                (
                  sum, round, go.first_frames, go.second_frames, go.first_bytes, go.second_bytes,
                  offset,
                )
                refl in
            parts
            ∙ ap (λ o. o >>= λ l. fetch_abl l z blocks 0 y) f.first
            ∙ f.second
            ∙ ap (λ q. some (delivered (n * bpf) q list)) (sym (channels-segments v))
        | inr flat ↦
            let end' : (front + n) * bpf ≤ cap * bpf = mul-le-mul_right bpf (ground arith) in
            let count : mul32 n bpf ≡ n * bpf = mul32_eq n cap bpf (omega arith) v.small in
            rw (channels-segments v, sum, flat, offset, count)
              (fetch_abl-delivered (cap * bpf) (front * bpf) (waiting * bpf) (n * bpf) front-lt le'
                small (omega (arith, end', add-mul front n bpf)) blocks list same v.sized have)
      ]
