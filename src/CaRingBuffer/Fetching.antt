-- ===== src/CaRingBuffer/Fetching.antt =====
-- The parts of `Read`, in the numbers of bytes before, of and behind the frames that the object has.
use mathlib.Core.Path.{subst}
use native.Mathlib.Nat.{
  mod-lt, mul-le-mul_right, mul-lt-mul_of_pos_right, mul-pos, add-mul, zero-mul,
}
use cxxaudio_utilities.Base.{
  ℕ, ◌+◌, ◌-◌, ◌*◌, ◌%◌, ◌≤◌, ◌<◌, ◌≡◌, refl, sym, ap, ◌∙◌, arith, inl, inr, Bool-cases, true,
  false, ◌&&◌, ◌||◌, Option, some, List, length, ltb, ltb→lt, lt→ltb, leb, min, if◌then◌else◌,
  byte_at, u32_mod, add32, mul32, ◌>>=◌,
}
use cxxaudio_utilities.StreamDescription.{Constants}
use cxxaudio_utilities.BufferList.{AudioBuffer}
use cxxaudio_utilities.RingBuffer.Invariant.{wrap}
use cxxaudio_utilities.AudioRingBuffer.{fetch_abl}
use cxxaudio_utilities.AudioRingBuffer.Channels.{AllHave}
use cxxaudio_utilities.AudioRingBuffer.Copies.{mul32_eq}
use cxxaudio_utilities.CaRingBuffer.{CaRingBuffer, zero_abl, clear_around, fetch_frames}
use cxxaudio_utilities.CaRingBuffer.Timeline.{Holds, Lies, Lies-frames, frame_byte_offset_lem}
use cxxaudio_utilities.CaRingBuffer.Passes.{
  Bytes, untouched, cleared, fetched, Became, Became-untouched, Became-same, Pass, zero_abl-Pass,
  fetch_abl-Pass,
}

-- The bytes of a buffer with silence around the frames.
abbrev pub around : ℕ → ℕ → ℕ → Bytes
around lead mid tail b m i =
    if ltb i lead || (leb (lead + mid) i && ltb i (lead + mid + tail)) then 0 else byte_at m i

-- The bytes with the frames too, which start at index `p` of the block.
abbrev pub played : ℕ → ℕ → ℕ → ℕ → ℕ → Bytes
played cap p lead mid tail b m i =
    if leb lead i && ltb i (lead + mid)
    then byte_at b (wrap cap (p + (i - lead)))
    else around lead mid tail b m i

-- A pass that is left out when it has nothing to do.
optional :
    (f : Bytes) (o n size : ℕ) (blocks : List (List ℕ)) (list now : List AudioBuffer)
    → o + n ≤ size
    → AllHave size list
    → Became f blocks list now
    → Pass (cleared o n f) blocks list (if ltb 0 n then zero_abl now o n else some now)
optional f o n size blocks list now fits have h = elim (Bool-cases (ltb 0 n)) [
  | inl some_bytes ↦ rw some_bytes (zero_abl-Pass f o n size blocks list now fits have h)
  | inr none_left ↦ rw none_left (record {
    out = now;
    returns = refl;
    became = Became-same blocks list now (λ b m i. ground arith) h;
  })
]

pub clear_both :
    (lead mid tail : ℕ) (blocks : List (List ℕ)) (list : List AudioBuffer)
    → length list ≡ length blocks
    → AllHave (lead + mid + tail) list
    → Pass (around lead mid tail) blocks list (
        (if ltb 0 lead then zero_abl list 0 lead else some list) >>= λ list'.
        if ltb 0 tail then zero_abl list' (lead + mid) tail else some list')
clear_both lead mid tail blocks list same have =
    let one =
      optional untouched 0 lead (lead + mid + tail) blocks list list (omega arith) have
        (Became-untouched blocks list same) in
    let two =
      optional (cleared 0 lead untouched) (lead + mid) tail (lead + mid + tail) blocks list one.out
        (omega arith) have one.became in
    record {
      out = two.out;
      returns =
          ap (λ o. o >>= λ l. if ltb 0 tail then zero_abl l (lead + mid) tail else some l)
            one.returns
          ∙ two.returns;
      became = Became-same blocks list two.out (λ b m i. ground arith) two.became;
    }

-- Two parts, up to the end of the block and from its start.
played_round :
    (cap p lead mid tail : ℕ) (b m : List ℕ) (i : ℕ)
    → p < cap
    → cap ≤ p + mid
    → mid ≤ cap
    → fetched
        (lead + (cap - p))
        0
        (mid - (cap - p))
        (fetched lead p (cap - p) (around lead mid tail))
        b
        m
        i
      ≡ played cap p lead mid tail b m i
played_round cap p lead mid tail b m i inside over small =
    elim (Bool-cases (ltb i (lead + (cap - p)))) [
      | inl first ↦ elim (Bool-cases (ltb i lead)) [
        | inl before ↦ ground arith
        | inr within ↦
            let at' : p + (i - lead) ≡ wrap cap (p + (i - lead)) = ground arith in
            let lo : leb lead i ≡ true = ground arith in
            let hi : ltb i (lead + mid) ≡ true = ground arith in
            rw (first, within, lo, hi) (ap (byte_at b) at')
      ]
      | inr second ↦ elim (Bool-cases (ltb i (lead + (cap - p) + (mid - (cap - p))))) [
        | inl within ↦
            let at' : 0 + (i - (lead + (cap - p))) ≡ wrap cap (p + (i - lead)) = ground arith in
            let lo : leb lead i ≡ true = ground arith in
            let hi : ltb i (lead + mid) ≡ true = ground arith in
            rw (second, within, lo, hi) (ap (byte_at b) at')
        | inr behind ↦
            let lo : ltb i lead ≡ false = ground arith in
            let hi : ltb i (lead + mid) ≡ false = ground arith in
            let lo' : leb lead i ≡ true = ground arith in
            let first' : ltb i (lead + (cap - p)) ≡ false = second in
            rw (first', behind, lo, lo', hi) refl
      ]
    ]

positive-mul : (x b : ℕ) → 0 < b → ltb 0 x ≡ ltb 0 (x * b)
positive-mul x b pos = elim (Bool-cases (ltb 0 x)) [
  | inl some_of ↦
      let lt : 0 < x * b = mul-pos (ltb→lt 0 x some_of) pos in some_of ∙ sym (lt→ltb 0 (x * b) lt)
  | inr none_of ↦
      let e : x ≡ 0 = ground arith in
      let e' : x * b ≡ 0 = ap (λ (i : ℕ). i * b) e ∙ zero-mul b in ground (arith, e')
]

-- The frames that are fetched, and the number of bytes that is reported for every buffer.
pub record Fetched (f : Bytes) (blocks : List (List ℕ)) (list : List AudioBuffer) (bytes : ℕ)
    (result : Option (List AudioBuffer × ℕ)) : Type 0 where
  pub out : List AudioBuffer
  pub returns : result ≡ some (out, bytes)
  pub became : Became f blocks list out

module _ {k : Constants} {r : CaRingBuffer} {blocks : List (List ℕ)} (v : Holds k r blocks)
    (start0 n start end' : ℕ) (from : start0 ≤ start) (some_frames : start < end')
    (until : end' ≤ start0 + n) (fits : n ≤ r.capacity_frames) where
  abbrev cap : ℕ
  cap = r.capacity_frames

  abbrev bpf : ℕ
  bpf = r.format.bytes_per_frame

  abbrev pub lead : ℕ
  lead = (start - start0) * bpf

  abbrev pub mid : ℕ
  mid = (end' - start) * bpf

  abbrev pub tail : ℕ
  tail = (start0 + n - end') * bpf

  pub total : lead + mid + tail ≡ n * bpf
  total =
      let split : start - start0 + (end' - start) + (start0 + n - end') ≡ n = omega arith in
      omega (
        arith,
        add-mul (start - start0) (end' - start) bpf,
        add-mul (start - start0 + (end' - start)) (start0 + n - end') bpf,
        ap (λ (i : ℕ). i * bpf) split,
      )

  in_capacity : n * bpf ≤ cap * bpf
  in_capacity = mul-le-mul_right bpf fits

  pub lead_computed : lead % u32_mod ≡ lead
  lead_computed = mul32_eq (start - start0) cap bpf (omega arith) v.small

  pub clear_around-Pass :
      (list : List AudioBuffer)
      → length list ≡ length blocks
      → AllHave (n * bpf) list
      → Pass
          (around lead mid tail)
          blocks
          list
          (clear_around r list n start0 (start0 + n) start end')
  unfolding clear_around
  clear_around-Pass list same have =
      let frames : (end' - start) % u32_mod ≡ end' - start = omega (arith, v.capacity.at_most) in
      let rest : (start0 + n - end') % u32_mod ≡ start0 + n - end' =
        omega (arith, v.capacity.at_most) in
      let asked : min (mul32 n bpf) lead ≡ lead =
        omega (arith, mul32_eq n cap bpf fits v.small, total) in
      let mid_computed : mul32 (end' - start) bpf ≡ mid =
        mul32_eq (end' - start) cap bpf (omega arith) v.small in
      let tail_computed : mul32 (start0 + n - end') bpf ≡ tail =
        mul32_eq (start0 + n - end') cap bpf (omega arith) v.small in
      let behind : add32 lead mid ≡ lead + mid = omega (arith, total, in_capacity, v.small) in
      let any : ltb 0 (start0 + n - end') ≡ ltb 0 tail =
        positive-mul (start0 + n - end') bpf v.frame_size in
      let c =
        clear_both lead mid tail blocks list same (subst (λ i. AllHave i list) (sym total) have) in
      let parts : clear_around r list n start0 (start0 + n) start end' ≡ (
          (if ltb 0 lead then zero_abl list 0 lead else some list) >>= λ list'.
          if ltb 0 tail then zero_abl list' (lead + mid) tail else some list') =
        rw (lead_computed, frames, rest, mid_computed, asked, tail_computed, behind, any) refl in
      record { out = c.out; returns = parts ∙ c.returns; became = c.became }

  pub fetch_frames-Fetched :
      (list now : List AudioBuffer)
      → AllHave (n * bpf) list
      → Became (around lead mid tail) blocks list now
      → Fetched
          (played (cap * bpf) (start % cap * bpf) lead mid tail)
          blocks
          list
          mid
          (fetch_frames r blocks now lead start end')
  unfolding fetch_frames
  fetch_frames-Fetched list now have h =
      let o = frame_byte_offset_lem v start in
      let p = start % cap * bpf in
      let f = around lead mid tail in
      let positive : 0 < cap = omega (arith, v.capacity.at_least) in
      let below : start % cap * bpf < cap * bpf =
        mul-lt-mul_of_pos_right {m = start % cap} {n = cap} {k = bpf} (mod-lt start positive)
          v.frame_size in
      let size = total in
      let small = in_capacity in
      elim (Lies-frames v start end' some_frames (omega arith)) [
        | Lies.flat lt count inside ↦
            let c =
              fetch_abl-Pass f lead p mid (n * bpf) (cap * bpf) blocks list now
                (omega (arith, size)) inside have v.sized h in
            let whole : fetch_frames r blocks now lead start end'
                ≡ (fetch_abl now lead blocks p mid >>= λ l. some (l, mid)) =
              rw (lt, count, o) refl in
            record {
              out = c.out;
              returns = whole ∙ ap (λ x. x >>= λ l. some (l, mid)) c.returns;
              became = Became-same blocks list c.out (λ b m i. ground arith) c.became;
            }
        | Lies.round ge first second over ↦
            let z = cap * bpf - p in
            let y = mid - z in
            let c =
              fetch_abl-Pass f lead p z (n * bpf) (cap * bpf) blocks list now (omega (arith, size))
                (omega arith) have v.sized h in
            let d =
              fetch_abl-Pass (fetched lead p z f) (lead + z) 0 y (n * bpf) (cap * bpf) blocks list
                c.out (omega (arith, size)) (omega (arith, size)) have v.sized c.became in
            let mid_fits : mid ≤ cap * bpf = omega (arith, size, small) in
            let next : add32 lead z ≡ lead + z = omega (arith, size, small, v.small) in
            let sum : add32 z y ≡ mid = omega (arith, size, small, v.small) in
            let parts : fetch_frames r blocks now lead start end' ≡ (
                fetch_abl now lead blocks p z >>= λ l.
                fetch_abl l (lead + z) blocks 0 y >>= λ l'. some (l', mid)) =
              rw (ge, first, second, o, next, sum) refl in
            record {
              out = d.out;
              returns =
                  parts
                  ∙ ap (λ x. x >>= λ l. fetch_abl l (lead + z) blocks 0 y >>= λ l'. some (l', mid))
                      c.returns
                  ∙ ap (λ x. x >>= λ l'. some (l', mid)) d.returns;
              became =
                  Became-same blocks list d.out
                    (λ b m i. played_round (cap * bpf) p lead mid tail b m i below over mid_fits)
                    d.became;
            }
      ]
