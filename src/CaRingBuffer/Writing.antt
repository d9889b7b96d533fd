-- ===== src/CaRingBuffer/Writing.antt =====
-- What `Write` does on every branch, in terms of the audio between the time bounds.
use mathlib.Core.Path.{subst}
use native.Mathlib.Nat.{zero-mul}
use cxxaudio_utilities.Base.{
  ℕ, ◌+◌, ◌-◌, ◌*◌, ◌%◌, ◌^◌, ◌≤◌, ◌<◌, ◌≡◌, refl, sym, ap, ap₂, ◌∙◌, arith, true, false, Option,
  none, some, List, [], ◌∷◌, length, take, ltb, ◌==◌, max,
}
use cxxaudio_utilities.StreamDescription.{Constants}
use cxxaudio_utilities.BufferList.{AudioBuffer}
use cxxaudio_utilities.AudioRingBuffer.Channels.{AllHave, segments, appended}
use cxxaudio_utilities.AudioRingBuffer.Fronts.{dropped}
use cxxaudio_utilities.CaRingBuffer.{
  CaRingBuffer, ℤ, pos, negsuc, start_time, end_time, make_room, set_time_bounds, write, read,
}
use cxxaudio_utilities.CaRingBuffer.Timeline.{Holds, timeline, frames_between}
use cxxaudio_utilities.CaRingBuffer.Silence.{quieted}
use cxxaudio_utilities.CaRingBuffer.Bounds.{
  Leaves, set_time_bounds-Leaves, write_in, write_in-Written,
}
use cxxaudio_utilities.CaRingBuffer.Room.{start_after, make_room-MakesRoom}

-- The first `n` bytes of every buffer.
abbrev pub fronts : ℕ → List AudioBuffer → List (List ℕ)
fronts n [] = []
fronts n (a ∷ as') = take n a.memory ∷ fronts n as'

-- Silence of no length between nothing and the new frames.
fresh_rows :
    (cap p n : ℕ) (blocks : List (List ℕ)) (list : List AudioBuffer)
    → length list ≡ length blocks
    → appended n (quieted 0 (segments cap p 0 blocks)) list ≡ fronts n list
fresh_rows cap p n [] [] same = refl
fresh_rows cap p n [] (a ∷ as') same = absurd (omega (arith, same))
fresh_rows cap p n (b ∷ bs) [] same = absurd (omega (arith, same))
fresh_rows cap p n (b ∷ bs) (a ∷ as') same =
    ap (◌∷◌ (take n a.memory)) (fresh_rows cap p n bs as' (omega (arith, same)))

-- A transfer that is not to be done: of no frames, without a list, of more frames than the
-- capacity, or at a negative time.
pub data IsRefused (r : CaRingBuffer) : Option (List AudioBuffer) → ℕ → ℤ → Type 0 where
  no_frames : (list : Option (List AudioBuffer)) (time : ℤ) → IsRefused r list 0 time
  no_list : (n : ℕ) (time : ℤ) → IsRefused r none n time
  too_many :
      (list : List AudioBuffer) (n : ℕ) (time : ℤ)
      → r.capacity_frames < n
      → IsRefused r (some list) n time
  negative : (list : List AudioBuffer) (n t : ℕ) → IsRefused r (some list) n (negsuc t)

-- `Write` and `Read` of no frames succeed, and without a list, for more frames than the capacity or
-- at a negative time they fail; the object and the list stay as they are.
pub ca_refused_lem :
    (k : Constants) {r : CaRingBuffer} {list : Option (List AudioBuffer)} {n : ℕ} {time : ℤ}
    → IsRefused r list n time
    → (write k r list n time ≡ some (n == 0, r)) × (read r list n time ≡ some (n == 0, list))
unfolding write read
ca_refused_lem k (IsRefused.no_frames none time) = (refl, refl)
ca_refused_lem k (IsRefused.no_frames (some list) (pos t)) = (refl, refl)
ca_refused_lem k (IsRefused.no_frames (some list) (negsuc t)) = (refl, refl)
ca_refused_lem k (IsRefused.no_list n time) = (refl, refl)
ca_refused_lem k (IsRefused.negative list n t) = (refl, refl)
ca_refused_lem k (IsRefused.too_many list n (negsuc t) over) = (refl, refl)
ca_refused_lem k {r} (IsRefused.too_many list n (pos t) over) =
    let some_frames : (n == 0) ≡ false = ground arith in
    let over' : ltb r.capacity_frames n ≡ true = ground arith in
    (simp (some_frames, over'), simp (some_frames, over'))

module _ {k : Constants} {r : CaRingBuffer} {blocks : List (List ℕ)} (v : Holds k r blocks) where
  abbrev bpf : ℕ
  bpf = r.format.bytes_per_frame

  -- A write that is not refused, once the frames can be counted.
  write-write_in :
      (list : List AudioBuffer) (n start : ℕ)
      → 0 < n
      → n ≤ r.capacity_frames
      → start + n < 2 ^ 63
      → write k r (some list) n (pos start)
        ≡ write_in k (make_room r start (start + n)) blocks list start (start + n)
  unfolding write
  write-write_in list n start positive fits counted =
      let some_frames : (n == 0) ≡ false = ground arith in
      let fits' : ltb r.capacity_frames n ≡ false = ground arith in
      let counted' : ltb (start + n) (2 ^ 63) ≡ true = ground arith in
      simp (some_frames, fits', counted', v.allocated)

  make_room_back :
      (start end' : ℕ) → start < end_time r → make_room r start end' ≡ set_time_bounds r start start
  unfolding make_room
  make_room_back start end' back =
      let back' : ltb start (end_time r) ≡ true = ground arith in rw back' refl

  -- The rest of a write once there is room, in terms of the object before it.
  record Finished (room : CaRingBuffer) (list : List AudioBuffer) (a b n start : ℕ) : Type 0 where
    out : CaRingBuffer
    blocks' : List (List ℕ)
    returns : write_in k room blocks list start (start + n) ≡ some (true, out)
    leaves : Leaves k r out blocks' a (start + n)
    now : timeline out ≡ appended (n * bpf) (quieted ((start - b) * bpf) (timeline room)) list

  finish :
      {room : CaRingBuffer} {a b : ℕ}
      → Leaves k r room blocks a b
      → (list : List AudioBuffer) (n start : ℕ) → b ≤ start
      → 0 < n
      → start + n ≤ a + r.capacity_frames
      → length list ≡ length blocks
      → AllHave (n * bpf) list
      → Finished room list a b n start
  finish {room} {a} {b} l list n start after positive near same have =
      let e : start + n - start ≡ n = omega arith in
      let bpf' : room.format.bytes_per_frame ≡ bpf = ap (λ f. f.bytes_per_frame) l.same_format in
      let size : n * bpf ≡ (start + n - start) * room.format.bytes_per_frame =
        ap₂ (λ (i j : ℕ). i * j) (sym e) (sym bpf') in
      let w =
        write_in-Written l.holds list start (start + n) (omega (arith, l.until)) (omega arith)
          (omega (arith, l.from, l.same_capacity)) same (subst (λ i. AllHave i list) size have) in
      record {
        out = w.out;
        blocks' = w.blocks';
        returns = w.returns;
        leaves = record {
          holds = w.leaves.holds;
          from = w.leaves.from ∙ l.from;
          until = w.leaves.until;
          same_format = w.leaves.same_format ∙ l.same_format;
          same_capacity = w.leaves.same_capacity ∙ l.same_capacity;
          row =
              w.leaves.row
              ∙ ap₂ (λ c t. frames_between c room.format.bytes_per_frame t (start + n) w.blocks')
                  l.same_capacity l.from
              ∙ ap (λ c. frames_between r.capacity_frames c a (start + n) w.blocks') bpf';
        };
        now =
            w.now
            ∙ ap₂ (λ i g. appended i (quieted g (timeline room)) list) (sym size)
                (ap₂ (λ (i j : ℕ). (start - i) * j) l.until bpf');
      }

  -- `Write` to an allocated object of `n` frames, at least one and at most the capacity, from a
  -- list of as many buffers as there are blocks, each with those frames, at a time that is not
  -- before the end time, where an `int64_t` holds the end of the write: it succeeds, the new end
  -- time is the end of the write, frames older than one capacity before that are dropped, the time
  -- between the old end and the write becomes silence, and the frames of every buffer stand behind
  -- it.
  pub ca_write_forward :
      (list : List AudioBuffer) (n start : ℕ)
      → end_time r ≤ start
      → 0 < n
      → n ≤ r.capacity_frames
      → start + n < 2 ^ 63
      → length list ≡ length blocks
      → AllHave (n * bpf) list
      → let first = start_after r (start + n) in
        (r' : CaRingBuffer) × (blocks' : List (List ℕ)) × (write k r (some list) n (pos start)
          ≡ some (true, r'))
        × Leaves k r r' blocks' first (start + n)
        × (timeline r'
            ≡ appended
                (n * bpf)
                (quieted
                  ((start - max first (end_time r)) * bpf)
                  (dropped ((first - start_time r) * bpf) (timeline r)))
                list)
  ca_write_forward list n start forward positive fits counted same have =
      let room = make_room-MakesRoom v start (start + n) forward (omega arith) in
      let w = finish room.leaves list n start (omega arith) positive (omega arith) same have in
      (
        w.out,
        w.blocks',
        write-write_in list n start positive fits counted
            ∙ ap (λ q. write_in k q blocks list start (start + n)) room.is
            ∙ w.returns,
        w.leaves,
        w.now
            ∙ ap
                (λ q.
                  appended (n * bpf)
                    (quieted ((start - max (start_after r (start + n)) (end_time r)) * bpf) q) list)
                room.kept,
      )

  -- `Write` to an allocated object of `n` frames, at least one and at most the capacity, from a
  -- list of as many buffers as there are blocks, each with those frames, at a time before the end
  -- time, where an `int64_t` holds the end of the write: it succeeds, and the object has those
  -- frames only, from the time of the write on.
  pub ca_write_backward :
      (list : List AudioBuffer) (n start : ℕ)
      → start < end_time r
      → 0 < n
      → n ≤ r.capacity_frames
      → start + n < 2 ^ 63
      → length list ≡ length blocks
      → AllHave (n * bpf) list
      → (r' : CaRingBuffer) × (blocks' : List (List ℕ)) × (write k r (some list) n (pos start)
          ≡ some (true, r'))
        × Leaves k r r' blocks' start (start + n)
        × (timeline r' ≡ fronts (n * bpf) list)
  ca_write_backward list n start back positive fits counted same have =
      let l = set_time_bounds-Leaves v start start (omega arith) (omega arith) in
      let w = finish l list n start (omega arith) positive (omega arith) same have in
      let nothing : (i : ℕ) → (i - i) * bpf ≡ 0 =
        λ i. let e : i - i ≡ 0 = omega arith in ap (λ (j : ℕ). j * bpf) e ∙ zero-mul bpf in
      (
        w.out,
        w.blocks',
        write-write_in list n start positive fits counted
            ∙ ap (λ q. write_in k q blocks list start (start + n))
                (make_room_back start (start + n) back)
            ∙ w.returns,
        w.leaves,
        w.now
            ∙ ap₂ (λ g q. appended (n * bpf) (quieted g q) list) (nothing start)
                (l.row
                  ∙ ap
                      (λ i.
                        segments (r.capacity_frames * bpf) (start % r.capacity_frames * bpf) i
                          blocks)
                      (nothing start))
            ∙ fresh_rows (r.capacity_frames * bpf) (start % r.capacity_frames * bpf) (n * bpf)
                blocks list same,
      )
