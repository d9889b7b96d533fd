-- ===== src/BufferList/Insert.antt =====
-- `InsertFromBuffer`: frames of one buffer list are put into every channel stream of another.
pub mod Rows
pub mod Transfer
use native.Mathlib.Nat.{mul-le-mul_right, zero-mul}
use cxxaudio_utilities.Base.{
  ℕ, ◌+◌, ◌-◌, ◌*◌, ◌≤◌, ◌≡◌, ◌⊎◌, refl, arith, inl, inr, true, false, ◌||◌, ◌&&◌, Bool-cases,
  Option, some, List, [], ◌∷◌, length, take, drop, min, ltb, leb, ◌==◌, if◌then◌else◌, add32, sub32,
  mul32, ◌>>=◌, memcpy-Copied, Copied, take-append-drop, get_or_ext, get_or-take, get_or-drop,
  length-take, length-drop, ap, ap₂, ◌∙◌, sym,
}
use cxxaudio_utilities.StreamDescription.{StreamDescription, equal}
use cxxaudio_utilities.BufferList.{
  AudioBuffer, BufferList, each, move_bytes, copy_each, move_frames, copy_frames, set_frame_length,
  insert_from_buffer,
}
use cxxaudio_utilities.BufferList.Channels.{put_in, moved_up}
use cxxaudio_utilities.BufferList.Trim.{mul-sub_right}
use cxxaudio_utilities.BufferList.Frames.{
  heads, contents, contents-heads, AllWide, Holds, Leaves, byte_size-le, byte_size,
  set_frame_length-Leaves,
}
use cxxaudio_utilities.BufferList.Insert.Rows.{inserted, inserted_none}
use cxxaudio_utilities.BufferList.Insert.Transfer.{
  insertable, equal-bytes_per_frame, unchanged, raw_count, transfer, transfer-none, transfer-some,
}

module _ {this buffer : BufferList} {bufs source : List AudioBuffer} (v : Holds this bufs)
    (v' : Holds buffer source) where
  abbrev Inserts : ℕ → ℕ → ℕ → ℕ → Type 0
  Inserts r f w n =
      let bpf = this.format.bytes_per_frame in
      (this' : BufferList) × (insert_from_buffer this buffer r f w ≡ some (n, this'))
      × Leaves this this' (this.frame_length + n)
          (inserted (w * bpf) (r * bpf) (n * bpf) (contents this) (contents buffer))

  Inserts-none :
      (r f w n : ℕ)
      → n ≡ 0
      → insert_from_buffer this buffer r f w ≡ some (0, this)
      → Inserts r f w n
  Inserts-none r f w n e h =
      let bpf = this.format.bytes_per_frame in
      (
        this,
        h ∙ ap (λ k. some (k, this)) (sym e),
        unchanged v n (inserted (w * bpf) (r * bpf) (n * bpf) (contents this) (contents buffer)) e
            (inserted_none (w * bpf) (r * bpf) n bpf (contents this) (contents buffer) e),
      )

  Inserts-count : (r f w m n : ℕ) → m ≡ n → Inserts r f w m → Inserts r f w n
  Inserts-count r f w m n e h = rw (sym e) h

  Inserts-transfer :
      (r f w n : ℕ)
      → length bufs ≡ length source
      → this.format.bytes_per_frame ≡ buffer.format.bytes_per_frame
      → w ≤ this.frame_length
      → this.frame_length + n ≤ this.frame_capacity
      → r + n ≤ buffer.frame_length
      → insert_from_buffer this buffer r f w ≡ transfer this buffer r w n
      → Inserts r f w n
  Inserts-transfer r f w n same bpfs le room there h = elim (Bool-cases (n == 0)) [
    | inl z ↦
        let none_fit : n ≡ 0 = ground arith in
        Inserts-none r f w n none_fit
          (h ∙ transfer-none v v' r w n none_fit le ∙ ap (λ k. some (k, this)) none_fit)
    | inr nz ↦ let t = transfer-some v v' r w n nz same bpfs le room there in (t.0, h ∙ t.1, t.2)
  ]

  -- Between two allocated buffer lists of as many buffers, `InsertFromBuffer` puts as many of the
  -- `frame_length` frames from `read_offset` on as there are and fit into every channel stream at
  -- `write_offset`, in front of what was there, and returns their number; with different formats or
  -- an offset behind an end it inserts none. The format and the capacity stay, and the length grows
  -- by that number.
  pub insert_from_buffer-Leaves :
      (read_offset frame_length write_offset : ℕ)
      → length bufs ≡ length source
      → let bpf = this.format.bytes_per_frame in
        let n = insertable this buffer read_offset frame_length write_offset in
        (this' : BufferList) × (insert_from_buffer this buffer read_offset frame_length write_offset
          ≡ some (n, this'))
        × Leaves this this' (this.frame_length + n) (
            inserted
              (write_offset * bpf)
              (read_offset * bpf)
              (n * bpf)
              (contents this)
              (contents buffer))
  unfolding insert_from_buffer transfer raw_count
  insert_from_buffer-Leaves r f w same =
      let n = insertable this buffer r f w in
      elim (Bool-cases (equal this.format buffer.format)) [
        | inr other ↦ Inserts-none r f w n (ground arith) (simp other)
        | inl formats ↦
            let refuses =
              ltb buffer.frame_length r
              || (ltb this.frame_length w || ((f == 0) || (buffer.frame_length == 0))) in
            elim (Bool-cases refuses) [
              | inl refused ↦ Inserts-none r f w n (ground arith) (simp (formats, refused))
              | inr goes ↦
                  let inside = v.within in
                  let inside' = v'.within in
                  let fits = v.frames_fit in
                  let fits' = v'.frames_fit in
                  let free : sub32 this.frame_capacity this.frame_length
                      ≡ this.frame_capacity - this.frame_length =
                    ground arith in
                  let left : sub32 buffer.frame_length r ≡ buffer.frame_length - r = ground arith in
                  let tail : sub32 this.frame_length w ≡ this.frame_length - w = ground arith in
                  let behind : add32 w (raw_count this buffer r f) ≡ w + raw_count this buffer r f =
                    ground arith in
                  Inserts-count r f w (raw_count this buffer r f) n (ground arith) (
                    Inserts-transfer r f w (raw_count this buffer r f) same
                      (equal-bytes_per_frame this.format buffer.format formats) (ground arith)
                      (omega arith) (ground arith) (simp (formats, goes, free, left, behind, tail)))
            ]
      ]
