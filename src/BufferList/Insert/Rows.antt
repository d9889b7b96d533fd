-- ===== src/BufferList/Insert/Rows.antt =====
-- What the moves and the copies of an insertion do to every buffer.
use native.Mathlib.Nat.{zero-mul}
use cxxaudio_utilities.Base.{
  ℕ, ◌+◌, ◌-◌, ◌*◌, ◌≤◌, ◌≡◌, ◌⊎◌, refl, arith, Option, some, List, [], ◌∷◌, length, take, drop,
  memcpy-Copied, Copied, take-append-drop, get_or_ext, get_or-take, get_or-drop, length-take,
  length-drop, ap, ap₂, ◌∙◌, sym,
}
use cxxaudio_utilities.BufferList.{AudioBuffer, each, move_bytes, copy_each}
use cxxaudio_utilities.BufferList.Channels.{put_in, moved_up}
use cxxaudio_utilities.BufferList.Frames.{heads, AllWide}

-- Into each row at `at'`, the `n` bytes from `from` on of the source's row.
abbrev pub inserted : ℕ → ℕ → ℕ → List (List ℕ) → List (List ℕ) → List (List ℕ)
inserted at' from n (c ∷ cs) (s ∷ ss) =
    put_in at' (take n (drop from s)) c ∷ inserted at' from n cs ss
inserted at' from n (c ∷ cs) [] = c ∷ cs
inserted at' from n [] ss = []

inserted_nothing : (at' from : ℕ) (cs ss : List (List ℕ)) → cs ≡ inserted at' from 0 cs ss
inserted_nothing at' from [] [] = refl
inserted_nothing at' from [] (s ∷ ss) = refl
inserted_nothing at' from (c ∷ cs) [] = refl
inserted_nothing at' from (c ∷ cs) (s ∷ ss) =
    ap₂ ◌∷◌ (sym (take-append-drop at' c)) (inserted_nothing at' from cs ss)

pub inserted_none :
    (at' from n k : ℕ) (cs ss : List (List ℕ)) → n ≡ 0 → cs ≡ inserted at' from (n * k) cs ss
inserted_none at' from n k cs ss e =
    let none_left : n * k ≡ 0 = ap (λ i. i * k) e ∙ zero-mul k in
    rw none_left (inserted_nothing at' from cs ss)

-- A move to where the bytes are, or of none, changes nothing.
Copied-still :
    (m : List ℕ) (d s n : ℕ) {result : Option (List ℕ)}
    → (d ≡ s) ⊎ (n ≡ 0)
    → (c : Copied m d m s n result) → c.out ≡ m
Copied-still m d s n still c = get_or_ext 0 c.out m c.same_length (λ i h. ground (arith, c.at i))

pub each_still :
    (cap d s n : ℕ) (bufs : List AudioBuffer)
    → (d ≡ s) ⊎ (n ≡ 0)
    → d + n ≤ cap
    → s + n ≤ cap
    → AllWide cap bufs
    → each (move_bytes d s n) bufs ≡ some bufs
unfolding each move_bytes
each_still cap d s n [] still dc sc w = refl
each_still cap d s n (a ∷ as') still dc sc w =
    let c = memcpy-Copied a.memory d a.memory s n (omega arith) (omega arith) in
    simp (c.returns, Copied-still a.memory d s n still c, each_still cap d s n as' still dc sc w.1)

-- What moving the ends up and copying into the gaps leaves.
pub record Inserted (cap w n e r e' : ℕ) (bufs source : List AudioBuffer)
    (result : Option (List AudioBuffer)) : Type 0 where
  pub moved : List AudioBuffer
  pub moves : result ≡ some moved
  pub out : List AudioBuffer
  pub copies : copy_each w r n moved source ≡ some out
  pub wide : AllWide cap out
  pub rows : heads (e + n) out ≡ inserted w r n (heads e bufs) (heads e' source)

insert_row :
    (m src : List ℕ) (w n e r e' : ℕ) {result result' : Option (List ℕ)}
    → w ≤ e
    → e + n ≤ length m
    → r + n ≤ e'
    → e' ≤ length src
    → (c : Copied m (w + n) m w (e - w) result) → (d : Copied c.out w src r n result')
    → take (e + n) d.out ≡ put_in w (take n (drop r (take e' src))) (take e m)
insert_row m src w n e r e' we em re es c d =
    moved_up m d.out (take n (drop r (take e' src))) w n e we em
      (omega (
        arith,
        length-take n (drop r (take e' src)),
        length-drop r (take e' src),
        length-take e' src,
      ))
      c (omega (arith, d.same_length, c.same_length))
      λ i. ground (
        arith,
        d.at i,
        get_or-take n (drop r (take e' src)) (i - w) 0,
        get_or-drop r (take e' src) (i - w) 0,
        get_or-take e' src (r + (i - w)) 0,
      )

pub each-Inserted :
    (cap w n e r e' cap' : ℕ) (bufs source : List AudioBuffer)
    → length bufs ≡ length source
    → w ≤ e
    → e + n ≤ cap
    → r + n ≤ e'
    → e' ≤ cap'
    → AllWide cap bufs
    → AllWide cap' source
    → Inserted cap w n e r e' bufs source (each (move_bytes (w + n) w (e - w)) bufs)
unfolding each move_bytes copy_each
each-Inserted cap w n e r e' cap' [] [] same we ec re ec' wide wide' = record {
  moved = [];
  moves = refl;
  out = [];
  copies = refl;
  wide = wide;
  rows = refl;
}
each-Inserted cap w n e r e' cap' [] (s ∷ ss) same we ec re ec' wide wide' =
    absurd (omega (arith, same))
each-Inserted cap w n e r e' cap' (a ∷ as') [] same we ec re ec' wide wide' =
    absurd (omega (arith, same))
each-Inserted cap w n e r e' cap' (a ∷ as') (s ∷ ss) same we ec re ec' wide wide' =
    let c = memcpy-Copied a.memory (w + n) a.memory w (e - w) (omega arith) (omega arith) in
    let d = memcpy-Copied c.out w s.memory r n (omega (arith, c.same_length)) (omega arith) in
    let rest =
      each-Inserted cap w n e r e' cap' as' ss (omega (arith, same)) we ec re ec' wide.1 wide'.1 in
    record {
      moved = record a { memory = c.out } ∷ rest.moved;
      moves = rw (c.returns, rest.moves);
      out = record a { memory = d.out } ∷ rest.out;
      copies = rw (d.returns, rest.copies);
      wide = (omega (arith, c.same_length, d.same_length), rest.wide);
      rows =
          ap₂ ◌∷◌ (insert_row a.memory s.memory w n e r e' we (omega arith) re (omega arith) c d)
            rest.rows;
    }
