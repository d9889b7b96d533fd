-- ===== src/BufferList/Channels.antt =====
-- One buffer: what the copies of an insertion and of a removal do to its first bytes.
use cxxaudio_utilities.Base.{
  ℕ, ◌+◌, ◌-◌, ◌≤◌, ◌≡◌, arith, Option, List, ◌++◌, length, take, drop, ltb, if◌then◌else◌, Copied,
  byte_at, get_or_ext, get_or-append, get_or-take, get_or-drop, length-append, length-take,
  length-drop,
}

-- `c` without the bytes from `from` up to `to`.
abbrev pub cut_out : ℕ → ℕ → List ℕ → List ℕ
cut_out from to c = take from c ++ drop to c

-- `c` with `new` put in at `at'`.
abbrev pub put_in : ℕ → List ℕ → List ℕ → List ℕ
put_in at' new c = take at' c ++ (new ++ drop at' c)

-- Moving the end of the first `e` bytes down from `f` to `o` cuts out what lay between.
pub moved_down :
    (m : List ℕ) (o f e : ℕ) {result : Option (List ℕ)}
    → o ≤ f
    → f ≤ e
    → e ≤ length m
    → (c : Copied m o m f (e - f) result) → take (o + (e - f)) c.out ≡ cut_out o f (take e m)
moved_down m o f e of fe em c =
    get_or_ext 0 (take (o + (e - f)) c.out) (cut_out o f (take e m))
      (omega (
        arith,
        length-take (o + (e - f)) c.out,
        c.same_length,
        length-append (take o (take e m)) (drop f (take e m)),
        length-take o (take e m),
        length-take e m,
        length-drop f (take e m),
      ))
      λ i h. ground (
        arith,
        length-take (o + (e - f)) c.out,
        get_or-take (o + (e - f)) c.out i 0,
        c.at i,
        get_or-append (take o (take e m)) (drop f (take e m)) i 0,
        length-take o (take e m),
        length-take e m,
        get_or-take o (take e m) i 0,
        get_or-take e m i 0,
        get_or-drop f (take e m) (i - o) 0,
        get_or-take e m (f + (i - o)) 0,
      )

-- Moving the end of the first `e` bytes up from `w` by `n`, and filling the gap with `new`.
pub moved_up :
    (m m' new : List ℕ) (w n e : ℕ) {result : Option (List ℕ)}
    → w ≤ e
    → e + n ≤ length m
    → length new ≡ n
    → (c : Copied m (w + n) m w (e - w) result) → length m' ≡ length m
    → ((i : ℕ)
        → byte_at m' i ≡ (
            if ltb i w
            then byte_at c.out i
            else (if ltb i (w + n) then byte_at new (i - w) else byte_at c.out i)))
    → take (e + n) m' ≡ put_in w new (take e m)
moved_up m m' new w n e we em size c same filled =
    get_or_ext 0 (take (e + n) m') (put_in w new (take e m))
      (omega (
        arith,
        length-take (e + n) m',
        length-append (take w (take e m)) (new ++ drop w (take e m)),
        length-append new (drop w (take e m)),
        length-take w (take e m),
        length-take e m,
        length-drop w (take e m),
      ))
      λ i h. ground (
        arith,
        length-take (e + n) m',
        get_or-take (e + n) m' i 0,
        filled i,
        c.at i,
        get_or-append (take w (take e m)) (new ++ drop w (take e m)) i 0,
        get_or-append new (drop w (take e m)) (i - w) 0,
        length-take w (take e m),
        length-take e m,
        get_or-take w (take e m) i 0,
        get_or-take e m i 0,
        get_or-drop w (take e m) (i - w - n) 0,
        get_or-take e m (w + (i - w - n)) 0,
      )
