-- ===== src/ChannelLayout/Comparison.antt =====
-- Copies of channel layouts, and their comparison with the original.
use cxxaudio_utilities.Base.{
  ℕ, ◌≡◌, ◌⊎◌, refl, inl, inr, Bool, true, false, Bool-cases, Option, none, some, length, thrown,
  done, bad_alloc,
}
use cxxaudio_utilities.ChannelLayout.{
  AudioChannelLayout, Library, ChannelLayout, channel_layout_size, copy_channel_layout, assign,
  equal,
}

-- What the library says of layouts: a layout is equivalent to itself.
abbrev pub Compares : Library → Type 0
Compares sdk = (a : AudioChannelLayout) → sdk.equivalent a a ≡ some true

module _ (sdk : Library) where
  abbrev answer : Option Bool → Bool
  answer none = false
  answer (some same) = same

  equal-answer :
      (a b : AudioChannelLayout) (o : Option Bool)
      → sdk.equivalent b a ≡ o
      → equal sdk (some a) (some b) ≡ answer o
  unfolding equal
  equal-answer a b none e = rw (equal, e) refl
  equal-answer a b (some same) e = rw (equal, e) refl

  equal_self : Compares sdk → (x : ChannelLayout) → equal sdk x x ≡ true
  unfolding equal
  equal_self v none = refl
  equal_self v (some a) = equal-answer a a (some true) (v a)

  -- A copy of a layout, or an assignment of it to another object, is out of memory and throws
  -- `bad_alloc`, or has the same contents, and then it compares equal for a library that finds a
  -- layout equivalent to itself.
  pub assign-equal :
      Compares sdk
      → (malloc : ℕ → Bool) (this rhs : ChannelLayout)
      → (assign sdk malloc this rhs ≡ thrown bad_alloc)
        ⊎ ((copy : ChannelLayout) × (assign sdk malloc this rhs ≡ done copy)
            × (copy ≡ rhs)
            × (equal sdk copy rhs ≡ true))
  unfolding assign copy_channel_layout
  assign-equal v malloc this none = inr (none, refl, refl, equal_self v none)
  assign-equal v malloc this (some a) =
      elim (Bool-cases (malloc (channel_layout_size sdk (length a.descriptions)))) [
        | inr out ↦ inl (rw (assign, out) refl)
        | inl got ↦ inr (some a, rw (assign, got) refl, refl, equal_self v (some a))
      ]
