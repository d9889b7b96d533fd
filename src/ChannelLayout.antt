-- ===== src/ChannelLayout.antt =====
-- `SFB::CAChannelLayout`, of SFBCAChannelLayout.cpp and include/SFBCAChannelLayout.hpp in
-- Sources/CXXAudioUtilities: an audio channel layout in memory of its own, or none. What the code
-- asks of the system's audio library is a parameter: the layout tags, and the properties that
-- `AudioFormatGetProperty` answers, with a `none` for a result other than `noErr`. A result `none`
-- of an operation is a fault.
pub mod Counts
pub mod Comparison
use cxxaudio_utilities.Base.{
  ℕ, zero, suc, ◌+◌, ◌*◌, ◌/◌, ◌%◌, ◌≤◌, ◌≡◌, Bool, true, false, not, ◌&&◌, ◌||◌, Option, none,
  some, List, [], ◌∷◌, length, map, replicate, leb, ◌==◌, if◌then◌else◌, u32_mod, Result, thrown,
  done, bad_alloc,
}
use cxxaudio_utilities.CaRingBuffer.{ℤ}

-- `AudioChannelDescription`: the label, and the flags and coordinates.
pub record ChannelDescription : Type 0 where
  pub label : ℕ
  pub flags : ℕ
  pub coordinates : List ℕ

-- `AudioChannelLayout`; `mNumberChannelDescriptions` is the length of the list.
pub record AudioChannelLayout : Type 0 where
  pub tag : ℕ
  pub bitmap : ℕ
  pub descriptions : List ChannelDescription

abbrev pub no_description : ChannelDescription
no_description = record { label = 0; flags = 0; coordinates = 0 ∷ 0 ∷ 0 ∷ [] }

-- The system's constants, `AudioChannelLayoutTag_GetNumberOfChannels`, and the properties
-- `TagForChannelLayout`, `AreChannelLayoutsEquivalent` and `ChannelMap`, which has a place for
-- that many channels.
pub record Library : Type 0 where
  pub header_size : ℕ
  pub description_size : ℕ
  pub use_descriptions : ℕ
  pub use_bitmap : ℕ
  pub mono : ℕ
  pub stereo : ℕ
  pub number_of_channels : ℕ → ℕ
  pub tag_for : AudioChannelLayout → Option ℕ
  pub equivalent : AudioChannelLayout → AudioChannelLayout → Option Bool
  pub channel_map : AudioChannelLayout → AudioChannelLayout → ℕ → Option (List ℤ)

-- The private member.
abbrev pub ChannelLayout : Type 0
ChannelLayout = Option AudioChannelLayout

-- The set bits of a word of that many bits.
abbrev pub popcount : ℕ → ℕ → ℕ
popcount zero b = 0
popcount (suc w) b = b % 2 + popcount w (b / 2)

abbrev pub release : ChannelLayout → ChannelLayout × ChannelLayout
release this = (this, none)

-- `Reset` frees the old memory and takes the new one.
abbrev pub reset : ChannelLayout → ChannelLayout → ChannelLayout
reset this layout = layout

abbrev pub move_construct : ChannelLayout → ChannelLayout × ChannelLayout
move_construct rhs = release rhs

-- The move assignment of two objects; with itself it changes nothing.
abbrev pub move_assign : ChannelLayout → ChannelLayout → ChannelLayout × ChannelLayout
move_assign this rhs = (reset this (release rhs).0, (release rhs).1)

-- A description in the loop over the labels.
abbrev pub labelled : ℕ → ChannelDescription
labelled label = record no_description { label = label }

module _ (sdk : Library) where
  unfoldable pub channel_layout_size : ℕ → ℕ
  channel_layout_size n = sdk.header_size + n * sdk.description_size

  -- `AudioChannelLayoutSize`, and `Size`.
  unfoldable pub audio_channel_layout_size : ChannelLayout → ℕ
  audio_channel_layout_size none = 0
  audio_channel_layout_size (some layout) = channel_layout_size (length layout.descriptions)

  -- `malloc n` says whether `n` bytes are to be had.
  unfoldable pub create_channel_layout : (ℕ → Bool) → ℕ → Result AudioChannelLayout
  create_channel_layout malloc n =
      if malloc (channel_layout_size n)
      then done (record { tag = 0; bitmap = 0; descriptions = replicate n no_description })
      else thrown bad_alloc

  unfoldable pub copy_channel_layout : (ℕ → Bool) → ChannelLayout → Result ChannelLayout
  copy_channel_layout malloc none = done none
  copy_channel_layout malloc (some layout) =
      if malloc (channel_layout_size (length layout.descriptions))
      then done (some layout)
      else thrown bad_alloc

  -- The assignment of another object or of a native layout, the copy constructor, and the
  -- constructor with a native layout.
  unfoldable pub assign : (ℕ → Bool) → ChannelLayout → ChannelLayout → Result ChannelLayout
  assign malloc this rhs = elim (copy_channel_layout malloc rhs) [
    | thrown e ↦ thrown e
    | done layout ↦ done (reset this layout)
  ]

  unfoldable pub copy_construct : (ℕ → Bool) → ChannelLayout → Result ChannelLayout
  copy_construct malloc rhs = assign malloc none rhs

  -- The constructor with a tag, and `ChannelLayoutWithTag`.
  unfoldable pub from_tag : (ℕ → Bool) → ℕ → Result ChannelLayout
  from_tag malloc tag = elim (create_channel_layout malloc 0) [
    | thrown e ↦ thrown e
    | done layout ↦ done (some (record layout { tag = tag }))
  ]

  -- The constructor with labels, and `ChannelLayoutWithChannelLabels`: it writes past the end of a
  -- layout whose number of descriptions has wrapped.
  unfoldable pub from_labels : (ℕ → Bool) → List ℕ → Option (Result ChannelLayout)
  from_labels malloc labels = elim (create_channel_layout malloc (length labels % u32_mod)) [
    | thrown e ↦ some (thrown e)
    | done layout ↦
        let filled = record layout {
          tag = sdk.use_descriptions;
          descriptions = map labelled labels;
        } in
        if length labels == length layout.descriptions
        then elim (sdk.tag_for filled) [
          | none ↦ some (done (some filled))
          | some tag ↦ some (from_tag malloc tag)
        ]
        else none
  ]

  unfoldable pub with_bitmap : (ℕ → Bool) → ℕ → Result ChannelLayout
  with_bitmap malloc bitmap = elim (create_channel_layout malloc 0) [
    | thrown e ↦ thrown e
    | done layout ↦
        let set = record layout { tag = sdk.use_bitmap; bitmap = bitmap } in
        elim (sdk.tag_for set) [
          | none ↦ done (some set)
          | some tag ↦ done (some (record set { tag = tag; bitmap = 0 }))
        ]
  ]

  unfoldable pub channel_count : ChannelLayout → ℕ
  channel_count none = 0
  channel_count (some layout) =
      if layout.tag == sdk.use_descriptions
      then length layout.descriptions
      else (if layout.tag == sdk.use_bitmap
          then popcount 32 layout.bitmap
          else sdk.number_of_channels layout.tag)

  -- Whether a layout has the tag of mono or of stereo.
  abbrev pub one_or_two : AudioChannelLayout → Bool
  one_or_two layout = (layout.tag == sdk.mono) || (layout.tag == sdk.stereo)

  unfoldable pub equal : ChannelLayout → ChannelLayout → Bool
  equal none none = true
  equal (some a) none = one_or_two a || leb (channel_count (some a)) 2
  equal none (some b) = one_or_two b || leb (channel_count (some b)) 2
  equal (some a) (some b) = elim (sdk.equivalent b a) [ none ↦ false | some same ↦ same ]

  -- The channel map, or `none` for `false`.
  unfoldable pub map_to_layout : ChannelLayout → ChannelLayout → Option (List ℤ)
  map_to_layout none output = none
  map_to_layout (some layout) none = none
  map_to_layout (some layout) (some output) =
      let n = channel_count (some output) in
      if n == 0 then none else sdk.channel_map layout output n
