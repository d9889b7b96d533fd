-- ===== src/ChannelLayout/Counts.antt =====
-- The number of channels of a layout that is made from labels, a bitmap or a tag, and the length of
-- a channel map.
use cxxaudio_utilities.Base.{
  ℕ, suc, ◌+◌, ◌*◌, ◌%◌, ◌&&◌, ◌<◌, ◌≡◌, ◌≢◌, ◌⊎◌, refl, sym, ap, ◌∙◌, arith, inl, inr, Bool, true,
  false, Bool-cases, Option-cases, none, some, List, [], ◌∷◌, length, map, replicate,
  length-replicate, ◌==◌, u32_mod, Result, thrown, done, bad_alloc,
}
use cxxaudio_utilities.CaRingBuffer.{ℤ}
use cxxaudio_utilities.ChannelLayout.{
  AudioChannelLayout, no_description, Library, ChannelLayout, popcount, channel_layout_size,
  create_channel_layout, labelled, from_tag, from_labels, with_bitmap, channel_count, map_to_layout,
}

-- A tag that stands for a number of channels by itself.
abbrev pub IsPlain : Library → ℕ → Type 0
IsPlain sdk tag = (tag ≢ sdk.use_descriptions) × (tag ≢ sdk.use_bitmap)

-- What the library says of a layout's tag: the tag is for a layout with as many channels.
pub record TagsCount (sdk : Library) : Type 0 where
  pub different : sdk.use_bitmap ≢ sdk.use_descriptions
  pub plain :
      (layout : AudioChannelLayout) (tag : ℕ) → sdk.tag_for layout ≡ some tag → IsPlain sdk tag
  pub count :
      (layout : AudioChannelLayout) (tag : ℕ)
      → sdk.tag_for layout ≡ some tag
      → sdk.number_of_channels tag ≡ channel_count sdk (some layout)

-- Without memory an exception, and with memory a layout with `n` channels.
pub data Made (sdk : Library) (memory : Bool) (n : ℕ) : Result ChannelLayout → Type 0 where
  out_of_memory : memory ≡ false → Made sdk memory n (thrown bad_alloc)
  made :
      (layout : ChannelLayout)
      → memory ≡ true
      → channel_count sdk layout ≡ n
      → Made sdk memory n (done layout)

-- The layout that `labels` describe one by one.
abbrev pub described : Library → List ℕ → AudioChannelLayout
described sdk labels = record {
  tag = sdk.use_descriptions;
  bitmap = 0;
  descriptions = map labelled labels;
}

-- Whether there is memory for a layout with `n` descriptions; and for one of labels, which takes
-- the memory of a second one if there is a tag for it.
abbrev pub has_memory : Library → (ℕ → Bool) → ℕ → Bool
has_memory sdk malloc n = malloc (sdk.header_size + n * sdk.description_size)

abbrev pub has_memory_for_labels : Library → (ℕ → Bool) → List ℕ → Bool
has_memory_for_labels sdk malloc labels =
    has_memory sdk malloc (length labels)
    && elim (sdk.tag_for (described sdk labels)) [ none ↦ true | some _ ↦ has_memory sdk malloc 0 ]

length-map : {A B : Type 0} (f : A → B) (xs : List A) → length (map f xs) ≡ length xs
length-map f [] = refl
length-map f (x ∷ xs) = ap suc (length-map f xs)

module _ (sdk : Library) where
  pub plain-count :
      (layout : AudioChannelLayout)
      → IsPlain sdk layout.tag
      → channel_count sdk (some layout) ≡ sdk.number_of_channels layout.tag
  unfolding channel_count
  plain-count layout plain =
      let not_first : (layout.tag == sdk.use_descriptions) ≡ false = ground (arith, plain.0) in
      let not_second : (layout.tag == sdk.use_bitmap) ≡ false = ground (arith, plain.1) in
      rw (not_first, not_second) refl

  -- The layout that `CreateChannelLayout` returns.
  abbrev blank : ℕ → AudioChannelLayout
  blank n = record { tag = 0; bitmap = 0; descriptions = replicate n no_description }

  created :
      (malloc : ℕ → Bool) (n : ℕ)
      → ((has_memory sdk malloc n ≡ false)
          × (create_channel_layout sdk malloc n ≡ thrown bad_alloc))
        ⊎ ((has_memory sdk malloc n ≡ true) × (create_channel_layout sdk malloc n ≡ done (blank n)))
  unfolding create_channel_layout channel_layout_size
  created malloc n = elim (Bool-cases (has_memory sdk malloc n)) [
    | inl got ↦ inr (got, rw got refl)
    | inr out ↦ inl (out, rw out refl)
  ]

  from_tag-Made :
      (malloc : ℕ → Bool) (tag n : ℕ)
      → IsPlain sdk tag
      → sdk.number_of_channels tag ≡ n
      → Made sdk (has_memory sdk malloc 0) n (from_tag sdk malloc tag)
  unfolding from_tag
  from_tag-Made malloc tag n plain e = elim (created malloc 0) [
    | inl (memory, out) ↦ rw (from_tag, out) (Made.out_of_memory memory)
    | inr (memory, got) ↦
        let layout : AudioChannelLayout = record (blank 0) { tag = tag } in
        rw (from_tag, got) (Made.made (some layout) memory (plain-count layout plain ∙ e))
  ]

  with_bitmap-Made :
      TagsCount sdk
      → (malloc : ℕ → Bool) (bitmap : ℕ)
      → Made sdk (has_memory sdk malloc 0) (popcount 32 bitmap) (with_bitmap sdk malloc bitmap)
  unfolding with_bitmap channel_count
  with_bitmap-Made t malloc bitmap =
      let set : AudioChannelLayout = record (blank 0) { tag = sdk.use_bitmap; bitmap = bitmap } in
      let is : (sdk.use_bitmap == sdk.use_bitmap) ≡ true = ground arith in
      let other : (sdk.use_bitmap == sdk.use_descriptions) ≡ false = ground (arith, t.different) in
      let bits : channel_count sdk (some set) ≡ popcount 32 bitmap = rw (other, is) refl in
      elim (created malloc 0) [
        | inl (memory, out) ↦ rw (with_bitmap, out) (Made.out_of_memory memory)
        | inr (memory, got) ↦ elim (Option-cases (sdk.tag_for set)) [
          | inl unknown ↦ rw (with_bitmap, got, unknown) (Made.made (some set) memory bits)
          | inr (tag, known) ↦
              let layout : AudioChannelLayout = record set { tag = tag; bitmap = 0 } in
              rw (with_bitmap, got, known)
                (Made.made (some layout) memory
                  (plain-count layout (t.plain set tag known) ∙ t.count set tag known ∙ bits))
        ]
      ]

  from_labels-Made :
      TagsCount sdk
      → (malloc : ℕ → Bool) (labels : List ℕ) → length labels < u32_mod
      → (r : Result ChannelLayout) × (from_labels sdk malloc labels ≡ some r)
        × Made sdk (has_memory_for_labels sdk malloc labels) (length labels) r
  unfolding from_labels channel_count
  from_labels-Made t malloc labels few =
      let n : length labels % u32_mod ≡ length labels = omega arith in
      let filled = described sdk labels in
      let is : (sdk.use_descriptions == sdk.use_descriptions) ≡ true = ground arith in
      let room : (length labels == length (replicate (length labels) no_description)) ≡ true =
        ground (arith, length-replicate (length labels) no_description) in
      let count : channel_count sdk (some filled) ≡ length labels =
        rw is (length-map labelled labels) in
      elim (created malloc (length labels)) [
        | inl (memory, out) ↦
            (thrown bad_alloc, rw (n, from_labels, out) refl, Made.out_of_memory (rw memory refl))
        | inr (memory, got) ↦ elim (Option-cases (sdk.tag_for filled)) [
          | inl unknown ↦ (
            done (some filled),
            rw (n, from_labels, got, room, unknown) refl,
            Made.made (some filled) (rw (memory, unknown) refl) count,
          )
          | inr (tag, known) ↦ (
            from_tag sdk malloc tag,
            rw (n, from_labels, got, room, known) refl,
            rw (memory, known)
                (from_tag-Made malloc tag (length labels) (t.plain filled tag known)
                  (t.count filled tag known ∙ count)),
          )
        ]
      ]

  -- With a library whose tag for a layout stands for as many channels as the layout has, and if
  -- there is memory: a layout of fewer than 2^32 labels has a channel for each of them, a layout of
  -- a bitmap has one for each of its set bits, and a layout of a tag that stands for a number of
  -- channels has that number. Without memory, each throws `bad_alloc`, and only then. A layout of
  -- labels needs memory for as many descriptions, and that of an empty layout too if the library
  -- has a tag for it; the others need that of an empty layout.
  pub made-channel_count :
      TagsCount sdk
      → (malloc : ℕ → Bool) (labels : List ℕ) (bitmap tag : ℕ) → length labels < u32_mod
      → IsPlain sdk tag
      → (r : Result ChannelLayout) × (from_labels sdk malloc labels ≡ some r)
        × Made sdk (has_memory_for_labels sdk malloc labels) (length labels) r
        × Made sdk (has_memory sdk malloc 0) (popcount 32 bitmap) (with_bitmap sdk malloc bitmap)
        × Made sdk (has_memory sdk malloc 0) (sdk.number_of_channels tag) (from_tag sdk malloc tag)
  made-channel_count t malloc labels bitmap tag few plain =
      let l = from_labels-Made t malloc labels few in
      (
        l.0,
        l.1,
        l.2,
        with_bitmap-Made t malloc bitmap,
        from_tag-Made malloc tag (sdk.number_of_channels tag) plain refl,
      )

  -- With a library that fills the whole channel map: `MapToLayout` yields a map only if both
  -- layouts are there and the output has channels, and the map has an entry for each of these.
  pub map_to_layout-length :
      ((a b : AudioChannelLayout) (n : ℕ) (m : List ℤ)
        → sdk.channel_map a b n ≡ some m
        → length m ≡ n)
      → (this output : ChannelLayout) (m : List ℤ) → map_to_layout sdk this output ≡ some m
      → (this ≢ none)
        × (output ≢ none)
        × (0 < channel_count sdk output)
        × (length m ≡ channel_count sdk output)
  unfolding map_to_layout
  map_to_layout-length full none output m e = absurd (cc e)
  map_to_layout-length full (some a) none m e = absurd (cc e)
  map_to_layout-length full (some a) (some b) m e =
      elim (Bool-cases (channel_count sdk (some b) == 0)) [
        | inl z ↦
            let no_map : map_to_layout sdk (some a) (some b) ≡ none = rw z refl in
            absurd (cc (e, no_map))
        | inr nz ↦
            let map : map_to_layout sdk (some a) (some b)
                ≡ sdk.channel_map a b (channel_count sdk (some b)) =
              rw nz refl in
            (
              λ h. absurd (cc h),
              λ h. absurd (cc h),
              ground arith,
              full a b (channel_count sdk (some b)) m (sym map ∙ e),
            )
      ]
