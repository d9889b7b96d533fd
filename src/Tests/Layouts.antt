-- ===== src/Tests/Layouts.antt =====
-- Channel layouts with a small library of tags, reading into a buffer list, and a graph of two
-- nodes.
use cxxaudio_utilities.Base.{
  ℕ, ◌%◌, ◌≡◌, refl, arith, inl, inr, Bool, true, false, Bool-cases, ◌&&◌, Option, none, some, List,
  [], ◌∷◌, length, min, leb, ◌==◌, if◌then◌else◌, Result, done, thrown, system_error, ◌+◌,
}
use cxxaudio_utilities.BufferList.{AudioBuffer}
use cxxaudio_utilities.ChannelLayout.{
  AudioChannelLayout, Library, from_labels, with_bitmap, from_tag, channel_count,
}
use cxxaudio_utilities.ChannelLayout.Counts.{IsPlain, TagsCount, Made, made-channel_count}
use cxxaudio_utilities.ExtAudioFile.{ReadResult, read_buffer}
use cxxaudio_utilities.ExtAudioFile.Reading.{Reading, read_buffer-Reading}
use cxxaudio_utilities.AuGraph.{Graph, nodes, nodes_and_interactions}
use cxxaudio_utilities.AuGraph.Nodes.{nodes-zeros}
use cxxaudio_utilities.Tests.Buffers.{buffers, three, three-Holds}

-- Layouts of two labels are stereo, and others have no tag.
abbrev is_pair : AudioChannelLayout → Bool
is_pair layout = (layout.tag == 0) && (length layout.descriptions == 2)

abbrev pair_tag : AudioChannelLayout → Option ℕ
pair_tag layout = if is_pair layout then some 0x65_0002 else none

abbrev tags : Library
tags = record {
  header_size = 12;
  description_size = 20;
  use_descriptions = 0;
  use_bitmap = 0x1_0000;
  mono = 0x64_0001;
  stereo = 0x65_0002;
  number_of_channels = λ tag. tag % 0x1_0000;
  tag_for = pair_tag;
  equivalent = λ a b. some (a.tag == b.tag);
  channel_map = λ a b n. none;
}

stereo-IsPlain : IsPlain tags 0x65_0002
stereo-IsPlain = (omega arith, omega arith)

tag_of_pair :
    (layout : AudioChannelLayout) (tag : ℕ)
    → pair_tag layout ≡ some tag
    → (is_pair layout ≡ true) × (tag ≡ 0x65_0002)
tag_of_pair layout tag e = elim (Bool-cases (is_pair layout)) [
  | inl pair ↦ let now : pair_tag layout ≡ some 0x65_0002 = rw pair refl in (pair, cc (e, now))
  | inr other ↦ let now : pair_tag layout ≡ none = rw other refl in absurd (cc (e, now))
]

tags-TagsCount : TagsCount tags
unfolding channel_count
tags-TagsCount = record {
  different = omega arith;
  plain =
      λ layout tag e. let t = tag_of_pair layout tag e in (omega (arith, t.1), omega (arith, t.1));
  count = λ layout tag e.
      let t = tag_of_pair layout tag e in
      let first : (layout.tag == 0) ≡ true = ground (arith, t.0) in
      rw first (ground (arith, t.0, t.1));
}

-- There is memory for an empty layout, and none for one of two descriptions.
abbrev little : ℕ → Bool
little n = leb n 12

made-channel_count_example :
    (r : Result (Option AudioChannelLayout)) × (from_labels tags little (1 ∷ 2 ∷ []) ≡ some r)
    × Made tags false 2 r
    × Made tags true 2 (with_bitmap tags little 3)
    × Made tags true 2 (from_tag tags little 0x65_0002)
made-channel_count_example =
    made-channel_count tags tags-TagsCount little (1 ∷ 2 ∷ []) 3 0x65_0002 (omega arith)
      stereo-IsPlain

-- Two frames are read, or as many as are asked for.
abbrev short_read : ℕ → List AudioBuffer → ReadResult
short_read n bufs = record { status = 0; frames = min n 2; buffers = bufs }

read_buffer-Reading_example : Reading short_read three buffers (read_buffer short_read three)
read_buffer-Reading_example =
    read_buffer-Reading short_read three-Holds λ n bufs wide. (omega arith, wide)

-- A graph of the nodes 1 and 2, without interactions.
abbrev pair_of_nodes : Graph ℕ ℕ
pair_of_nodes = record {
  node_count = done 2;
  ind_node = λ i. done (i + 1);
  count_node_interactions = λ node. if node == 0 then thrown (system_error 10) else done 0;
  get_node_interactions = λ node n. done [];
  node_unit = done;
  latency_of = λ au. done 0;
  tail_time_of = λ au. done 0;
}

nodes-zeros_example :
    (nodes pair_of_nodes ≡ done (0 ∷ 0 ∷ 1 ∷ 2 ∷ []))
    × (nodes_and_interactions pair_of_nodes ≡ some (thrown (system_error 10)))
nodes-zeros_example =
    nodes-zeros pair_of_nodes 1 (λ i. i + 1) (system_error 10)
      (record { counted = refl; indexed = λ i lt. refl }) refl
