-- ===== src/Tests/Wrappers.antt =====
-- Wrappers of objects and of files in small programs.
use cxxaudio_utilities.Base.{ℕ, ◌+◌, ◌-◌, ◌≤◌, ◌≡◌, refl, arith, none, some, List, [], ◌∷◌, true}
use cxxaudio_utilities.CfWrapper.{
  Wrapper, wrap, set_count, copy_construct, copy_assign, retain_owned, cf_retain,
}
use cxxaudio_utilities.CfWrapper.Pool.{
  Pool, set_wrapper, Reach, here, next, make, adopt, copies, start,
}
use cxxaudio_utilities.CfWrapper.Balance.{owns, both, Balanced}
use cxxaudio_utilities.CfWrapper.Lifetime.{total, counts-accounted, wrappers-alive}
use cxxaudio_utilities.CfWrapper
use cxxaudio_utilities.FileWrapper.{reset, release, move_assign, swap, close_old, destroy}
use cxxaudio_utilities.FileWrapper.Conservation.{
  Program, run, step, resets, releases, move_assigns, swaps, destroys, settled, given-settled,
}
use cxxaudio_utilities.ExtAudioFile.{ExtAudioFile}
use cxxaudio_utilities.ExtAudioFile.Files
use cxxaudio_utilities.AudioUnitRecorder.{Flags, Recorder, Render}
use cxxaudio_utilities.AudioUnitRecorder.Recording.{renders, renders-recorded}

-- One object, in a wrapper and in a copy of it.
abbrev made : Pool
made = record (start 2) {
  counts = set_count (start 2).counts 7 1;
  held = set_count (start 2).held 7 1;
}

abbrev adopted : Pool
adopted = record made {
  wrapper = set_wrapper made.wrapper 0 (wrap 7 true);
  held = set_count made.held 7 (made.held 7 - 1);
}

abbrev shared : Pool
shared = record adopted {
  counts = set_count adopted.counts 7 (adopted.counts 7 + 1);
  wrapper = set_wrapper adopted.wrapper 1 (wrap 7 true);
}

to_shared : Reach (start 2) shared
unfolding copy_construct retain_owned cf_retain
to_shared =
    next (next (next here (make 7 refl)) (adopt 0 7 (omega arith) refl (omega arith)))
      (copies 1 0 shared.counts (wrap 7 true) (omega arith) (omega arith) refl refl)

counts-accounted_example : 2 ≡ 0 + total 2 shared.wrapper 7
counts-accounted_example = counts-accounted 2 to_shared 7

wrappers-alive_example :
    ((o : ℕ) → owns (wrap 7 true) o ≤ shared.counts o)
    × Balanced shared.counts (λ _. 0) Wrapper owns (copy_construct shared.counts (wrap 7 true))
    × Balanced shared.counts
        (owns (wrap 7 true))
        Wrapper
        owns
        (copy_assign shared.counts (wrap 7 true) (wrap 7 true))
    × Balanced shared.counts
        (both (wrap 7 true, wrap 7 true))
        (Wrapper × Wrapper)
        both
        (CfWrapper.move_assign shared.counts (wrap 7 true) (wrap 7 true))
    × Balanced shared.counts
        (owns (wrap 7 true))
        Wrapper
        owns
        (CfWrapper.destroy shared.counts (wrap 7 true))
wrappers-alive_example = wrappers-alive 2 to_shared 0 1 (omega arith) (omega arith)

abbrev files : Program
files = record { first = some 4; second = none; given = some 4 ∷ []; closed = []; returned = [] }

given-settled_example :
    1 ≡ settled 4 (run files (swaps ∷ resets (some 5) ∷ move_assigns ∷ releases ∷ destroys ∷ []))
unfolding run step reset release move_assign swap close_old destroy
given-settled_example =
    given-settled 4 files (swaps ∷ resets (some 5) ∷ move_assigns ∷ releases ∷ destroys ∷ []) refl

abbrev open_file : ExtAudioFile
open_file = record { file = some 4; opened = 4 ∷ []; disposed = [] }

abbrev actions : Flags
actions = record { post_render = 8; post_render_error = 256 }

abbrev recorder : Recorder
recorder = record {
  ext_audio_file = open_file;
  client_format_is_set = true;
  audio_unit = 1;
  bus_number = 0;
  written = (0, none) ∷ [];
  added = 1;
  removed = 0;
}

-- Before rendering, after it, after it on another bus, and after it with an error.
abbrev callbacks : List (ℕ × Render)
callbacks =
    (0, record { action_flags = 4; bus = 0; frames = 512; io_data = 1 })
    ∷ (0, record { action_flags = 8; bus = 0; frames = 512; io_data = 2 })
    ∷ (0, record { action_flags = 8; bus = 1; frames = 512; io_data = 3 })
    ∷ (0, record { action_flags = 264; bus = 0; frames = 512; io_data = 4 })
    ∷ []

renders-recorded_example :
    renders actions recorder callbacks
    ≡ record recorder { written = (0, none) ∷ (512, some 2) ∷ [] }
renders-recorded_example = renders-recorded actions recorder callbacks
