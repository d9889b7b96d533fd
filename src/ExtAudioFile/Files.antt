-- ===== src/ExtAudioFile/Files.antt =====
-- The files of a `CAExtAudioFile` over all calls: each is disposed of once, or is the open one.
use cxxaudio_utilities.Base.{ℕ, ◌+◌, ◌≡◌, Option, none, List, [], ◌∷◌, Result, done}
use cxxaudio_utilities.ExtAudioFile.{
  ExtAudioFile, destroy, close, open_url, wrap_audio_file_id, create_with_url,
}
use cxxaudio_utilities.FileWrapper.Conservation.{times, in_pointer}

-- A call with what the system's calls return: the status of closing and that of opening, and the
-- file that the latter stores.
pub data Call : Type 0 where
  opens : ℕ → ℕ → Option ℕ → Call
  wraps : ℕ → ℕ → Option ℕ → Call
  creates : ℕ → ℕ → Option ℕ → Call
  closes : ℕ → Call
  destroys : Call

unfoldable pub step : ExtAudioFile → Call → Result (Unit {0}) × ExtAudioFile
step f (opens d status out) = open_url d status out f
step f (wraps d status out) = wrap_audio_file_id d status out f
step f (creates d status out) = create_with_url d status out f
step f (closes status) = close status f
step f destroys = (done tt, destroy f)

-- A program goes on after an exception.
unfoldable pub run : ExtAudioFile → List Call → ExtAudioFile
run f [] = f
run f (c ∷ cs) = run (step f c).1 cs

-- The files opened, and those disposed of or still open.
abbrev pub Settled : ℕ → ExtAudioFile → Type 0
Settled file f = times file f.opened ≡ times file f.disposed + in_pointer file f.file

-- Nothing is open, and every file that was opened is disposed of.
abbrev Closed : ℕ → ExtAudioFile → Type 0
Closed file f = (f.file ≡ none) × (times file f.opened ≡ times file f.disposed)
