-- ===== src/ExtAudioFile.antt =====
-- `SFB::CAExtAudioFile`, of include/SFBCAExtAudioFile.hpp in Sources/CXXAudioUtilities, as far as it
-- has a state: the file that it has open, which is a number, and reading into a buffer list. What
-- the system's calls return is an argument of the operations: a status, which is 0 for `noErr`,
-- and what they store. `disposed` and `opened` are the files that the calls have closed and opened.
pub mod Files
pub mod Reading
use cxxaudio_utilities.Base.{
  ℕ, Bool, true, false, Option, none, some, List, [], ◌∷◌, ◌++◌, ◌==◌, if◌then◌else◌, Result,
  thrown, done, system_error, ◌>>=◌,
}
use cxxaudio_utilities.BufferList.{AudioBuffer, BufferList, reset, set_frame_length}

-- The private member, and what the system has done.
pub record ExtAudioFile : Type 0 where
  pub file : Option ℕ
  pub opened : List ℕ
  pub disposed : List ℕ

-- `ThrowIfCAExtAudioFileError`.
unfoldable pub throw_if : ℕ → Result (Unit {0})
throw_if status = if status == 0 then done tt else thrown (system_error status)

abbrev pub is_valid : ExtAudioFile → Bool
is_valid f = elim f.file [ none ↦ false | some _ ↦ true ]

-- `if(mExtAudioFile) ExtAudioFileDispose(mExtAudioFile)`.
unfoldable pub dispose : ExtAudioFile → ExtAudioFile
dispose f = elim f.file [ none ↦ f | some file ↦ record f { disposed = f.disposed ++ file ∷ [] } ]

-- The destructor leaves nothing behind.
unfoldable pub destroy : ExtAudioFile → ExtAudioFile
destroy f = record (dispose f) { file = none }

-- The move assignment from another object, whose file is the argument; that one is then null.
unfoldable pub move_assign : ExtAudioFile → Option ℕ → ExtAudioFile
move_assign f rhs = record (dispose f) { file = rhs }

-- `Close`, with the status of `ExtAudioFileDispose`: a null pointer is not closed.
unfoldable pub close : ℕ → ExtAudioFile → Result (Unit {0}) × ExtAudioFile
close status f = elim f.file [
  | none ↦ (done tt, f)
  | some file ↦ (throw_if status, record f { file = none; disposed = f.disposed ++ file ∷ [] })
]

abbrev note_opened : List ℕ → Option ℕ → List ℕ
note_opened opened none = opened
note_opened opened (some file) = opened ++ file ∷ []

-- What `OpenURL`, `WrapAudioFileID` and `CreateWithURL` have in common: the status of closing, and
-- the status and the file of the call that opens one.
unfoldable pub open_with : ℕ → ℕ → Option ℕ → ExtAudioFile → Result (Unit {0}) × ExtAudioFile
open_with dispose_status status out f =
    let closed = close dispose_status f in
    elim closed.0 [
      | thrown e ↦ (thrown e, closed.1)
      | done _ ↦ (
        throw_if status,
        record closed.1 { file = out; opened = note_opened closed.1.opened out },
      )
    ]

unfoldable pub open_url : ℕ → ℕ → Option ℕ → ExtAudioFile → Result (Unit {0}) × ExtAudioFile
open_url dispose_status status out f = open_with dispose_status status out f

unfoldable pub wrap_audio_file_id :
    ℕ → ℕ → Option ℕ → ExtAudioFile → Result (Unit {0}) × ExtAudioFile
wrap_audio_file_id dispose_status status out f = open_with dispose_status status out f

unfoldable pub create_with_url : ℕ → ℕ → Option ℕ → ExtAudioFile → Result (Unit {0}) × ExtAudioFile
create_with_url dispose_status status out f = open_with dispose_status status out f

-- What `ExtAudioFileRead` returns: a status, the number of frames, and the buffers.
pub record ReadResult : Type 0 where
  pub status : ℕ
  pub frames : ℕ
  pub buffers : List AudioBuffer

-- The end of `Read`: the exception, or the length.
unfoldable pub finish_read : ReadResult → BufferList → Result (Unit {0}) × BufferList
finish_read r ready =
    let filled = record ready { list = some r.buffers } in
    if r.status == 0
    then (done tt, (set_frame_length filled r.frames).1)
    else (thrown (system_error r.status), filled)

-- `Read` into a buffer list, with `ExtAudioFileRead` for a number of frames and buffers as a
-- parameter. `none` is a fault: there are no buffers to read into.
unfoldable pub read_buffer :
    (ℕ → List AudioBuffer → ReadResult) → BufferList → Option (Result (Unit {0}) × BufferList)
read_buffer ext_audio_file_read buffer =
    let ready = (reset buffer).1 in
    ready.list >>= λ bufs. some (finish_read (ext_audio_file_read ready.frame_capacity bufs) ready)
