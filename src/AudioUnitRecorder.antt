-- ===== src/AudioUnitRecorder.antt =====
-- `SFB::AudioUnitRecorder`, of include/SFBAudioUnitRecorder.hpp in Sources/CXXAudioUtilities: it
-- writes what an audio unit renders to a file. The statuses that the system's calls return are
-- arguments. The calls of `ExtAudioFileWriteAsync`, and of adding and removing the callback, are
-- part of the state; a buffer list is the number it is known by.
pub mod Recording
use cxxaudio_utilities.Base.{
  ℕ, ◌+◌, Bool, true, false, not, ◌&&◌, Option, none, some, List, [], ◌∷◌, ◌++◌, bit_and, ◌==◌,
  if◌then◌else◌, Result, thrown, done, invalid_argument,
}
use cxxaudio_utilities.ExtAudioFile.{ExtAudioFile, is_valid, throw_if, create_with_url}

-- `kAudioUnitRenderAction_PostRender` and `kAudioUnitRenderAction_PostRenderError`.
pub record Flags : Type 0 where
  pub post_render : ℕ
  pub post_render_error : ℕ

-- The private members, and what the system is asked to do.
pub record Recorder : Type 0 where
  pub ext_audio_file : ExtAudioFile
  pub client_format_is_set : Bool
  pub audio_unit : ℕ
  pub bus_number : ℕ
  pub written : List (ℕ × Option ℕ)
  pub added : ℕ
  pub removed : ℕ

abbrev pub Outcome : Type 0
Outcome = Result (Unit {0}) × Recorder

-- A call that is made if the one before it did not throw.
infixl 5 ◌and_then◌
abbrev pub ◌and_then◌ : Outcome → (Recorder → Outcome) → Outcome
o and_then f = elim o.0 [ thrown e ↦ (thrown e, o.1) | done _ ↦ f o.1 ]

-- The constructor, with the status and the file of `ExtAudioFileCreateWithURL`.
unfoldable pub construct : Option ℕ → ℕ → ℕ → Option ℕ → Result Recorder
construct none bus_number status out = thrown invalid_argument
construct (some audio_unit) bus_number status out =
    let created =
      create_with_url 0 status out (record { file = none; opened = []; disposed = [] }) in
    elim created.0 [
      | thrown e ↦ thrown e
      | done _ ↦ done (record {
        ext_audio_file = created.1;
        client_format_is_set = false;
        audio_unit = audio_unit;
        bus_number = bus_number;
        written = [];
        added = 0;
        removed = 0;
      })
    ]

-- The client format, unless it is set: the statuses of asking for it and of setting it.
unfoldable pub set_client_format : ℕ → ℕ → Recorder → Outcome
set_client_format get_status set_status r =
    if r.client_format_is_set
    then (done tt, r)
    else ((throw_if get_status, r) and_then λ r.
        (throw_if set_status, r) and_then λ r. (done tt, record r { client_format_is_set = true }))

-- `WriteAsync`.
unfoldable pub write_async : ℕ → ℕ → Option ℕ → Recorder → Outcome
write_async status frames io_data r =
    (throw_if status, record r { written = r.written ++ (frames, io_data) ∷ [] })

unfoldable pub start : ℕ → ℕ → ℕ → ℕ → Recorder → Outcome
start get_status set_status write_status add_status r =
    if is_valid r.ext_audio_file
    then (set_client_format get_status set_status r
        and_then write_async write_status 0 none
        and_then λ r. (throw_if add_status, record r { added = r.added + 1 }))
    else (done tt, r)

unfoldable pub stop : ℕ → Recorder → Outcome
stop remove_status r =
    if is_valid r.ext_audio_file
    then (throw_if remove_status, record r { removed = r.removed + 1 })
    else (done tt, r)

-- The arguments of one call of the callback.
pub record Render : Type 0 where
  pub action_flags : ℕ
  pub bus : ℕ
  pub frames : ℕ
  pub io_data : ℕ

-- `RenderCallback`, with the status of writing: an exception is caught.
unfoldable pub render_callback : Flags → ℕ → Recorder → Render → Recorder
render_callback k status r c =
    if not (bit_and c.action_flags k.post_render == 0)
    then (if (r.bus_number == c.bus) && (bit_and c.action_flags k.post_render_error == 0)
        then (write_async status c.frames (some c.io_data) r).1
        else r)
    else r
