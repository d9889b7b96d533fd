-- ===== src/FileWrapper.antt =====
-- `SFB::AudioFileWrapper`, of include/SFBAudioFileWrapper.hpp in Sources/CXXAudioUtilities: an open
-- audio file that is closed at the end. A file is a number, and a null pointer is `none`; the calls
-- of `AudioFileClose` are a list of the files that they close. `SFB::ExtAudioFileWrapper`, of
-- include/SFBExtAudioFileWrapper.hpp, has the same text with another file type.
pub mod Conservation
use cxxaudio_utilities.Base.{ℕ, Option, none, some, List, [], ◌∷◌, ◌++◌}

-- The private member.
abbrev pub Wrapper : Type 0
Wrapper = Option ℕ

-- A null pointer is not closed.
unfoldable pub close_old : List ℕ → Option ℕ → List ℕ
close_old closed none = closed
close_old closed (some file) = closed ++ file ∷ []

-- `reset`: the wrapper and the closed files afterwards.
unfoldable pub reset : List ℕ → Wrapper → Option ℕ → List ℕ × Wrapper
reset closed this audio_file = (close_old closed this, audio_file)

-- `release`: the file that is returned, and the wrapper.
unfoldable pub release : Wrapper → Option ℕ × Wrapper
release this = (this, none)

unfoldable pub move_construct : Wrapper → Wrapper × Wrapper
move_construct rhs = release rhs

-- The move assignment of two objects: the closed files, the object, and the other one. With itself
-- it changes nothing.
unfoldable pub move_assign : List ℕ → Wrapper → Wrapper → List ℕ × (Wrapper × Wrapper)
move_assign closed this rhs =
    let moved = release rhs in
    let assigned = reset closed this moved.0 in (assigned.0, (assigned.1, moved.1))

unfoldable pub swap : Wrapper → Wrapper → Wrapper × Wrapper
swap this other = (other, this)

unfoldable pub destroy : List ℕ → Wrapper → List ℕ × Wrapper
destroy closed this = reset closed this none
