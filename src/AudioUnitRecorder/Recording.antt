-- ===== src/AudioUnitRecorder/Recording.antt =====
-- What a recorder writes, and how it starts.
use mathlib.Core.Path.{subst}
use mathlib.Core.List.{append_assoc, append-nil}
use cxxaudio_utilities.Base.{
  ℕ, ◌+◌, ◌≡◌, ◌⊎◌, refl, sym, ap, ◌∙◌, arith, inl, inr, Bool, true, false, not, ◌&&◌, Bool-cases,
  Option, none, some, List, [], ◌∷◌, ◌++◌, bit_and, ◌==◌, if◌then◌else◌, Exception, thrown, done,
  system_error, ◌≢◌,
}
use cxxaudio_utilities.ExtAudioFile.{is_valid, throw_if}
use cxxaudio_utilities.AudioUnitRecorder.{
  Flags, Recorder, Outcome, ◌and_then◌, set_client_format, write_async, start, Render,
  render_callback,
}

-- The callbacks one after the other, each with the status of its write.
unfoldable pub renders : Flags → Recorder → List (ℕ × Render) → Recorder
renders k r [] = r
renders k r (c ∷ cs) = renders k (render_callback k c.0 r c.1) cs

-- What is to be written: after the unit has rendered, on the bus, without an error.
abbrev pub is_recorded : Flags → ℕ → Render → Bool
is_recorded k bus c =
    not (bit_and c.action_flags k.post_render == 0)
    && ((bus == c.bus) && (bit_and c.action_flags k.post_render_error == 0))

abbrev pub recorded : Flags → ℕ → List (ℕ × Render) → List (ℕ × Option ℕ)
recorded k bus [] = []
recorded k bus (c ∷ cs) =
    if is_recorded k bus c.1
    then (c.1.frames, some c.1.io_data) ∷ recorded k bus cs
    else recorded k bus cs

render_callback_lem :
    (k : Flags) (status : ℕ) (r : Recorder) (c : Render)
    → render_callback k status r c ≡ (
        if is_recorded k r.bus_number c
        then record r { written = r.written ++ (c.frames, some c.io_data) ∷ [] }
        else r)
unfolding render_callback write_async
render_callback_lem k status r c = elim (Bool-cases (bit_and c.action_flags k.post_render == 0)) [
  | inl before ↦ rw before refl
  | inr after ↦ rw after refl
]

-- Whatever callbacks come, and whether writing succeeds or not: a recorder asks the file to write,
-- behind what it has written, exactly the buffers that were rendered on its bus without an error,
-- once each and in their order, and nothing else changes.
pub renders-recorded :
    (k : Flags) (r : Recorder) (cs : List (ℕ × Render))
    → renders k r cs ≡ record r { written = r.written ++ recorded k r.bus_number cs }
unfolding renders
renders-recorded k r [] = ap (λ w. record r { written = w }) (sym (append-nil r.written))
renders-recorded k r (c ∷ cs) = elim (Bool-cases (is_recorded k r.bus_number c.1)) [
  | inl keeps ↦
      let next : Recorder = record r {
        written = r.written ++ (c.1.frames, some c.1.io_data) ∷ [];
      } in
      let step : render_callback k c.0 r c.1 ≡ next =
        render_callback_lem k c.0 r c.1 ∙ rw keeps refl in
      let now : recorded k r.bus_number (c ∷ cs)
          ≡ (c.1.frames, some c.1.io_data) ∷ recorded k r.bus_number cs =
        rw keeps refl in
      ap (λ x. renders k x cs) step
      ∙ renders-recorded k next cs
      ∙ ap (λ w. record r { written = w })
          (append_assoc r.written ((c.1.frames, some c.1.io_data) ∷ []) (recorded k r.bus_number cs)
            ∙ ap (λ w. r.written ++ w) (sym now))
  | inr leaves ↦
      let step : render_callback k c.0 r c.1 ≡ r =
        render_callback_lem k c.0 r c.1 ∙ rw leaves refl in
      let now : recorded k r.bus_number (c ∷ cs) ≡ recorded k r.bus_number cs = rw leaves refl in
      ap (λ x. renders k x cs) step
      ∙ renders-recorded k r cs
      ∙ ap (λ w. record r { written = r.written ++ w }) (sym now)
]

-- How starting ends on a recorder whose file is open, with the four statuses.
pub data Starting (g s w a : ℕ) (r : Recorder) : Outcome → Type 0 where
  without_format :
      (e : Exception)
      → r.client_format_is_set ≡ false
      → (g ≢ 0) ⊎ (s ≢ 0)
      → Starting g s w a r (thrown e, r)
  not_prepared :
      (e : Exception)
      → w ≢ 0
      → Starting g s w a r (
        thrown e,
        record r { client_format_is_set = true; written = r.written ++ (0, none) ∷ [] },
      )
  asked :
      w ≡ 0
      → Starting g s w a r (
        throw_if a,
        record r {
          client_format_is_set = true;
          written = r.written ++ (0, none) ∷ [];
          added = r.added + 1;
        },
      )

throw_if-zero : (n : ℕ) → (n == 0) ≡ true → throw_if n ≡ done tt
unfolding throw_if
throw_if-zero n e = rw e refl

throw_if-nonzero : (n : ℕ) → (n == 0) ≡ false → (e : Exception) × (throw_if n ≡ thrown e)
unfolding throw_if
throw_if-nonzero n e = (system_error n, rw e refl)

-- The part of `Start` behind the client format.
abbrev rest : ℕ → ℕ → Recorder → Outcome
rest w a r = write_async w 0 none r and_then λ r. (throw_if a, record r { added = r.added + 1 })

rest-Starting :
    (g s w a : ℕ) (r : Recorder)
    → Starting g s w a r (rest w a (record r { client_format_is_set = true }))
unfolding write_async
rest-Starting g s w a r = elim (Bool-cases (w == 0)) [
  | inl ok ↦ let e = throw_if-zero w ok in rw e (Starting.asked (ground arith))
  | inr bad ↦ let e = throw_if-nonzero w bad in rw e.1 (Starting.not_prepared e.0 (ground arith))
]

set_already :
    (r : Recorder) → r.client_format_is_set ≡ true → r ≡ record r { client_format_is_set = true }
set_already r e = ap (λ b. record r { client_format_is_set = b }) e

-- What `Start` does on a recorder whose file is open. Where the client format is not set and cannot
-- be had or set, it throws and changes nothing. Otherwise the format is set, the file is asked for
-- an empty write, and if that fails it throws; if not, the callback is added, and it throws if the
-- status of that is not 0.
pub start-Starting :
    (g s w a : ℕ) (r : Recorder)
    → is_valid r.ext_audio_file ≡ true
    → Starting g s w a r (start g s w a r)
unfolding start set_client_format
start-Starting g s w a r valid = elim (Bool-cases r.client_format_is_set) [
  | inl is_set ↦
      let now : start g s w a r ≡ rest w a r = rw (valid, is_set) refl in
      subst (Starting g s w a r) (sym (now ∙ ap (rest w a) (set_already r is_set)))
        (rest-Starting g s w a r)
  | inr unset ↦ elim (Bool-cases (g == 0)) [
    | inr bad ↦
        let e = throw_if-nonzero g bad in
        let now : start g s w a r ≡ (thrown e.0, r) = rw (valid, unset, e.1) refl in
        subst (Starting g s w a r) (sym now)
          (Starting.without_format e.0 unset (inl (ground arith)))
    | inl ok ↦ elim (Bool-cases (s == 0)) [
      | inr bad ↦
          let e = throw_if-nonzero s bad in
          let now : start g s w a r ≡ (thrown e.0, r) =
            rw (valid, unset, throw_if-zero g ok, e.1) refl in
          subst (Starting g s w a r) (sym now)
            (Starting.without_format e.0 unset (inr (ground arith)))
      | inl ok' ↦
          let now : start g s w a r ≡ rest w a (record r { client_format_is_set = true }) =
            rw (valid, unset, throw_if-zero g ok, throw_if-zero s ok') refl in
          subst (Starting g s w a r) (sym now) (rest-Starting g s w a r)
    ]
  ]
]
