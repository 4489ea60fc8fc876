-- ===== src/Python/MidiFile/Records.antt =====
-- The loops of MidiFile::semantic_records.
use mathlib.Core.Option.{some-injective}
use midi.Python.MidiFile.Tells.{Tells, event_tuple-Tells}
use midi.Python.Gives.{map_result-returned}
use midi.Owned.Views.{Tiles-le, event_data-IsArena, get_span-some, IsEventData}
use mathlib.Core.Path.{subst, sym, ap}
use midi.Owned.Arena.{IsArena, Tiles, parse_smf-IsArena}
use midi.Python.MidiFile.{
  EventTuple, event_tuples, event_tuple, track_tuples, midi_file_records, parse_owned, last,
  normalize_sysex, MidiFile, drop_terminator,
}
use midi.Python.{Interpreter, HasMemory, returned}
use midi.Owned.{OwnedSmf, EventRecord, event_data, TrackRange, track_events, parse_smf}
use midi.Prelude.{
  take, drop, ℕ, refl, suc, zero, List, ◌<◌, ◌∷◌, length, ◌+◌, Bytes, get_elem?, ◌++◌, ◌≡◌, some,
  [], ◌≤◌, arith, drop, ◌∙◌, usize_max, sym, length-append, ap, slice, leb, true, ◌-◌, le→leb,
  take-append, get_elem?-some,
}

-- The records tell of the events from `i` on.
abbrev pub TellAll : OwnedSmf → ℕ → List EventTuple → Type 0
TellAll smf i [] = Unit {0}
TellAll smf i (r ∷ rs) = Tells smf i r × TellAll smf (i + 1) rs

TellAll-append :
    (smf : OwnedSmf) (i : ℕ) (rs : List EventTuple) (r : EventTuple)
    → TellAll smf i rs
    → Tells smf (i + length rs) r
    → TellAll smf i (rs ++ (r ∷ []))
TellAll-append smf i [] r h k =
    let same : i + 0 ≡ i = omega arith in (subst (λ j. Tells smf j r) same k, tt)
TellAll-append smf i (x ∷ rs) r h k =
    let same : i + suc (length rs) ≡ i + 1 + length rs = omega arith in
    (h.0, TellAll-append smf (i + 1) rs r h.1 (subst (λ j. Tells smf j r) same k))

-- The element at an index, and what lies behind it.
drop-get_elem? :
    {A : Type 0} (xs : List A) (i : ℕ)
    → i < length xs
    → (x : A) × (get_elem? xs i ≡ some x) × (drop i xs ≡ x ∷ drop (i + 1) xs)
drop-get_elem? [] i h = absurd (omega arith)
drop-get_elem? (x ∷ xs) zero h = (x, refl, refl)
drop-get_elem? (x ∷ xs) (suc i) h =
    let (y, e, k) = drop-get_elem? xs i (omega arith) in
    let same : suc i + 1 ≡ suc (i + 1) = omega arith in (y, e, rw same k)

-- The event at an index has its bytes.
record_at :
    (smf : OwnedSmf) (i : ℕ) (event : EventRecord)
    → IsArena smf
    → get_elem? smf.events i ≡ some event
    → (raw : Bytes) × (event_data smf i ≡ some raw)
      × (length raw ≡ event.payload_len)
      × IsEventData smf event raw
record_at smf i event arena e =
    let (x, raw, at, bytes, size, part) =
      event_data-IsArena smf i arena (get_elem?-some smf.events i event e) in
    let same = some-injective x event (sym at ∙ e) in
    (raw, bytes, size ∙ ap (λ y. y.payload_len) same, subst (λ y. IsEventData smf y raw) same part)

-- The records of the first `n` events.
abbrev Told : OwnedSmf → ℕ → List EventTuple → Type 0
Told smf n rs = TellAll smf 0 rs × (length rs ≡ n)

module _ (py : Interpreter) (memory : HasMemory py) (smf : OwnedSmf) (arena : IsArena smf) where
  event_tuples-Told :
      (track : ℕ) (range : TrackRange) (local_index i n : ℕ) (records : List EventTuple)
      → get_elem? smf.tracks track ≡ some range
      → i ≡ range.start + local_index
      → local_index + n ≡ range.len
      → i + n ≤ length smf.events
      → Told smf i records
      → (rs : List EventTuple) × (event_tuples py smf track range.start local_index
            (take n (drop i smf.events))
            records
          ≡ returned rs)
        × Told smf (i + n) rs
  unfolding event_tuples
  event_tuples-Told track range local_index i zero records of_track at all h k =
      let same : i + 0 ≡ i = omega arith in (records, refl, (k.0, k.1 ∙ sym same))
  event_tuples-Told track range local_index i (suc n) records of_track at all h k =
      let (x, e, split) = drop-get_elem? smf.events i (omega arith) in
      let (raw, bytes, size, part) = record_at smf i x arena e in
      let record1 = event_tuple track x raw in
      let tells : Tells smf i record1 =
        event_tuple-Tells smf i track range x raw e of_track (omega arith) (omega arith) part
          size in
      let here : 0 + length records ≡ i = omega (arith, k.1) in
      let longer : length (records ++ (record1 ∷ [])) ≡ i + 1 =
        omega (arith, length-append records (record1 ∷ []), k.1) in
      let (rs, runs, told) =
        event_tuples-Told track range (local_index + 1) (i + 1) n (records ++ (record1 ∷ []))
          of_track (omega arith) (omega arith) (omega arith)
          (
            TellAll-append smf 0 records record1 k.0
                (subst (λ j. Tells smf j record1) (sym here) tells),
            longer,
          ) in
      let same : i + suc n ≡ i + 1 + n = omega arith in
      (
        rs,
        rw (split, sym at, bytes, memory.appends records record1) runs,
        (told.0, told.1 ∙ sym same),
      )

  -- The events of a track are the next ones.
  track_events-slice :
      (track_index i : ℕ) (track : TrackRange)
      → get_elem? smf.tracks track_index ≡ some track
      → track.start ≡ i
      → i + track.len ≤ length smf.events
      → length smf.events ≤ usize_max
      → track_events smf track_index ≡ some (take track.len (drop i smf.events))
  unfolding track_events slice
  track_events-slice track_index i track e at end small =
      let size : i + track.len - i ≡ track.len = omega arith in
      rw (track_events, e, at, get_span-some smf.events i track.len end small, slice, size) refl

  track_tuples-Told :
      (track_index i : ℕ) (tracks : List TrackRange) (records : List EventTuple)
      → length smf.events ≤ usize_max
      → ((k : ℕ) → get_elem? tracks k ≡ get_elem? smf.tracks (track_index + k))
      → Tiles i tracks (length smf.events)
      → Told smf i records
      → (rs : List EventTuple) × (track_tuples py smf track_index tracks records ≡ returned rs)
        × Told smf (length smf.events) rs
  unfolding track_tuples
  track_tuples-Told track_index i [] records small same tiled k =
      (records, refl, (k.0, k.1 ∙ tiled))
  track_tuples-Told track_index i (track ∷ tracks) records small same tiled k =
      let end : i + track.len ≤ length smf.events =
        Tiles-le tracks (i + track.len) (length smf.events) tiled.1 in
      let of_track : get_elem? smf.tracks track_index ≡ some track =
        ap (get_elem? smf.tracks) (omega arith) ∙ sym (same 0) in
      let found = track_events-slice track_index i track of_track tiled.0 end small in
      let start : leb track.start usize_max ≡ true =
        le→leb track.start usize_max (omega (arith, tiled.0)) in
      let (records1, runs1, told1) =
        event_tuples-Told track_index track 0 i track.len records of_track (omega (arith, tiled.0))
          (omega arith) end k in
      let (rs, runs, told) =
        track_tuples-Told (track_index + 1) (i + track.len) tracks records1 small
          (λ j. same (suc j) ∙ ap (get_elem? smf.tracks) (omega arith)) tiled.1 told1 in
      (rs, rw (start, found, runs1) runs, told)

-- The records of a file with a well-formed arena are all built: one for each event, in order.
pub midi_file_records-Tells :
    (py : Interpreter) (smf : OwnedSmf)
    → HasMemory py
    → IsArena smf
    → length smf.events ≤ usize_max
    → (rs : List EventTuple) × (midi_file_records py (record { inner = smf }) ≡ returned rs)
      × (TellAll smf 0 rs × (length rs ≡ length smf.events))
unfolding midi_file_records
midi_file_records-Tells py smf memory arena small =
    track_tuples-Told py memory smf arena 0 0 smf.tracks [] small
      (λ k. ap (get_elem? smf.tracks) (omega arith)) arena.tiled (tt, refl)

-- A file that the Python module has parsed gives its records, in an interpreter that has memory: one
-- for each event, in order. A record names the track whose range the event lies in, the event's
-- delta, its status, 0xf0 for a SysEx event of either kind, its meta type if it is a meta event, and
-- its bytes from the arena, those of a SysEx event without a leading 0xf0 and a trailing 0xf7.
pub parse_owned-midi_file_records :
    (py : Interpreter) (bytes : Bytes) (file : MidiFile)
    → HasMemory py
    → length file.inner.events ≤ usize_max
    → parse_owned bytes ≡ returned file
    → (rs : List EventTuple) × (midi_file_records py file ≡ returned rs)
      × (TellAll file.inner 0 rs × (length rs ≡ length file.inner.events))
unfolding parse_owned
parse_owned-midi_file_records py bytes file memory small e =
    let (smf, parsed, same) = map_result-returned _ (parse_smf bytes) file e in
    midi_file_records-Tells py file.inner memory (rw same (parse_smf-IsArena bytes parsed)) small

last-append : (bytes : Bytes) (b : ℕ) → last (bytes ++ (b ∷ [])) ≡ some b
unfolding last
last-append [] b = refl
last-append (x ∷ []) b = refl
last-append (x ∷ y ∷ bytes) b = last-append (y ∷ bytes) b

-- A payload in its frame is normalised to what the frame holds, whatever that is.
pub normalize_sysex-framed : (body : Bytes) → normalize_sysex (0xf0 ∷ body ++ (0xf7 ∷ [])) ≡ body
unfolding normalize_sysex drop_terminator
normalize_sysex-framed body =
    let size : length (body ++ (0xf7 ∷ [])) - 1 ≡ length body =
      omega (arith, length-append body (0xf7 ∷ [])) in
    rw (last-append body 0xf7, size) (take-append body (0xf7 ∷ []))
