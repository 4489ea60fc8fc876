-- ===== src/Python/Score/Dicts.antt =====
-- Score::semantic_records and the functions that it calls: dicts of a score, its tracks and rows.
use midi.Score.Notes.{segment_notes}
use midi.Score.Types.{
  TickNote, TickControlChange, TickPitchBend, TickPedal, TickTimeSignature, TickKeySignature,
  TickTempo, TextRange, TickText, TickTrack, control_time, control_number, control_value,
}
use midi.Score.Arena.{
  TickScore, track_notes, track_controls, track_pitch_bends, track_pedals, track_lyrics,
}
use midi.Prelude.{ℕ, List, [], ◌∷◌, Bytes, ℤ, Bool, ◌+◌}
use midi.Python.{
  PyResult, ◌>>=◌, Interpreter, returned, or_raise, invalid_text_range, invalid_note_range,
  invalid_control_range, invalid_pitch_bend_range, invalid_pedal_range, invalid_lyric_range,
}
use midi.Score.Arena

-- The dicts of `semantic_records`.
pub record NoteRecord : Type 0 where
  pub time : ℕ
  pub duration : ℕ
  pub pitch : ℕ
  pub velocity : ℕ

pub record ControlRecord : Type 0 where
  pub time : ℕ
  pub number : ℕ
  pub amount : ℕ

pub record BendRecord : Type 0 where
  pub time : ℕ
  pub bend : ℤ

pub record PedalRecord : Type 0 where
  pub time : ℕ
  pub duration : ℕ

pub record TextRecord : Type 0 where
  pub time : ℕ
  pub text : Bytes

pub record TimeSignatureRecord : Type 0 where
  pub time : ℕ
  pub numerator : ℕ
  pub denominator : ℕ

pub record KeySignatureRecord : Type 0 where
  pub time : ℕ
  pub key : ℤ
  pub tonality : ℕ

pub record TempoRecord : Type 0 where
  pub time : ℕ
  pub mspq : ℕ

pub record TrackRecord : Type 0 where
  pub name : Bytes
  pub program : ℕ
  pub is_drum : Bool
  pub notes : List NoteRecord
  pub controls : List ControlRecord
  pub pitch_bends : List BendRecord
  pub pedals : List PedalRecord
  pub lyrics : List TextRecord

pub record ScoreRecord : Type 0 where
  pub tpq : ℕ
  pub tracks : List TrackRecord
  pub time_signatures : List TimeSignatureRecord
  pub key_signatures : List KeySignatureRecord
  pub tempos : List TempoRecord
  pub markers : List TextRecord

module _ (py : Interpreter) where
  open py use {append, set_item}

  -- `for event in events`, with a record built for each and appended
  unfoldable pub build : {A B : Type 0} → (A → PyResult B) → List A → List B → PyResult (List B)
  build make [] records = returned records
  build make (event ∷ events) records = do
    item ← make event
    records1 ← append records item
    build make events records1

  unfoldable pub note_record : TickNote → PyResult NoteRecord
  note_record event = do
    time ← set_item event.time
    duration ← set_item event.duration
    pitch ← set_item event.pitch
    velocity ← set_item event.velocity
    returned (record { time = time; duration = duration; pitch = pitch; velocity = velocity })

  unfoldable pub control_record : TickControlChange → PyResult ControlRecord
  control_record event = do
    time ← set_item (control_time event)
    number ← set_item (control_number event)
    amount ← set_item (control_value event)
    returned (record { time = time; number = number; amount = amount })

  unfoldable pub bend_record : TickPitchBend → PyResult BendRecord
  bend_record event = do
    time ← set_item event.time
    bend ← set_item event.value
    returned (record { time = time; bend = bend })

  unfoldable pub pedal_record : TickPedal → PyResult PedalRecord
  pedal_record event = do
    time ← set_item event.time
    duration ← set_item event.duration
    returned (record { time = time; duration = duration })

  unfoldable pub time_signature_record : TickTimeSignature → PyResult TimeSignatureRecord
  time_signature_record event = do
    time ← set_item event.time
    numerator ← set_item event.numerator
    denominator ← set_item event.denominator
    returned (record { time = time; numerator = numerator; denominator = denominator })

  unfoldable pub key_signature_record : TickKeySignature → PyResult KeySignatureRecord
  key_signature_record event = do
    time ← set_item event.time
    key ← set_item event.key
    tonality ← set_item event.tonality
    returned (record { time = time; key = key; tonality = tonality })

  unfoldable pub tempo_record : TickTempo → PyResult TempoRecord
  tempo_record event = do
    time ← set_item event.time
    mspq ← set_item event.microseconds_per_quarter
    returned (record { time = time; mspq = mspq })

  module _ (from_utf8_lossy : Bytes → Bytes) (score : TickScore) where
    -- `Score::text`
    unfoldable pub text_of : TextRange → PyResult Bytes
    text_of range = do
      bytes ← or_raise (Arena.text score range) invalid_text_range
      returned (from_utf8_lossy bytes)

    unfoldable pub text_record : TickText → PyResult TextRecord
    unfolding text_of
    text_record event = do
      time ← set_item event.time
      found ← text_of event.text
      text ← set_item found
      returned (record { time = time; text = text })

    unfoldable pub note_records : ℕ → PyResult (List NoteRecord)
    unfolding build note_record
    note_records track = do
      segment ← or_raise (track_notes score track) invalid_note_range
      build note_record (segment_notes segment) []

    unfoldable pub control_records : ℕ → PyResult (List ControlRecord)
    unfolding build control_record
    control_records track = do
      events ← or_raise (track_controls score track) invalid_control_range
      build control_record events []

    unfoldable pub bend_records : ℕ → PyResult (List BendRecord)
    unfolding build bend_record
    bend_records track = do
      events ← or_raise (track_pitch_bends score track) invalid_pitch_bend_range
      build bend_record events []

    unfoldable pub pedal_records : ℕ → PyResult (List PedalRecord)
    unfolding build pedal_record
    pedal_records track = do
      events ← or_raise (track_pedals score track) invalid_pedal_range
      build pedal_record events []

    unfoldable pub lyric_records : ℕ → PyResult (List TextRecord)
    unfolding build text_record
    lyric_records track = do
      events ← or_raise (track_lyrics score track) invalid_lyric_range
      build text_record events []

    -- The dict of a track.
    unfoldable pub track_record : ℕ → TickTrack → PyResult TrackRecord
    unfolding text_of note_records control_records bend_records pedal_records lyric_records
    track_record track_index track = do
      found_name ← text_of track.name
      name ← set_item found_name
      program ← set_item track.program
      is_drum ← set_item track.is_drum
      found_notes ← note_records track_index
      notes ← set_item found_notes
      found_controls ← control_records track_index
      controls ← set_item found_controls
      found_bends ← bend_records track_index
      pitch_bends ← set_item found_bends
      found_pedals ← pedal_records track_index
      pedals ← set_item found_pedals
      found_lyrics ← lyric_records track_index
      lyrics ← set_item found_lyrics
      returned (record {
        name = name;
        program = program;
        is_drum = is_drum;
        notes = notes;
        controls = controls;
        pitch_bends = pitch_bends;
        pedals = pedals;
        lyrics = lyrics;
      })

    -- `for (track_index, track) in self.inner.tracks().iter().copied().enumerate()`
    unfoldable pub track_records :
        ℕ → List TickTrack → List TrackRecord → PyResult (List TrackRecord)
    unfolding track_record
    track_records track_index [] records = returned records
    track_records track_index (track ∷ tracks) records = do
      item ← track_record track_index track
      records1 ← append records item
      track_records (track_index + 1) tracks records1

    -- `Score::semantic_records`
    unfoldable pub score_records : PyResult ScoreRecord
    unfolding track_records build time_signature_record key_signature_record tempo_record
        text_record
    score_records = do
      tpq ← set_item score.header.division
      found_tracks ← track_records 0 score.tracks []
      tracks ← set_item found_tracks
      found_times ← build time_signature_record score.time_signatures []
      time_signatures ← set_item found_times
      found_keys ← build key_signature_record score.key_signatures []
      key_signatures ← set_item found_keys
      found_tempos ← build tempo_record score.tempos []
      tempos ← set_item found_tempos
      found_markers ← build text_record score.markers []
      markers ← set_item found_markers
      returned (record {
        tpq = tpq;
        tracks = tracks;
        time_signatures = time_signatures;
        key_signatures = key_signatures;
        tempos = tempos;
        markers = markers;
      })
