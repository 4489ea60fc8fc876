-- ===== src/Tests/Files.antt =====
-- Small Standard MIDI Files as byte lists.
use midi.Prelude.{[], ◌∷◌, ◌++◌, Bytes, length}
use midi.Smf.{header_chunk, track_chunk}

-- Format 0, one track, 96 ticks to the quarter note.
abbrev pub one_track_header : Bytes
one_track_header = header_chunk ++ (0 ∷ 0 ∷ 0 ∷ 6 ∷ 0 ∷ 0 ∷ 0 ∷ 1 ∷ 0 ∷ 96 ∷ [])

abbrev pub one_track : Bytes → Bytes
one_track body = one_track_header ++ (track_chunk ++ (0 ∷ 0 ∷ 0 ∷ length body ∷ body))

-- A note on, a note off under running status after 100 ticks, a text event, and the end of track.
abbrev pub short_body : Bytes
short_body =
    0 ∷ 0x90 ∷ 60 ∷ 64 ∷ 100 ∷ 60 ∷ 0 ∷ 0 ∷ 0xff ∷ 0x01 ∷ 2 ∷ b'h' ∷ b'i' ∷ 0 ∷ 0xff ∷ 0x2f ∷ 0 ∷ []

abbrev pub short_file : Bytes
short_file = one_track short_body

-- A data byte with no running status.
abbrev pub bad_file : Bytes
bad_file = one_track (0 ∷ 60 ∷ 64 ∷ [])

-- A name that is not UTF-8, a tempo, a program, two overlapping notes of one pitch, a pedal.
abbrev pub full_body : Bytes
full_body =
    (0 ∷ 0xff ∷ 0x03 ∷ 2 ∷ b'a' ∷ 0xff ∷ 0 ∷ 0xff ∷ 0x51 ∷ 3 ∷ 7 ∷ 0xa1 ∷ 0x20 ∷ 0 ∷ 0xc0 ∷ 5 ∷ [])
    ++ (0 ∷ 0x90 ∷ 60 ∷ 10 ∷ 10 ∷ 60 ∷ 20 ∷ 20 ∷ 0x80 ∷ 60 ∷ 0 ∷ 30 ∷ 60 ∷ 0 ∷ [])
    ++ (0 ∷ 0xb0 ∷ 64 ∷ 127 ∷ 5 ∷ 64 ∷ 0 ∷ 0 ∷ 0xff ∷ 0x2f ∷ 0 ∷ [])

abbrev pub full_file : Bytes
full_file = one_track full_body

-- Two tempos, 500,000 and 66,051 microseconds to the quarter note.
abbrev pub tempo_file : Bytes
tempo_file =
    one_track (0 ∷ 0xff ∷ 0x51 ∷ 3 ∷ 7 ∷ 0xa1 ∷ 0x20 ∷ 5 ∷ 0xff ∷ 0x51 ∷ 3 ∷ 1 ∷ 2 ∷ 3 ∷ [])

-- The tempos with the end of track behind them.
abbrev pub ended_file : Bytes
ended_file = one_track (
    0 ∷ 0xff ∷ 0x51 ∷ 3 ∷ 7 ∷ 0xa1 ∷ 0x20 ∷ 5 ∷ 0xff ∷ 0x51 ∷ 3 ∷ 1 ∷ 2 ∷ 3 ∷ 0 ∷ 0xff ∷ 0x2f ∷ 0
    ∷ [])
