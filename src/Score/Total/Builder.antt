-- ===== src/Score/Total/Builder.antt =====
-- The events of a track end with a value or an error, and so does the end of a track.
use midi.Score.Text.{push_text}
use mathlib.Core.Option.{none}
use midi.Score.Texts.{push_text-lossy}
use midi.Score.Limits.{unlimited_policy}
use midi.Score.Types.{TextRange}
use midi.Result.Settles.{Settles, Settles-if, Settles-bind, returned, failed, ok_or-Settles}
use midi.Score.Notes.{push, NoteColumnsBuilder}
use midi.Score.Semantics.{
  channel, retain_text, meta, start_note, ScoreMetaEvent, push_name, change_control,
  ScoreTrackSemantics, push_lyric, push_marker, push_tempo, push_time_signature, push_key_signature,
  byte_at, checked_shl_one,
}
use midi.Score.Builder.Events.{handle_pedal, add_lyric, release_pedal, add_control}
use midi.Score.Builder.Open.{take_overflow_queue, queue_note, add_note, ensure_overflow_queue}
use midi.Score.Builder.{
  ensure_group, create_group, ScoreTrackBuilder, group_at, with_group, key, no_group,
}
use midi.Cursor.{Cursor, fits}
use midi.Score.Notes
use midi.Prelude.{
  [], ◌∷◌, ℕ, List, Option, leb, u16_max, ◌∷◌, u32_max, Bytes, length, some, ◌%◌, ◌==◌, ◌^◌, ◌/◌,
  ◌&&◌, not,
}

pub fits-Settles : (limit : ℕ) (c : Cursor) (n : ℕ) → Settles (fits limit c n)
fits-Settles limit c n = Settles-if (leb n limit) (returned n) (failed _)

ensure_group-Settles :
    (channel : ℕ) (b : ScoreTrackBuilder) (c : Cursor) → Settles (ensure_group channel b c)
unfolding ensure_group create_group
ensure_group-Settles channel b c =
    Settles-if _ (Settles-bind (fits-Settles u16_max c (length b.groups)) λ index _. returned _)
      (returned _)

take_overflow_queue-Settles :
    (b : ScoreTrackBuilder) (c : Cursor) → Settles (take_overflow_queue b c)
unfolding take_overflow_queue
take_overflow_queue-Settles b c = from b.free_overflow_queues
  where
    from :
        (free : List ℕ) → Settles (take_overflow_queue (record b { free_overflow_queues = free }) c)
    from (i ∷ free) = returned _
    from [] = Settles-bind (fits-Settles u16_max c (length b.overflow_queues)) λ index _. returned _

ensure_overflow_queue-Settles :
    (k : ℕ) (b : ScoreTrackBuilder) (c : Cursor) → Settles (ensure_overflow_queue k b c)
unfolding ensure_overflow_queue
ensure_overflow_queue-Settles k b c =
    Settles-if _ (Settles-bind (take_overflow_queue-Settles b c) λ _ _. returned _) (returned _)

queue_note-Settles :
    (k group note : ℕ) (b : ScoreTrackBuilder) (c : Cursor) → Settles (queue_note k group note b c)
unfolding queue_note
queue_note-Settles k group note b c =
    Settles-bind (fits-Settles u32_max c (length b.overflow_notes))
      λ index _. Settles-bind (ensure_overflow_queue-Settles k _ c) λ _ _. returned _

push-Settles :
    (b : NoteColumnsBuilder) (time pitch velocity : ℕ) (c : Cursor)
    → Settles (push b time pitch velocity c)
unfolding push
push-Settles b time pitch velocity c =
    Settles-bind (fits-Settles u32_max c (Notes.len b)) λ index _. returned _

add_note-Settles :
    (channel pitch velocity time : ℕ) (b : ScoreTrackBuilder) (c : Cursor)
    → Settles (add_note channel pitch velocity time b c)
unfolding add_note
add_note-Settles channel pitch velocity time b c =
    Settles-bind (ensure_group-Settles channel b c) λ (group, b1) _.
      Settles-bind (push-Settles (group_at b1 group).notes time pitch velocity c) λ (note, notes) _.
        let b2 = with_group b1 group (record (group_at b1 group) { notes = notes }) in
        Settles-if (b2.open_groups (key channel pitch) == no_group) (returned _)
          (queue_note-Settles (key channel pitch) group note b2 c)

handle_pedal-Settles :
    (channel time amount : ℕ) (b : ScoreTrackBuilder) → Settles (handle_pedal channel time amount b)
unfolding handle_pedal release_pedal
handle_pedal-Settles channel time amount b =
    Settles-if _ (returned _) (release (b.pedal_starts channel))
  where
    release : (start : Option ℕ) → Settles (release_pedal channel time start b)
    release none = returned b
    release (some start) = Settles-if _ (failed _) (returned _)

add_lyric-Settles :
    (time : ℕ) (text : TextRange) (b : ScoreTrackBuilder) (c : Cursor)
    → Settles (add_lyric time text b c)
unfolding add_lyric
add_lyric-Settles time text b c =
    Settles-bind (ensure_group-Settles 0 b c) λ (group, b1) _. returned _

change_control-Settles :
    (number : ℕ) (found : Bytes) (time : ℕ) (s : ScoreTrackSemantics)
    → Settles (change_control unlimited_policy number found time tt s)
unfolding change_control
change_control-Settles number found time s =
    let b = add_control number time (byte_at found 0) (byte_at found 1) s.builder in
    Settles-if (byte_at found 0 == 64)
      (Settles-bind (handle_pedal-Settles number time (byte_at found 1) b) λ _ _. returned _)
      (returned _)

start_note-Settles :
    (number : ℕ) (found : Bytes) (time offset : ℕ) (c : Cursor) (s : ScoreTrackSemantics)
    → Settles (start_note unlimited_policy number found time offset tt c s)
unfolding start_note
start_note-Settles number found time offset c s =
    Settles-bind (add_note-Settles number (byte_at found 0) (byte_at found 1) time s.builder c)
      λ _ _. returned _

pub channel-Settles :
    (status : ℕ) (found : Bytes) (time offset : ℕ) (c : Cursor) (s : ScoreTrackSemantics)
    → Settles (channel unlimited_policy status found time offset tt c s)
unfolding channel
channel-Settles status found time offset c s =
    let number = status % 2 ^ 4 in
    let kind = status / 2 ^ 4 in
    Settles-if (kind == 0x08) (returned _) (
      Settles-if (kind == 0x09 && byte_at found 1 == 0) (returned _) (
        Settles-if (kind == 0x09) (start_note-Settles number found time offset c s) (
          Settles-if (kind == 0x0b) (change_control-Settles number found time s) (
            Settles-if (kind == 0x0c) (returned _)
              (Settles-if (kind == 0x0e) (returned _) (returned _))))))

push_text-Settles :
    (offset : ℕ) (text_data text : Bytes) (c : Cursor)
    → Settles (push_text unlimited_policy tt offset text_data text c)
push_text-Settles offset text_data text c =
    rw (push_text-lossy offset text_data text c) (Settles-if _ (returned _) (failed _))

retain_text-Settles :
    (event : ScoreMetaEvent) (c : Cursor) (s : ScoreTrackSemantics)
    → Settles (retain_text unlimited_policy tt event c s)
unfolding retain_text
retain_text-Settles event c s =
    Settles-bind (push_text-Settles event.event_offset s.score.text_data event.payload c)
      λ _ _. returned _

push_lyric-Settles :
    (event : ScoreMetaEvent) (c : Cursor) (s : ScoreTrackSemantics)
    → Settles (push_lyric unlimited_policy tt event c s)
unfolding push_lyric
push_lyric-Settles event c s = Settles-bind (retain_text-Settles event c s) λ (range, s1) _.
    Settles-bind (add_lyric-Settles event.time range s1.builder c) λ _ _. returned _

push_time_signature-Settles :
    (event : ScoreMetaEvent) (s : ScoreTrackSemantics) → Settles (push_time_signature event s)
unfolding push_time_signature
push_time_signature-Settles event s =
    Settles-if (not (length event.payload == 4)) (failed _)
      (Settles-bind (ok_or-Settles (checked_shl_one (byte_at event.payload 1)) _) λ _ _. returned _)

pub meta-Settles :
    (event : ScoreMetaEvent) (c : Cursor) (s : ScoreTrackSemantics)
    → Settles (meta unlimited_policy tt event c s)
unfolding meta push_name push_marker push_tempo push_key_signature
meta-Settles event c s =
    Settles-if (event.meta_type == 0x03)
      (Settles-bind (retain_text-Settles event c s) λ _ _. returned _)
      (Settles-if (event.meta_type == 0x05 && not (length event.payload == 0))
        (push_lyric-Settles event c s)
        (Settles-if (event.meta_type == 0x06 && not (length event.payload == 0))
          (Settles-bind (retain_text-Settles event c s) λ _ _. returned _)
          (Settles-if (event.meta_type == 0x51) (Settles-if _ (failed _) (returned _)) (
            Settles-if (event.meta_type == 0x58) (push_time_signature-Settles event s) (
              Settles-if (event.meta_type == 0x59) (Settles-if _ (failed _) (returned _))
                (returned s))))))
