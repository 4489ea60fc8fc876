-- ===== src/Score/Builder/Open.antt =====
-- ScoreTrackBuilder: the open notes of a channel and pitch, the first in its slot, the later ones in
-- an overflow queue.
use midi.Prelude.{
  ℕ, ◌+◌, ◌-◌, ◌%◌, ◌^◌, Option, none, some, [], ◌∷◌, ◌++◌, u16_max, u32_max, get_or, set, length,
  ◌==◌, if◌then◌else◌,
}
use midi.Result.{Result, ok, ◌>>=◌}
use midi.Cursor.{Cursor, fits}
use midi.Score.Notes
use midi.Score.Notes.{NoteColumnsBuilder, NoteTiming, no_notes, start_time, complete, into_segment}
use midi.Score.Builder.{
  OverflowNote, OverflowQueue, no_group, no_overflow_queue, no_open_note, ScoreTrackBuilder, update,
  key, pack_open_note_state, open_note_index, open_note_start, group_at, with_group, ensure_group,
}

-- `free_overflow_queues.pop()` is the last element: the list holds the vector in reverse.
unfoldable pub take_overflow_queue : ScoreTrackBuilder → Cursor → Result (ℕ × ScoreTrackBuilder)
take_overflow_queue b c = elim b.free_overflow_queues [
  | index ∷ rest ↦ ok (index, record b { free_overflow_queues = rest })
  | [] ↦ do
    index ← fits u16_max c (length b.overflow_queues)
    ok (
      index,
      record b {
        overflow_queues =
            b.overflow_queues ++ (record { head = no_open_note; tail = no_open_note } ∷ []);
      },
    )
]

unfoldable pub ensure_overflow_queue :
    ℕ → ScoreTrackBuilder → Cursor → Result (ℕ × ScoreTrackBuilder)
unfolding take_overflow_queue
ensure_overflow_queue k b c =
    let current = b.overflow_queues_by_key k in
    if current == no_overflow_queue
    then (do
      (index, b1) ← take_overflow_queue b c
      ok (index, record b1 { overflow_queues_by_key = update b1.overflow_queues_by_key k index }))
    else ok (current, b)

abbrev pub queue_at : ScoreTrackBuilder → ℕ → OverflowQueue
queue_at b i = get_or b.overflow_queues i (record { head = no_open_note; tail = no_open_note })

abbrev pub overflow_at : ScoreTrackBuilder → ℕ → OverflowNote
overflow_at b i = get_or b.overflow_notes i (record { group = 0; note = 0; next = no_open_note })

-- The queue's end: `index` is linked behind the last note, or is the first.
unfoldable pub link_overflow : ℕ → ℕ → ScoreTrackBuilder → ScoreTrackBuilder
link_overflow queue_index index b =
    let queue = queue_at b queue_index in
    if queue.tail == no_open_note
    then record b {
      overflow_queues = set b.overflow_queues queue_index (record { head = index; tail = index });
    }
    else record b {
      overflow_notes =
          set b.overflow_notes queue.tail (record (overflow_at b queue.tail) { next = index });
      overflow_queues = set b.overflow_queues queue_index (record queue { tail = index });
    }

unfoldable pub queue_note : ℕ → ℕ → ℕ → ScoreTrackBuilder → Cursor → Result ScoreTrackBuilder
unfolding link_overflow
queue_note k group note b c = do
  index ← fits u32_max c (length b.overflow_notes)
  (queue_index, b2) ←
      ensure_overflow_queue k
        (record b {
          overflow_notes =
              b.overflow_notes ++ (record { group = group; note = note; next = no_open_note } ∷ []);
        })
        c
  ok (link_overflow queue_index index b2)

-- The first note of its channel and pitch takes the direct slot, a later one is queued.
unfoldable pub add_note : ℕ → ℕ → ℕ → ℕ → ScoreTrackBuilder → Cursor → Result ScoreTrackBuilder
unfolding queue_note
add_note channel pitch velocity time b c = do
  (group, b1) ← ensure_group channel b c
  (note, notes) ← Notes.push (group_at b1 group).notes time pitch velocity c
  let b2 = with_group b1 group (record (group_at b1 group) { notes = notes })
  let k = key channel pitch
  if b2.open_groups k == no_group
      then ok (record b2 {
        open_groups = update b2.open_groups k group;
        open_note_states = update b2.open_note_states k (pack_open_note_state note time);
      })
      else queue_note k group note b2 c

abbrev close_slot : ℕ → ScoreTrackBuilder → ScoreTrackBuilder
close_slot k b = record b {
  open_groups = update b.open_groups k no_group;
  open_note_states = update b.open_note_states k 0;
}

-- The first queued note, at `index`, moves into the slot.
unfoldable pub advance_queue : ℕ → ℕ → ℕ → ScoreTrackBuilder → ScoreTrackBuilder
advance_queue k queue_index index b =
    let next = overflow_at b index in
    let next_time = start_time (group_at b next.group).notes.timing next.note in
    let queue = queue_at b queue_index in
    record b {
      open_groups = update b.open_groups k next.group;
      open_note_states = update b.open_note_states k (pack_open_note_state next.note next_time);
      overflow_queues = set b.overflow_queues queue_index (record {
        head = next.next;
        tail = if next.next == no_open_note then no_open_note else queue.tail;
      });
    }

-- The slot behind a note that has ended.
unfoldable pub next_open_note : ℕ → ScoreTrackBuilder → ScoreTrackBuilder
unfolding advance_queue
next_open_note k b =
    let queue_index = b.overflow_queues_by_key k in
    if queue_index == no_overflow_queue
    then close_slot k b
    else (let head = (queue_at b queue_index).head in
        if head == no_open_note
        then record (close_slot k b) {
          overflow_queues_by_key = update b.overflow_queues_by_key k no_overflow_queue;
          free_overflow_queues = queue_index ∷ b.free_overflow_queues;
        }
        else advance_queue k queue_index head b)

-- `u64` subtraction; `time` is never below `start`.
abbrev pub sub_u64 : ℕ → ℕ → ℕ
sub_u64 a b = (a + 2 ^ 64 - b) % 2 ^ 64

-- `open_note_start(state).unwrap_or_else(…)`
abbrev pub or_start : Option ℕ → NoteTiming → ℕ → ℕ
or_start none timing note = start_time timing note
or_start (some start) timing note = start

unfoldable pub end_note : ℕ → ℕ → ℕ → ScoreTrackBuilder → ScoreTrackBuilder
unfolding next_open_note
end_note channel pitch time b =
    let k = key channel pitch in
    let group = b.open_groups k in
    let state = b.open_note_states k in
    let note = open_note_index state in
    let g = group_at b group in
    let start = or_start (open_note_start state) g.notes.timing note in
    if group == no_group
    then b
    else next_open_note k
        (with_group b group (record g { notes = complete g.notes note (sub_u64 time start) }))
