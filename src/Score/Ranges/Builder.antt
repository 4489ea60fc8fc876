-- ===== src/Score/Ranges/Builder.antt =====
-- What a track builder keeps: the texts of its lyrics, and programs of seven bits.
use midi.Score.Bits.{bit_room, bit_or-room, power-room}
use midi.Score.Builder.Open.{
  ensure_overflow_queue, link_overflow, queue_note, add_note, next_open_note, end_note,
  take_overflow_queue, advance_queue, queue_at, or_start, sub_u64,
}
use mathlib.Core.Option.{none}
use midi.Cursor.{Cursor, fits}
use midi.Result.Yields.{Yields, Yields-if, Yields-any, Yields-bind, value, refused}
use midi.Score.Builder.Events.{
  add_lyric, add_control, add_pitch_bend, handle_pedal, release_pedal, press_pedal,
}
use midi.Score.Builder.{
  ScoreTrackBuilder, ScoreGroupBuilder, at_group_or_straggler, ensure_group, create_group, group_at,
  with_group, update, key, new_group, no_group, no_overflow_queue, no_open_note, open_note_index,
  open_note_start, set_program,
}
use midi.Score.Types.{TickText, TextRange, control_change}
use midi.Score.Notes
use midi.Prelude.{
  inl, inr, refl, ℕ, Bool-cases, All, ◌≡◌, ℤ, All-get_or, All-set, if-both, ◌==◌, u16_max,
  All-append, length, Option, some, ◌++◌, ◌∷◌, ◌-◌, u32_max, [], List, All-map, ◌<◌, ◌^◌,
}

module _ (Q : TickText → Type 0) where
  -- Every lyric of every group and straggler has the property; every program has seven bits, and the
  -- set of a channel's programs is one of 128.
  abbrev pub IsKept : ScoreTrackBuilder → Type 0
  IsKept b =
      All (λ g. All Q g.lyrics) b.groups
      × ((channel : ℕ) → All Q (b.stragglers channel).lyrics)
      × ((channel : ℕ) → b.programs channel < 128)
      × ((channel : ℕ) → b.active_programs channel < bit_room 128)

  pub IsKept-group_at : (b : ScoreTrackBuilder) (i : ℕ) → IsKept b → All Q (group_at b i).lyrics
  IsKept-group_at b i h = All-get_or (λ g. All Q g.lyrics) b.groups i (new_group 0 0) h.0 tt

  pub IsKept-with_group :
      (b : ScoreTrackBuilder) (i : ℕ) (g : ScoreGroupBuilder)
      → IsKept b
      → All Q g.lyrics
      → IsKept (with_group b i g)
  IsKept-with_group b i g h k = (All-set (λ x. All Q x.lyrics) b.groups i g h.0 k, h.1, h.2, h.3)

  update-each :
      (f : ℕ → ScoreGroupBuilder) (i : ℕ) (g : ScoreGroupBuilder)
      → ((j : ℕ) → All Q (f j).lyrics)
      → All Q g.lyrics
      → (j : ℕ) → All Q (update f i g j).lyrics
  update-each f i g h k j = if-both (λ (x : ScoreGroupBuilder). All Q x.lyrics) (i == j) k (h j)

  IsKept-at_group_or_straggler :
      (channel : ℕ) (change : ScoreGroupBuilder → ScoreGroupBuilder) (b : ScoreTrackBuilder)
      → ((g : ScoreGroupBuilder) → (change g).lyrics ≡ g.lyrics)
      → IsKept b
      → IsKept (at_group_or_straggler channel change b)
  unfolding at_group_or_straggler
  IsKept-at_group_or_straggler channel change b keeps h =
      let group = b.groups_by_key (key channel (b.programs channel)) in
      if-both IsKept (group == no_group)
        (
          h.0,
          update-each b.stragglers channel _ h.1 (rw (keeps (b.stragglers channel)) (h.1 channel)),
          h.2,
          h.3,
        )
        (IsKept-with_group b group _ h (rw (keeps (group_at b group)) (IsKept-group_at b group h)))

  ensure_group-IsKept :
      (channel : ℕ) (b : ScoreTrackBuilder) (c : Cursor)
      → IsKept b
      → Yields (λ x. IsKept x.1) (ensure_group channel b c)
  unfolding ensure_group create_group
  ensure_group-IsKept channel b c h =
      Yields-if _
        (Yields-any (fits u16_max c (length b.groups)) λ index _. value _ (
          All-append (λ g. All Q g.lyrics) b.groups _ h.0 (h.1 channel, tt),
          update-each b.stragglers channel _ h.1 tt,
          h.2,
          λ j.
              if-both (λ n. n < bit_room 128) (channel == j)
                (bit_or-room 128 (b.active_programs channel) (2 ^ b.programs channel) (h.3 channel)
                  (power-room 128 (b.programs channel) (h.2 channel)))
                (h.3 j),
        ))
        (value _ h)

  pub set_program-IsKept :
      (channel program : ℕ) (b : ScoreTrackBuilder)
      → IsKept b
      → program < 128
      → IsKept (set_program channel program b)
  unfolding set_program
  set_program-IsKept channel program b h low =
      (h.0, h.1, λ j. if-both (λ n. n < 128) (channel == j) low (h.2 j), h.3)

  pub add_lyric-IsKept :
      (time : ℕ) (text : TextRange) (b : ScoreTrackBuilder) (c : Cursor)
      → IsKept b
      → Q (record { time = time; text = text })
      → Yields IsKept (add_lyric time text b c)
  unfolding add_lyric
  add_lyric-IsKept time text b c h q = Yields-bind (ensure_group-IsKept 0 b c h) λ (group, b1) k.
      let old = IsKept-group_at b1 group k in
      value _
        (IsKept-with_group b1 group _ k (All-append Q (group_at b1 group).lyrics _ old (q, tt)))

  pub add_control-IsKept :
      (channel time number amount : ℕ) (b : ScoreTrackBuilder)
      → IsKept b
      → IsKept (add_control channel time number amount b)
  unfolding add_control
  add_control-IsKept channel time number amount b h =
      IsKept-at_group_or_straggler channel
        (λ g. record g { controls = g.controls ++ (control_change time number amount ∷ []) }) b
        (λ g. refl) h

  pub add_pitch_bend-IsKept :
      (channel time : ℕ) (bend : ℤ) (b : ScoreTrackBuilder)
      → IsKept b
      → IsKept (add_pitch_bend channel time bend b)
  unfolding add_pitch_bend
  add_pitch_bend-IsKept channel time bend b h =
      IsKept-at_group_or_straggler channel
        (λ g. record g {
          pitch_bends = g.pitch_bends ++ (record { time = time; value = bend } ∷ []);
        })
        b (λ g. refl) h

  release_pedal-IsKept :
      (channel time : ℕ) (start : Option ℕ) (b : ScoreTrackBuilder)
      → IsKept b
      → Yields IsKept (release_pedal channel time start b)
  unfolding release_pedal
  release_pedal-IsKept channel time none b h = value b h
  release_pedal-IsKept channel time (some start) b h = Yields-if _ (refused _) (
      value _ (
        IsKept-at_group_or_straggler channel
          (λ g. record g {
            pedals = g.pedals ++ (record { time = start; duration = time - start } ∷ []);
          })
          (record b { pedal_starts = update b.pedal_starts channel none }) (λ g. refl) h))

  press_pedal-IsKept :
      (channel time : ℕ) (start : Option ℕ) (b : ScoreTrackBuilder)
      → IsKept b
      → IsKept (press_pedal channel time start b)
  unfolding press_pedal
  press_pedal-IsKept channel time none b h = h
  press_pedal-IsKept channel time (some start) b h = h

  pub handle_pedal-IsKept :
      (channel time amount : ℕ) (b : ScoreTrackBuilder)
      → IsKept b
      → Yields IsKept (handle_pedal channel time amount b)
  unfolding handle_pedal
  handle_pedal-IsKept channel time amount b h =
      Yields-if _ (value _ (press_pedal-IsKept channel time (b.pedal_starts channel) b h))
        (release_pedal-IsKept channel time (b.pedal_starts channel) b h)

  ensure_overflow_queue-IsKept :
      (k : ℕ) (b : ScoreTrackBuilder) (c : Cursor)
      → IsKept b
      → Yields (λ x. IsKept x.1) (ensure_overflow_queue k b c)
  unfolding ensure_overflow_queue take_overflow_queue
  ensure_overflow_queue-IsKept k b c h =
      Yields-if _ (Yields-bind (taken b.free_overflow_queues) λ x p. value _ p) (value _ h)
    where
      taken :
          (free : List ℕ)
          → Yields
              (λ x. IsKept x.1)
              (take_overflow_queue (record b { free_overflow_queues = free }) c)
      taken (i ∷ free) = value _ h
      taken [] = Yields-any (fits u16_max c (length b.overflow_queues)) λ i _. value _ h

  link_overflow-IsKept :
      (queue index : ℕ) (b : ScoreTrackBuilder) → IsKept b → IsKept (link_overflow queue index b)
  unfolding link_overflow
  link_overflow-IsKept queue index b h = if-both IsKept _ h h

  queue_note-IsKept :
      (k group note : ℕ) (b : ScoreTrackBuilder) (c : Cursor)
      → IsKept b
      → Yields IsKept (queue_note k group note b c)
  unfolding queue_note
  queue_note-IsKept k group note b c h =
      Yields-any (fits u32_max c (length b.overflow_notes)) λ index _.
        Yields-bind (ensure_overflow_queue-IsKept k _ c h)
          λ (queue, b2) p. value _ (link_overflow-IsKept queue index b2 p)

  pub add_note-IsKept :
      (channel pitch velocity time : ℕ) (b : ScoreTrackBuilder) (c : Cursor)
      → IsKept b
      → Yields IsKept (add_note channel pitch velocity time b c)
  unfolding add_note
  add_note-IsKept channel pitch velocity time b c h =
      Yields-bind (ensure_group-IsKept channel b c h) λ (group, b1) p.
        Yields-any (Notes.push (group_at b1 group).notes time pitch velocity c) λ (note, notes) _.
          let g = record (group_at b1 group) { notes = notes } in
          let b2 = with_group b1 group g in
          let k : IsKept b2 = IsKept-with_group b1 group g p (IsKept-group_at b1 group p) in
          Yields-if (b2.open_groups (key channel pitch) == no_group) (value _ k)
            (queue_note-IsKept (key channel pitch) group note b2 c k)

  next_open_note-IsKept : (k : ℕ) (b : ScoreTrackBuilder) → IsKept b → IsKept (next_open_note k b)
  unfolding next_open_note advance_queue
  next_open_note-IsKept k b h =
      let queue = b.overflow_queues_by_key k in
      elim (Bool-cases (queue == no_overflow_queue)) [
        | inl no_queue ↦ rw (next_open_note, no_queue) h
        | inr waiting ↦ elim (Bool-cases ((queue_at b queue).head == no_open_note)) [
          | inl last ↦ rw (next_open_note, waiting, last) h
          | inr more ↦ rw (next_open_note, waiting, more) h
        ]
      ]

  pub end_note-IsKept :
      (channel pitch time : ℕ) (b : ScoreTrackBuilder)
      → IsKept b
      → IsKept (end_note channel pitch time b)
  unfolding end_note
  end_note-IsKept channel pitch time b h =
      let k = key channel pitch in
      let group = b.open_groups k in
      let note = open_note_index (b.open_note_states k) in
      let g = group_at b group in
      let start = or_start (open_note_start (b.open_note_states k)) g.notes.timing note in
      let ended = record g { notes = Notes.complete g.notes note (sub_u64 time start) } in
      elim (Bool-cases (group == no_group)) [
        | inl closed ↦ rw (end_note, closed) h
        | inr sounding ↦
            rw (end_note, sounding)
              (next_open_note-IsKept k (with_group b group ended)
                (IsKept-with_group b group ended h (IsKept-group_at b group h)))
      ]

-- Lyrics with one property have another that follows from it.
pub IsKept-map :
    (Q R : TickText → Type 0) (b : ScoreTrackBuilder)
    → ((e : TickText) → Q e → R e)
    → IsKept Q b
    → IsKept R b
IsKept-map Q R b f h = (
  All-map b.groups (λ g. All-map g.lyrics f) h.0,
  λ channel. All-map (b.stragglers channel).lyrics f (h.1 channel),
  h.2,
  h.3,
)
