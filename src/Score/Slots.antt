-- ===== src/Score/Slots.antt =====
-- The packed state of an open note: index and start are read back.
use midi.Prelude.{
  ℕ, ◌≡◌, refl, ◌<◌, ◌≤◌, arith, Bool-cases, inl, inr, u32_max, ◌∙◌, leb, ◌/◌, some, none, ltb, ◌^◌,
  if◌then◌else◌, le→leb, ◌==◌, false,
}
use midi.Score.Builder.{pack_open_note_state, open_note_index, open_note_start}
use midi.Score.Builder.Open.{or_start}
use midi.Score.Notes.{NoteTiming, start_time}

-- The tick in the upper half of the state.
upper_half :
    (note time : ℕ)
    → note ≤ u32_max
    → pack_open_note_state note time / 2 ^ 32 ≡ (if leb time u32_max then time else u32_max)
unfolding pack_open_note_state
upper_half note time h = elim (Bool-cases (leb time u32_max)) [
  | inl small ↦ rw small (omega arith)
  | inr large ↦ rw large (omega arith)
]

open_note_index-pack_open_note_state :
    (note time : ℕ) → note ≤ u32_max → open_note_index (pack_open_note_state note time) ≡ note
unfolding pack_open_note_state open_note_index
open_note_index-pack_open_note_state note time h = omega arith

open_note_start-small :
    (note time : ℕ)
    → note ≤ u32_max
    → time < u32_max
    → open_note_start (pack_open_note_state note time) ≡ some time
unfolding open_note_start
open_note_start-small note time h k =
    let upper : pack_open_note_state note time / 2 ^ 32 ≡ time =
      upper_half note time h ∙ rw (le→leb time u32_max (omega arith)) refl in
    let other : (time == u32_max) ≡ false = ground arith in rw (upper, other) refl

open_note_start-large :
    (note time : ℕ)
    → note ≤ u32_max
    → u32_max ≤ time
    → open_note_start (pack_open_note_state note time) ≡ none
unfolding open_note_start
open_note_start-large note time h k =
    let upper : pack_open_note_state note time / 2 ^ 32 ≡ u32_max =
      upper_half note time h ∙ ground arith in
    rw upper refl

-- The packed state of a note gives its index back; its start comes from the state, or from the row if
-- 32 bits do not hold it, and is the tick at which the note started in either case.
pub pack_open_note_state-or_start :
    (timing : NoteTiming) (note time : ℕ)
    → note ≤ u32_max
    → start_time timing note ≡ time
    → (open_note_index (pack_open_note_state note time) ≡ note)
      × (or_start (open_note_start (pack_open_note_state note time)) timing note ≡ time)
pack_open_note_state-or_start timing note time h s = (
  open_note_index-pack_open_note_state note time h,
  elim (Bool-cases (ltb time u32_max)) [
    | inl small ↦ rw (open_note_start-small note time h (ground arith)) refl
    | inr large ↦ rw (open_note_start-large note time h (ground arith)) s
  ],
)
