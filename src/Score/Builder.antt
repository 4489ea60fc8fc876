-- ===== src/Score/Builder.antt =====
-- ScoreTrackBuilder: the groups of one source track by channel and program, the stragglers of a
-- channel that has no group yet, and the packed state of an open note. The open notes, the events
-- and the end of the track are the children's. An
-- array of fixed size is a function of its index; the callers' indices (a channel below 16, a key
-- below 2048) are in range by their types. The capacity hint of the first group is not modelled.
pub mod Open
pub mod Events
pub mod Finish
use Prim.Native.Nat.{bit_or}
use midi.Prelude.{
  ℕ, ◌+◌, ◌-◌, ◌*◌, ◌/◌, ◌%◌, ◌^◌, ◌&&◌, Bool, true, false, Option, none, some, List, [], ◌∷◌, ◌++◌,
  u16_max, u32_max, get_or, set, length, leb, ◌==◌, if◌then◌else◌,
}
use midi.Result.{Result, ok, ◌>>=◌}
use midi.Cursor.{Cursor, fits}
use midi.Score.Types.{TickControlChange, TickPitchBend, TickPedal, TickText}
use midi.Score.Notes
use midi.Score.Notes.{NoteColumnsBuilder, no_notes}

pub record ScoreGroupBuilder : Type 0 where
  pub channel : ℕ
  pub program : ℕ
  pub notes : NoteColumnsBuilder
  pub controls : List TickControlChange
  pub pitch_bends : List TickPitchBend
  pub pedals : List TickPedal
  pub lyrics : List TickText

-- `ScoreGroupBuilder::new`
abbrev pub new_group : ℕ → ℕ → ScoreGroupBuilder
new_group channel program = record {
  channel = channel;
  program = program;
  notes = no_notes;
  controls = [];
  pitch_bends = [];
  pedals = [];
  lyrics = [];
}

abbrev is_nil {ℓ} : {A : Type ℓ} → List A → Bool
is_nil [] = true
is_nil (x ∷ xs) = false

-- `ScoreGroupBuilder::is_empty`
unfoldable pub is_empty : ScoreGroupBuilder → Bool
is_empty g =
    Notes.len g.notes == 0
    && is_nil g.controls
    && is_nil g.pitch_bends
    && is_nil g.pedals
    && is_nil g.lyrics

pub record OverflowNote : Type 0 where
  pub group : ℕ
  pub note : ℕ
  pub next : ℕ

pub record OverflowQueue : Type 0 where
  pub head : ℕ
  pub tail : ℕ

-- NO_GROUP, NO_OVERFLOW_QUEUE and NO_OPEN_NOTE
abbrev pub no_group : ℕ
no_group = u16_max

abbrev pub no_overflow_queue : ℕ
no_overflow_queue = u16_max

abbrev pub no_open_note : ℕ
no_open_note = u32_max

pub record ScoreTrackBuilder : Type 0 where
  pub programs : ℕ → ℕ
  pub groups_by_key : ℕ → ℕ
  pub groups : List ScoreGroupBuilder
  pub active_programs : ℕ → ℕ
  pub stragglers : ℕ → ScoreGroupBuilder
  pub open_groups : ℕ → ℕ
  pub open_note_states : ℕ → ℕ
  pub overflow_queues_by_key : ℕ → ℕ
  pub overflow_notes : List OverflowNote
  pub overflow_queues : List OverflowQueue
  pub free_overflow_queues : List ℕ
  pub pedal_starts : ℕ → Option ℕ

-- `array[i] = v`
abbrev pub update {ℓ} : {A : Type ℓ} → (ℕ → A) → ℕ → A → ℕ → A
update f i v j = if i == j then v else f j

-- `ScoreTrackBuilder::new`
abbrev pub new_builder : ScoreTrackBuilder
new_builder = record {
  programs = λ _. 0;
  groups_by_key = λ _. no_group;
  groups = [];
  active_programs = λ _. 0;
  stragglers = λ _. new_group 0 0;
  open_groups = λ _. no_group;
  open_note_states = λ _. 0;
  overflow_queues_by_key = λ _. no_overflow_queue;
  overflow_notes = [];
  overflow_queues = [];
  free_overflow_queues = [];
  pedal_starts = λ _. none;
}

-- `key` and `note_key`: channel and program, or channel and pitch.
abbrev pub key : ℕ → ℕ → ℕ
key channel program = channel * 128 + program

-- `pack_open_note_state`: the start tick above the note's index, or `u32::MAX` if it does not fit.
-- The low 32 bits of the shifted start are 0, so `|` adds.
unfoldable pub pack_open_note_state : ℕ → ℕ → ℕ
pack_open_note_state note time = (if leb time u32_max then time else u32_max) * 2 ^ 32 + note

unfoldable pub open_note_index : ℕ → ℕ
open_note_index state = state % 2 ^ 32

unfoldable pub open_note_start : ℕ → Option ℕ
open_note_start state = let start = state / 2 ^ 32 in if start == u32_max then none else some start

unfoldable pub set_program : ℕ → ℕ → ScoreTrackBuilder → ScoreTrackBuilder
set_program channel program b = record b { programs = update b.programs channel program }

-- `groups[i]` at an index that is in range
abbrev pub group_at : ScoreTrackBuilder → ℕ → ScoreGroupBuilder
group_at b i = get_or b.groups i (new_group 0 0)

abbrev pub with_group : ScoreTrackBuilder → ℕ → ScoreGroupBuilder → ScoreTrackBuilder
with_group b i g = record b { groups = set b.groups i g }

-- A change through `group_or_straggler_mut`.
unfoldable pub at_group_or_straggler :
    ℕ → (ScoreGroupBuilder → ScoreGroupBuilder) → ScoreTrackBuilder → ScoreTrackBuilder
at_group_or_straggler channel change b =
    let group = b.groups_by_key (key channel (b.programs channel)) in
    if group == no_group
    then record b { stragglers = update b.stragglers channel (change (b.stragglers channel)) }
    else with_group b group (change (group_at b group))

unfoldable pub create_group : ℕ → ℕ → ScoreTrackBuilder → Cursor → Result (ℕ × ScoreTrackBuilder)
create_group channel program b c = do
  index ← fits u16_max c (length b.groups)
  let straggler = b.stragglers channel
  let group = record (new_group channel program) {
    controls = straggler.controls;
    pitch_bends = straggler.pitch_bends;
    pedals = straggler.pedals;
    lyrics = straggler.lyrics;
  }
  ok (
    index,
    record b {
      stragglers = update b.stragglers channel (new_group 0 0);
      groups = b.groups ++ (group ∷ []);
      groups_by_key = update b.groups_by_key (key channel program) index;
      active_programs =
          update b.active_programs channel (bit_or (b.active_programs channel) (2 ^ program));
    },
  )

unfoldable pub ensure_group : ℕ → ScoreTrackBuilder → Cursor → Result (ℕ × ScoreTrackBuilder)
unfolding create_group
ensure_group channel b c =
    let program = b.programs channel in
    let current = b.groups_by_key (key channel program) in
    if current == no_group then create_group channel program b c else ok (current, b)
