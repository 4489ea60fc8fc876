-- ===== src/Score/Columns/Open.antt =====
-- A note starts: its slot is open, wide or narrow, and promotion keeps every slot.
use midi.Result.{ok}
use midi.Cursor.{Cursor}
use midi.Score.Columns.Rows.{
  row_time-note_row, row_duration-note_row, row_pitch-note_row, row_velocity-note_row,
}
use mathlib.Core.Path.{subst}
use midi.Score.Notes.{
  len, contains, promote_rows, note_row, promoted_duration, max_of, push_timing, row_time,
  NoteTiming, promote, row_pitch, wide, push_wide, row_velocity, row_duration, timing_len, push,
  NoteColumnsBuilder, len,
}
use midi.Prelude.{
  ℕ, suc, ◌≡◌, refl, ◌+◌, ◌<◌, ◌≤◌, ◌∙◌, ap, sym, arith, Bool, true, false, Bool-cases, not, Bytes,
  List, [], ◌∷◌, ◌++◌, length, All, All-append, ◌^◌, ◌==◌, ◌&&◌, All-map, u64_max, length-append,
  leb, u32_max, inl, inr, le→leb,
}
use midi.Score.Columns.{
  slots_from, slots, open_slot, IsRow, IsBuilder, row_slot, duration_of, row_time, NoteTiming,
  row_pitch, timing_slots, wide, row_velocity, width_of, row_duration, rows_of, narrow,
  NoteColumnsBuilder,
}

pub contains-fresh :
    (completed : List ℕ) (n : ℕ) → All (λ m. m < n) completed → contains completed n ≡ false
unfolding contains
contains-fresh [] n h = refl
contains-fresh (m ∷ completed) n h =
    let apart : (m == n) ≡ false = ground (arith, h.0) in rw apart (contains-fresh completed n h.1)

module _ (width : ℕ) (completed : List ℕ) where
  pub row_slot-note_row :
      (index time duration pitch velocity : ℕ)
      → time < 256 ^ width
      → duration < 256 ^ width
      → row_slot width completed index (note_row width time duration pitch velocity) ≡ record {
        start = time;
        pitch = pitch;
        velocity = velocity;
        ended = duration_of (duration == max_of width && not (contains completed index)) duration;
      }
  row_slot-note_row index time duration pitch velocity h k =
      rw
        (
          row_time-note_row width time duration pitch velocity h,
          row_duration-note_row width time duration pitch velocity k,
          row_pitch-note_row width time duration pitch velocity,
          row_velocity-note_row width time duration pitch velocity,
        )
        refl

  pub slots_from-append :
      (index : ℕ) (rows : List Bytes) (row : Bytes)
      → slots_from width completed index (rows ++ (row ∷ []))
        ≡ slots_from width completed index rows
          ++ (row_slot width completed (index + length rows) row ∷ [])
  slots_from-append index [] row = ap (λ i. row_slot width completed i row ∷ []) (omega arith)
  slots_from-append index (x ∷ rows) row =
      ap (λ ss. row_slot width completed index x ∷ ss)
        (slots_from-append (index + 1) rows row
          ∙ ap
              (λ i.
                slots_from width completed (index + 1) rows
                ++ (row_slot width completed i row ∷ []))
              (omega arith))

  pub IsRow-note_row :
      (time duration pitch velocity : ℕ)
      → time < 256 ^ width
      → duration < 256 ^ width
      → IsRow width (note_row width time duration pitch velocity)
  IsRow-note_row time duration pitch velocity h k = (
    subst (λ n. n < 256 ^ width) (sym (row_time-note_row width time duration pitch velocity h)) h,
    subst (λ n. n < 256 ^ width) (sym (row_duration-note_row width time duration pitch velocity k))
        k,
  )

-- The duration of a promoted row means what it meant in the narrow row.
promoted_duration_lem :
    (mark contained : Bool) (duration : ℕ)
    → duration < 256 ^ 4
    → duration_of
        (promoted_duration (mark && not contained) duration == max_of 8 && not contained)
        (promoted_duration (mark && not contained) duration)
      ≡ duration_of (mark && not contained) duration
promoted_duration_lem true false duration h = refl
promoted_duration_lem true true duration h =
    let apart : (duration == max_of 8) ≡ false = ground arith in rw apart refl
promoted_duration_lem false contained duration h =
    let apart : (duration == max_of 8) ≡ false = ground arith in rw apart refl

promoted_duration-lt :
    (dangling : Bool) (duration : ℕ)
    → duration < 256 ^ 4
    → promoted_duration dangling duration < 256 ^ 8
promoted_duration-lt true duration h = omega arith
promoted_duration-lt false duration h = omega arith

module _ (completed : List ℕ) where
  pub promote_rows-slots :
      (index : ℕ) (rows : List Bytes)
      → All (IsRow 4) rows
      → slots_from 8 completed index (promote_rows completed index rows)
        ≡ slots_from 4 completed index rows
  unfolding promote_rows
  promote_rows-slots index [] h = refl
  promote_rows-slots index (row ∷ rows) h =
      ap
        (λ slot.
          slot ∷ slots_from 8 completed (index + 1) (promote_rows completed (index + 1) rows))
        (row_slot-note_row 8 completed index _ _ _ _ (omega (arith, h.0.0))
            (promoted_duration-lt _ _ h.0.1)
          ∙ ap
              (λ e. record {
                start = row_time 4 row;
                pitch = row_pitch 4 row;
                velocity = row_velocity 4 row;
                ended = e;
              })
              (promoted_duration_lem _ (contains completed index) (row_duration 4 row) h.0.1))
      ∙ ap (λ rest. row_slot 4 completed index row ∷ rest) (promote_rows-slots (index + 1) rows h.1)

  pub promote_rows-IsRow :
      (index : ℕ) (rows : List Bytes)
      → All (IsRow 4) rows
      → All (IsRow 8) (promote_rows completed index rows)
  unfolding promote_rows
  promote_rows-IsRow index [] h = tt
  promote_rows-IsRow index (row ∷ rows) h = (
    IsRow-note_row 8 completed _ _ _ _ (omega (arith, h.0.0)) (promoted_duration-lt _ _ h.0.1),
    promote_rows-IsRow (index + 1) rows h.1,
  )

  pub length-promote_rows :
      (index : ℕ) (rows : List Bytes) → length (promote_rows completed index rows) ≡ length rows
  unfolding promote_rows
  length-promote_rows index [] = refl
  length-promote_rows index (row ∷ rows) = ap suc (length-promote_rows (index + 1) rows)

module _ (width : ℕ) (completed : List ℕ) (rows : List Bytes) where
  -- A row with the mark is an open slot.
  pushed-slots :
      (time pitch velocity : ℕ)
      → max_of width < 256 ^ width
      → time < 256 ^ width
      → All (λ n. n < length rows) completed
      → slots_from width completed 0
          (rows ++ (note_row width time (max_of width) pitch velocity ∷ []))
        ≡ slots_from width completed 0 rows ++ (open_slot time pitch velocity ∷ [])
  pushed-slots time pitch velocity m h k =
      let fresh : contains completed (0 + length rows) ≡ false =
        ap (contains completed) (omega arith) ∙ contains-fresh completed (length rows) k in
      let same : (max_of width == max_of width) ≡ true = ground arith in
      slots_from-append width completed 0 rows _
      ∙ ap (λ slot. slots_from width completed 0 rows ++ (slot ∷ []))
          (row_slot-note_row width completed _ time (max_of width) pitch velocity h m
            ∙ rw (same, fresh) refl)

  pushed-indices :
      (row : Bytes)
      → All (λ n. n < length rows) completed
      → All (λ n. n < length (rows ++ (row ∷ []))) completed
  pushed-indices row h =
      All-map completed (λ n lt. omega (arith, lt, length-append rows (row ∷ []))) h

-- The timing that `push` leaves has one more slot, which is open.
OnePushed : NoteTiming → List ℕ → ℕ → ℕ → ℕ → NoteTiming → Type 0
OnePushed timing completed time pitch velocity pushed =
    (timing_slots completed pushed
      ≡ timing_slots completed timing ++ (open_slot time pitch velocity ∷ []))
    × IsBuilder (record { timing = pushed; completed_max_duration_indices = completed })

push_wide-slots :
    (rows : List Bytes) (completed : List ℕ) (time pitch velocity : ℕ)
    → All (IsRow 8) rows
    → All (λ n. n < length rows) completed
    → time ≤ u64_max
    → OnePushed
        (wide rows)
        completed
        time
        pitch
        velocity
        (push_wide (wide rows) time pitch velocity)
unfolding OnePushed
push_wide-slots rows completed time pitch velocity h k t = (
  pushed-slots 8 completed rows time pitch velocity (omega arith) (omega arith) k,
  record {
    all_rows =
        All-append (IsRow 8) rows _ h
          (IsRow-note_row 8 completed time u64_max pitch velocity (omega arith) (omega arith), tt);
    all_indices = pushed-indices 8 completed rows _ k;
  },
)

push_timing-slots :
    (timing : NoteTiming) (completed : List ℕ) (time pitch velocity : ℕ)
    → All (IsRow (width_of timing)) (rows_of timing)
    → All (λ n. n < length (rows_of timing)) completed
    → time ≤ u64_max
    → OnePushed timing completed time pitch velocity
        (push_timing completed timing time pitch velocity)
unfolding OnePushed push_timing promote
push_timing-slots (wide rows) completed time pitch velocity h k t =
    push_wide-slots rows completed time pitch velocity h k t
push_timing-slots (narrow rows) completed time pitch velocity h k t =
    elim (Bool-cases (leb time u32_max)) [
      | inl small ↦
          let fits_in : time < 256 ^ 4 = ground arith in
          rw small (
            pushed-slots 4 completed rows time pitch velocity (omega arith) fits_in k,
            record {
              all_rows = All-append (IsRow 4) rows _ h (
                IsRow-note_row 4 completed time u32_max pitch velocity fits_in (omega arith),
                tt,
              );
              all_indices = pushed-indices 4 completed rows _ k;
            },
          )
      | inr large ↦
          let (grown, built) =
            push_wide-slots (promote_rows completed 0 rows) completed time pitch velocity
              (promote_rows-IsRow completed 0 rows h)
              (subst (λ n. All (λ m. m < n) completed) (sym (length-promote_rows completed 0 rows))
                k)
              t in
          rw large (
            grown
                ∙ ap (λ ss. ss ++ (open_slot time pitch velocity ∷ []))
                    (promote_rows-slots completed 0 rows h),
            built,
          )
    ]

length-slots_from :
    (width : ℕ) (completed : List ℕ) (index : ℕ) (rows : List Bytes)
    → length (slots_from width completed index rows) ≡ length rows
length-slots_from width completed index [] = refl
length-slots_from width completed index (row ∷ rows) =
    ap suc (length-slots_from width completed (index + 1) rows)

timing_len-slots :
    (timing : NoteTiming) (completed : List ℕ)
    → timing_len timing ≡ length (timing_slots completed timing)
unfolding timing_len
timing_len-slots (narrow rows) completed = sym (length-slots_from 4 completed 0 rows)
timing_len-slots (wide rows) completed = sym (length-slots_from 8 completed 0 rows)

pub len-slots : (b : NoteColumnsBuilder) → len b ≡ length (slots b)
unfolding slots
len-slots b = timing_len-slots b.timing b.completed_max_duration_indices

-- While its index fits 32 bits, a note of any 64-bit start gets the next index and one more slot,
-- which is open; the slots before it keep their notes, and the builder stays well formed.
pub push-slots :
    (b : NoteColumnsBuilder) (time pitch velocity : ℕ) (c : Cursor)
    → IsBuilder b
    → time ≤ u64_max
    → len b ≤ u32_max
    → (b' : NoteColumnsBuilder) × (push b time pitch velocity c ≡ ok (length (slots b), b'))
      × (slots b' ≡ slots b ++ (open_slot time pitch velocity ∷ []))
      × IsBuilder b'
unfolding push slots OnePushed
push-slots b time pitch velocity c h t k =
    let completed = b.completed_max_duration_indices in
    let pushed =
      push_timing-slots b.timing completed time pitch velocity h.all_rows h.all_indices t in
    (
      record b { timing = push_timing completed b.timing time pitch velocity },
      rw (le→leb _ _ k, len-slots b) refl,
      pushed.0,
      pushed.1,
    )
