-- ===== src/Score/Columns/Close.antt =====
-- A note ends: its slot gets the duration, all ones as well, and the others keep theirs.
use mathlib.Core.Path.{subst}
use midi.Score.Columns.Open.{
  row_slot-note_row, IsRow-note_row, length-promote_rows, promote_rows-slots, promote_rows-IsRow,
  len-slots,
}
use midi.Score.Notes.{
  contains, max_of, set_duration, with_duration, complete_wide, NoteColumnsBuilder, promote_rows,
  complete_timing, complete_narrow_exception, narrow, timing_len, complete, NoteTiming,
}
use midi.Prelude.{
  ℕ, zero, suc, ◌≡◌, refl, ◌+◌, ◌<◌, ◌≤◌, ◌∙◌, ap, sym, arith, Bool, true, false, Bool-cases, not,
  ◌||◌, Bytes, List, [], ◌∷◌, ◌++◌, length, All, All-append, ◌==◌, ◌^◌, inl, inr, ◌&&◌, some,
  if◌then◌else◌, length-set, u64_max, u32_max, ==→eq, leb,
}
use midi.Score.Columns.{
  Slot, slots_from, slots, end_slot, IsRow, IsBuilder, row_slot, NoteColumnsBuilder, narrow,
  NoteTiming, width_of, rows_of, timing_slots, wide,
}

contains-append :
    (completed : List ℕ) (i j : ℕ)
    → contains (completed ++ (i ∷ [])) j ≡ (contains completed j || i == j)
unfolding contains
contains-append [] i j = elim (Bool-cases (i == j)) [ inl e ↦ rw e refl | inr e ↦ rw e refl ]
contains-append (m ∷ completed) i j = elim (Bool-cases (m == j)) [
  | inl e ↦ rw e refl
  | inr e ↦ rw e (contains-append completed i j)
]

Bool-or_false : (b : Bool) → (b || false) ≡ b
Bool-or_false true = refl
Bool-or_false false = refl

Bool-or_true : (b : Bool) → (b || true) ≡ true
Bool-or_true true = refl
Bool-or_true false = refl

-- `after` has the exceptions of `before`, but for the index that ends.
SameBut : List ℕ → List ℕ → ℕ → Type 0
SameBut before after ended = (j : ℕ) → (j == ended) ≡ false → contains after j ≡ contains before j

module _ (width : ℕ) (before after : List ℕ) where
  slots_from-SameBut :
      (index ended : ℕ) (rows : List Bytes)
      → SameBut before after ended
      → ended < index
      → slots_from width after index rows ≡ slots_from width before index rows
  unfolding SameBut
  slots_from-SameBut index ended [] h lt = refl
  slots_from-SameBut index ended (row ∷ rows) h lt =
      let apart : (index == ended) ≡ false = ground arith in
      rw (h index apart) (
        ap (λ ss. row_slot width before index row ∷ ss)
          (slots_from-SameBut (index + 1) ended rows h (omega arith)))

  with_duration-slot :
      (index : ℕ) (row : Bytes) (duration : ℕ)
      → IsRow width row
      → duration < 256 ^ width
      → (duration == max_of width && not (contains after index)) ≡ false
      → row_slot width after index (with_duration width row duration)
        ≡ record (row_slot width before index row) { ended = some duration }
  unfolding with_duration
  with_duration-slot index row duration h k ends =
      row_slot-note_row width after index _ duration _ _ h.0 k ∙ rw ends refl

  -- The row at `index` gets a duration that its exceptions do not take for the mark.
  set_duration-slots :
      (ended offset index : ℕ) (rows : List Bytes) (duration : ℕ)
      → ended ≡ offset + index
      → All (IsRow width) rows
      → index < length rows
      → duration < 256 ^ width
      → SameBut before after ended
      → (duration == max_of width && not (contains after ended)) ≡ false
      → slots_from width after offset (set_duration width rows index duration)
        ≡ end_slot (slots_from width before offset rows) index duration
  unfolding SameBut
  set_duration-slots ended offset index [] duration e h lt k same ends = absurd (omega arith)
  set_duration-slots ended offset zero (row ∷ rows) duration e h lt k same ends =
      let here : ended ≡ offset = omega arith in
      ap (λ slot. slot ∷ slots_from width after (offset + 1) rows)
        (with_duration-slot offset row duration h.0 k
          (ap (λ i. duration == max_of width && not (contains after i)) (sym here) ∙ ends))
      ∙ ap (λ rest. record (row_slot width before offset row) { ended = some duration } ∷ rest)
          (slots_from-SameBut (offset + 1) ended rows same (omega arith))
  set_duration-slots ended offset (suc index) (row ∷ rows) duration e h lt k same ends =
      let apart : (offset == ended) ≡ false = ground arith in
      rw (same offset apart) (
        ap (λ rest. row_slot width before offset row ∷ rest)
          (set_duration-slots ended (offset + 1) index rows duration (omega arith) h.1 (omega arith)
            k same ends))

  set_duration-IsRow :
      (index : ℕ) (rows : List Bytes) (duration : ℕ)
      → All (IsRow width) rows
      → index < length rows
      → duration < 256 ^ width
      → All (IsRow width) (set_duration width rows index duration)
  unfolding with_duration
  set_duration-IsRow index [] duration h lt k = absurd (omega arith)
  set_duration-IsRow zero (row ∷ rows) duration h lt k =
      (IsRow-note_row width after _ duration _ _ h.0.0 k, h.1)
  set_duration-IsRow (suc index) (row ∷ rows) duration h lt k =
      (h.0, set_duration-IsRow index rows duration h.1 (omega arith) k)

SameBut-refl : (completed : List ℕ) (ended : ℕ) → SameBut completed completed ended
unfolding SameBut
SameBut-refl completed ended j h = refl

SameBut-append :
    (completed : List ℕ) (ended : ℕ) → SameBut completed (completed ++ (ended ∷ [])) ended
unfolding SameBut
SameBut-append completed ended j h =
    let apart : (ended == j) ≡ false = ground (arith, h) in
    contains-append completed ended j ∙ rw apart (Bool-or_false (contains completed j))

excepted : (mark contained : Bool) → contained ≡ true → (mark && not contained) ≡ false
excepted true contained h = rw h refl
excepted false contained h = refl

-- The exceptions behind a note that ends with the mark itself, or with another duration.
exceptions : ℕ → List ℕ → ℕ → ℕ → List ℕ
exceptions width completed index duration =
    if duration == max_of width then completed ++ (index ∷ []) else completed

module _ (width : ℕ) (completed : List ℕ) (rows : List Bytes) (index duration : ℕ) where
  exceptions-slots :
      All (IsRow width) rows
      → index < length rows
      → duration < 256 ^ width
      → slots_from width
          (exceptions width completed index duration)
          0
          (set_duration width rows index duration)
        ≡ end_slot (slots_from width completed 0 rows) index duration
  unfolding exceptions
  exceptions-slots h lt k = elim (Bool-cases (duration == max_of width)) [
    | inl marked ↦
        let itself : (index == index) ≡ true = ground arith in
        let listed : contains (completed ++ (index ∷ [])) index ≡ true =
          contains-append completed index index
          ∙ rw itself (Bool-or_true (contains completed index)) in
        rw marked (
          set_duration-slots width completed (completed ++ (index ∷ [])) index 0 index rows duration
            (omega arith) h lt k (SameBut-append completed index) (excepted _ _ listed))
    | inr other ↦ rw other (
        set_duration-slots width completed completed index 0 index rows duration (omega arith) h lt
          k (SameBut-refl completed index) (rw other refl))
  ]

  exceptions-indices :
      index < length rows
      → All (λ n. n < length rows) completed
      → All
          (λ n. n < length (set_duration width rows index duration))
          (exceptions width completed index duration)
  unfolding exceptions
  exceptions-indices lt h =
      subst (λ n. All (λ m. m < n) (exceptions width completed index duration))
        (sym (length-set rows index _))
        (elim (Bool-cases (duration == max_of width)) [
          | inl marked ↦ rw marked (All-append (λ m. m < length rows) completed _ h (lt, tt))
          | inr other ↦ rw other h
        ])

-- The builder that `complete` leaves has one more slot ended.
OneEnded : List Slot → ℕ → ℕ → NoteColumnsBuilder → Type 0
OneEnded before index duration b = (slots b ≡ end_slot before index duration) × IsBuilder b

complete_wide-slots :
    (rows : List Bytes) (completed : List ℕ) (index duration : ℕ)
    → All (IsRow 8) rows
    → All (λ n. n < length rows) completed
    → index < length rows
    → duration ≤ u64_max
    → OneEnded
        (slots_from 8 completed 0 rows)
        index
        duration
        (complete_wide rows completed index duration)
unfolding OneEnded complete_wide slots exceptions
complete_wide-slots rows completed index duration h k lt d = (
  exceptions-slots 8 completed rows index duration h lt (omega arith),
  record {
    all_rows = set_duration-IsRow 8 completed completed index rows duration h lt (omega arith);
    all_indices = exceptions-indices 8 completed rows index duration lt k;
  },
)

module _ (rows : List Bytes) (completed : List ℕ) (index duration : ℕ) where
  -- The narrow rows keep their width.
  complete_narrow-slots :
      All (IsRow 4) rows
      → All (λ n. n < length rows) completed
      → index < length rows
      → duration ≤ u32_max
      → OneEnded (slots_from 4 completed 0 rows) index duration (record {
        timing = narrow (set_duration 4 rows index duration);
        completed_max_duration_indices = exceptions 4 completed index duration;
      })
  unfolding OneEnded slots
  complete_narrow-slots h k lt d = (
    exceptions-slots 4 completed rows index duration h lt (omega arith),
    record {
      all_rows = set_duration-IsRow 4 completed completed index rows duration h lt (omega arith);
      all_indices = exceptions-indices 4 completed rows index duration lt k;
    },
  )

  complete_promoted-slots :
      All (IsRow 4) rows
      → All (λ n. n < length rows) completed
      → index < length rows
      → duration ≤ u64_max
      → OneEnded
          (slots_from 4 completed 0 rows)
          index
          duration
          (complete_wide (promote_rows completed 0 rows) completed index duration)
  complete_promoted-slots h k lt d =
      let size : length rows ≡ length (promote_rows completed 0 rows) =
        sym (length-promote_rows completed 0 rows) in
      subst
        (λ before.
          OneEnded before index duration
            (complete_wide (promote_rows completed 0 rows) completed index duration))
        (promote_rows-slots completed 0 rows h)
        (complete_wide-slots (promote_rows completed 0 rows) completed index duration
          (promote_rows-IsRow completed 0 rows h) (subst (λ n. All (λ m. m < n) completed) size k)
          (omega (arith, size)) d)

complete_timing-narrow :
    (rows : List Bytes) (completed : List ℕ) (index duration : ℕ)
    → All (IsRow 4) rows
    → All (λ n. n < length rows) completed
    → index < length rows
    → duration ≤ u64_max
    → OneEnded
        (slots_from 4 completed 0 rows)
        index
        duration
        (complete_timing (narrow rows) completed index duration)
unfolding complete_timing complete_narrow_exception exceptions
complete_timing-narrow rows completed index duration h k lt d =
    elim (Bool-cases (duration == u32_max)) [
      | inl marked ↦
          subst
            (λ n.
              OneEnded (slots_from 4 completed 0 rows) index n
                (complete_timing (narrow rows) completed index n))
            (sym (==→eq duration u32_max marked))
            (complete_narrow-slots rows completed index u32_max h k lt (omega arith))
      | inr other ↦ elim (Bool-cases (leb duration u32_max)) [
        | inl small ↦
            let kept : exceptions 4 completed index duration ≡ completed = rw other refl in
            rw (small, other)
              (subst
                (λ after. OneEnded (slots_from 4 completed 0 rows) index duration (record {
                  timing = narrow (set_duration 4 rows index duration);
                  completed_max_duration_indices = after;
                }))
                kept (complete_narrow-slots rows completed index duration h k lt (ground arith)))
        | inr large ↦
            rw (large, other, complete_narrow_exception)
              (complete_promoted-slots rows completed index duration h k lt d)
      ]
    ]

complete_timing-slots :
    (timing : NoteTiming) (completed : List ℕ) (index duration : ℕ)
    → All (IsRow (width_of timing)) (rows_of timing)
    → All (λ n. n < length (rows_of timing)) completed
    → index < timing_len timing
    → duration ≤ u64_max
    → OneEnded
        (timing_slots completed timing)
        index
        duration
        (complete_timing timing completed index duration)
unfolding timing_len complete_timing
complete_timing-slots (narrow rows) completed = complete_timing-narrow rows completed
complete_timing-slots (wide rows) completed = complete_wide-slots rows completed

-- A note of the builder that ends with any 64-bit duration has that duration, also one that equals the
-- mark of an open note; every other slot is as before, and the builder stays well formed.
pub complete-slots :
    (b : NoteColumnsBuilder) (index duration : ℕ)
    → IsBuilder b
    → index < length (slots b)
    → duration ≤ u64_max
    → (slots (complete b index duration) ≡ end_slot (slots b) index duration)
      × IsBuilder (complete b index duration)
unfolding complete OneEnded slots
complete-slots b index duration h lt d =
    complete_timing-slots b.timing b.completed_max_duration_indices index duration h.all_rows
      h.all_indices (subst (λ n. index < n) (sym (len-slots b)) lt) d
