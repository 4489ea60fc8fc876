-- ===== src/Score/Columns/Compact.antt =====
-- Compaction drops the open notes and keeps the others in their order.
use mathlib.Core.Path.{subst}
use midi.Score.Notes.{
  compact_loop, is_dangling, compact_notes, has_dangling, row_note, into_segment, segment_notes,
  segment_rows, into_timing, NoteColumnsBuilder, NoteTiming,
}
use midi.Prelude.{
  ℕ, zero, suc, ◌≡◌, refl, ◌+◌, ◌∙◌, ap, sym, arith, Bool, true, false, Bool-cases, not, ◌||◌,
  Bytes, List, [], ◌∷◌, ◌++◌, length, get_or, set, take, if◌then◌else◌, ◌&&◌, ◌==◌, inl, inr,
  append_assoc, take-append, length-append, append-nil, map,
}
use midi.Score.Columns.{
  slots_from, ended_notes, slots, is_dangling, NoteColumnsBuilder, NoteTiming, timing_slots, narrow,
  wide,
}

-- The rows that compaction keeps, from `index` on.
abbrev keep : ℕ → List ℕ → ℕ → List Bytes → List Bytes
keep width completed index [] = []
keep width completed index (row ∷ rows) =
    if is_dangling width completed index row
    then keep width completed (index + 1) rows
    else row ∷ keep width completed (index + 1) rows

module _ {ℓ} {A : Type ℓ} where
  set-append : (xs ys : List A) (x y : A) → set (xs ++ (x ∷ ys)) (length xs) y ≡ xs ++ (y ∷ ys)
  set-append [] ys x y = refl
  set-append (z ∷ xs) ys x y = ap (◌∷◌ z) (set-append xs ys x y)

  get_or-append_length : (xs ys : List A) (y d : A) → get_or (xs ++ (y ∷ ys)) (length xs) d ≡ y
  get_or-append_length [] ys y d = refl
  get_or-append_length (x ∷ xs) ys y d = get_or-append_length xs ys y d

kept-is_dangling : (mark contained : Bool) → (not mark || contained) ≡ not (mark && not contained)
kept-is_dangling true true = refl
kept-is_dangling true false = refl
kept-is_dangling false contained = refl

-- The value of a finished loop, truncated.
abbrev truncated : ℕ × List Bytes → List Bytes
truncated (write, rows) = take write rows

module _ (width : ℕ) (completed : List ℕ) where
  compact_loop-step :
      (rounds read write : ℕ) (rows : List Bytes) (kept : Bool)
      → not (is_dangling width completed read (get_or rows read [])) ≡ kept
      → compact_loop width completed (suc rounds) read write rows
        ≡ compact_loop width completed rounds (read + 1) (if kept then write + 1 else write) (
            if kept
            then (if write == read then rows else set rows write (get_or rows read []))
            else rows)
  unfolding compact_loop
  compact_loop-step rounds read write rows kept h =
      ap
        (λ (k : Bool).
          compact_loop width completed rounds (read + 1) (if k then write + 1 else write) (
            if k
            then (if write == read then rows else set rows write (get_or rows read []))
            else rows))
        (kept-is_dangling _ _ ∙ h)

  compact_loop-zero :
      (read write : ℕ) (rows : List Bytes)
      → compact_loop width completed zero read write rows ≡ (write, rows)
  unfolding compact_loop
  compact_loop-zero read write rows = refl

  -- A kept row moves down to `write`; as many rows as before are junk.
  kept_moves :
      (done junk rest : List Bytes) (row : Bytes) (rows : List Bytes) (read write : ℕ)
      → rows ≡ done ++ (junk ++ (row ∷ rest))
      → read ≡ length done + length junk
      → write ≡ length done
      → (junk' : List Bytes) × ((if write == read then rows else set rows write row)
          ≡ (done ++ (row ∷ [])) ++ (junk' ++ rest))
        × (length junk' ≡ length junk)
  kept_moves done [] rest row rows read write e r w =
      let same : (write == read) ≡ true = ground arith in
      ([], rw same (e ∙ sym (append_assoc done (row ∷ []) rest)), refl)
  kept_moves done (j ∷ js) rest row rows read write e r w =
      let apart : (write == read) ≡ false = ground arith in
      (
        js ++ (row ∷ []),
        rw (apart, e, w)
            (set-append done (js ++ (row ∷ rest)) j row
              ∙ (ap (λ zs. done ++ (row ∷ zs)) (sym (append_assoc js (row ∷ []) rest))
                  ∙ sym (append_assoc done (row ∷ []) ((js ++ (row ∷ [])) ++ rest)))),
        length-append js (row ∷ []) ∙ omega arith,
      )

  -- `done` has been kept, and all of `done` and `junk` has been read.
  compact_loop-keep :
      (rest done junk rows : List Bytes) (read write : ℕ)
      → rows ≡ done ++ (junk ++ rest)
      → read ≡ length done + length junk
      → write ≡ length done
      → truncated (compact_loop width completed (length rest) read write rows)
        ≡ done ++ keep width completed read rest
  compact_loop-keep [] done junk rows read write e r w =
      ap truncated (compact_loop-zero read write rows)
      ∙ rw (e, w) (take-append done (junk ++ []) ∙ sym (append-nil done))
  compact_loop-keep (row ∷ rest) done junk rows read write e r w =
      let found : get_or rows read [] ≡ row =
        rw (e, r, sym (append_assoc done junk (row ∷ rest)), sym (length-append done junk))
          (get_or-append_length (done ++ junk) rest row []) in
      elim (Bool-cases (is_dangling width completed read row)) [
        | inl unended ↦
            ap truncated
              (compact_loop-step (length rest) read write rows false (rw (found, unended) refl))
            ∙ (compact_loop-keep rest done (junk ++ (row ∷ [])) rows (read + 1) write
                  (e ∙ ap (λ zs. done ++ zs) (sym (append_assoc junk (row ∷ []) rest)))
                  (omega (arith, length-append junk (row ∷ []))) w
                ∙ rw unended refl)
        | inr ended ↦
            let (junk', moved, size) = kept_moves done junk rest row rows read write e r w in
            ap truncated
              (compact_loop-step (length rest) read write rows true (rw (found, ended) refl))
            ∙ (compact_loop-keep rest (done ++ (row ∷ [])) junk' _ (read + 1) (write + 1)
                  (rw found moved) (omega (arith, size, length-append done (row ∷ [])))
                  (omega (arith, length-append done (row ∷ [])))
                ∙ (append_assoc done (row ∷ []) (keep width completed (read + 1) rest)
                    ∙ rw ended refl))
      ]

  compact_notes-keep :
      (rows : List Bytes) → compact_notes width completed rows ≡ keep width completed 0 rows
  unfolding compact_notes
  compact_notes-keep rows = compact_loop-keep rows [] [] rows 0 0 refl refl refl

  has_dangling-keep :
      (index : ℕ) (rows : List Bytes)
      → has_dangling width completed index rows ≡ false
      → keep width completed index rows ≡ rows
  unfolding has_dangling
  has_dangling-keep index [] h = refl
  has_dangling-keep index (row ∷ rows) h =
      elim (Bool-cases (is_dangling width completed index row)) [
        | inl unended ↦
            let bad : true ≡ false =
              subst (λ b. (b || has_dangling width completed (index + 1) rows) ≡ false) unended h in
            cc
        | inr ended ↦ rw ended (
            ap (λ zs. row ∷ zs)
              (has_dangling-keep (index + 1) rows (
                subst (λ b. (b || has_dangling width completed (index + 1) rows) ≡ false) ended h)))
      ]

  segment_rows-keep :
      (rows : List Bytes) → segment_rows width completed rows ≡ keep width completed 0 rows
  unfolding segment_rows
  segment_rows-keep rows = elim (Bool-cases (has_dangling width completed 0 rows)) [
    | inl some_open ↦ rw some_open (compact_notes-keep rows)
    | inr none_open ↦ rw none_open (sym (has_dangling-keep 0 rows none_open))
  ]

  keep-slots_from :
      (index : ℕ) (rows : List Bytes)
      → map (row_note width) (keep width completed index rows)
        ≡ ended_notes (slots_from width completed index rows)
  unfolding row_note
  keep-slots_from index [] = refl
  keep-slots_from index (row ∷ rows) = elim (Bool-cases (is_dangling width completed index row)) [
    | inl unended ↦ rw unended (keep-slots_from (index + 1) rows)
    | inr ended ↦ rw ended (ap (λ ns. row_note width row ∷ ns) (keep-slots_from (index + 1) rows))
  ]

into_timing-slots :
    (timing : NoteTiming) (completed : List ℕ)
    → segment_notes (into_timing timing completed) ≡ ended_notes (timing_slots completed timing)
unfolding into_timing segment_notes
into_timing-slots (narrow rows) completed =
    ap (map (row_note 4)) (segment_rows-keep 4 completed rows) ∙ keep-slots_from 4 completed 0 rows
into_timing-slots (wide rows) completed =
    ap (map (row_note 8)) (segment_rows-keep 8 completed rows) ∙ keep-slots_from 8 completed 0 rows

-- A finished segment has the notes of the slots that have ended, each with its duration, in the order
-- in which they were pushed, and nothing of the others.
pub into_segment-slots :
    (b : NoteColumnsBuilder) → segment_notes (into_segment b) ≡ ended_notes (slots b)
unfolding into_segment slots
into_segment-slots b = into_timing-slots b.timing b.completed_max_duration_indices
