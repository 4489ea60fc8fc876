-- ===== src/Score/Columns/History.antt =====
-- The life of a builder: notes start and end in any order, then the segment is taken.
use mathlib.Core.Path.{subst}
use midi.Prelude.{
  ℕ, ◌≡◌, refl, ◌<◌, ◌≤◌, ◌∙◌, ap, sym, arith, List, [], ◌∷◌, ◌++◌, length, u64_max, u32_max, leb,
  Bool-cases, inl, inr,
}
use midi.Cursor.{Cursor, fits}
use midi.Result.{ok, >>=-eq-ok, ok-injective}
use midi.Score.Notes.{
  NoteColumnsBuilder, push, complete, no_notes, len, into_segment, segment_notes,
}
use midi.Score.Columns.{Slot, slots, open_slot, end_slot, ended_notes, IsBuilder}
use midi.Score.Columns.Open.{push-slots}
use midi.Score.Columns.Close.{complete-slots}
use midi.Score.Columns.Compact.{into_segment-slots}

-- The builder is reached from the empty one, and the list of slots goes along with it.
pub data Reached : NoteColumnsBuilder → List Slot → Type 0 where
  created : Reached no_notes []
  pushed :
      {b b' : NoteColumnsBuilder} {ss : List Slot} (time pitch velocity index : ℕ) (c : Cursor)
      → Reached b ss
      → time ≤ u64_max
      → push b time pitch velocity c ≡ ok (index, b')
      → Reached b' (ss ++ (open_slot time pitch velocity ∷ []))
  completed :
      {b : NoteColumnsBuilder} {ss : List Slot} (index duration : ℕ)
      → Reached b ss
      → index < length ss
      → duration ≤ u64_max
      → Reached (complete b index duration) (end_slot ss index duration)

push-eq-ok :
    (b : NoteColumnsBuilder) (time pitch velocity : ℕ) (c : Cursor) {index : ℕ}
    {b' : NoteColumnsBuilder}
    → push b time pitch velocity c ≡ ok (index, b')
    → len b ≤ u32_max
unfolding push
push-eq-ok b time pitch velocity c e =
    let (index, small, _) = >>=-eq-ok (fits u32_max c (len b)) _ e in
    elim (Bool-cases (leb (len b) u32_max)) [
      | inl le ↦ ground (arith, le)
      | inr large ↦ ground arith
    ]

no_notes-slots : slots no_notes ≡ []
unfolding slots
no_notes-slots = refl

Reached-slots :
    {b : NoteColumnsBuilder} {ss : List Slot} → Reached b ss → (slots b ≡ ss) × IsBuilder b
Reached-slots created = (no_notes-slots, record { all_rows = tt; all_indices = tt })
Reached-slots (pushed {b} {b'} {ss} time pitch velocity index c before t e) =
    let (same, built) = Reached-slots before in
    let (b1, e1, grown, built1) =
      push-slots b time pitch velocity c built t (push-eq-ok b time pitch velocity c e) in
    let result : b' ≡ b1 = ap (λ x. x.1) (ok-injective _ _ (sym e ∙ e1)) in
    subst (λ x. (slots x ≡ ss ++ (open_slot time pitch velocity ∷ [])) × IsBuilder x) (sym result)
      (
        grown ∙ ap (λ before_slots. before_slots ++ (open_slot time pitch velocity ∷ [])) same,
        built1,
      )
Reached-slots (completed {b} {ss} index duration before lt d) =
    let (same, built) = Reached-slots before in
    let (ended, built1) =
      complete-slots b index duration built (subst (λ xs. index < length xs) (sym same) lt) d in
    (ended ∙ ap (λ xs. end_slot xs index duration) same, built1)

-- However notes started and ended, the segment has those that ended, each with its start, its pitch,
-- its velocity and its duration, in the order in which they started.
pub Reached-into_segment :
    {b : NoteColumnsBuilder} {ss : List Slot}
    → Reached b ss
    → segment_notes (into_segment b) ≡ ended_notes ss
Reached-into_segment {b} h = into_segment-slots b ∙ ap ended_notes (Reached-slots h).0
