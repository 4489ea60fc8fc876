-- ===== src/Python/Score/Records.antt =====
-- The records of a parsed score are all built.
use midi.Score.Limits.{limited_policy}
use midi.Score.Ranges.Track.{parse_score_smf_impl-IsScore}
use midi.Score.Parse.{parse_score_smf_with_options, grammar_of}
use midi.Python.Score.{
  parse_score_owned, parse_score_smf_with_options, PyScoreParseLimits, PyScore, parse_score_mode,
}
use midi.Python.Score.Rows.{
  note_of, text_of-Gives, all_notes, every-Gives, Each-map, rows-Gives, all_notes-append, tempo_of,
  time_signature_record-Gives, build-Gives, control_record-Gives, key_signature_record-Gives,
  note_record-Gives, bend_record-Gives, tempos-Gives, pedal_record-Gives, texts-Gives,
}
use mathlib.Core.Path.{subst}
use midi.Python.Gives.{
  Gives, gives, set_item-Gives, Gives-weaken, Gives-bind, or_raise-Gives, append-Gives,
  Gives-returned, bind-returned, map_result-returned,
}
use midi.Score.Notes.{NoteTiming, segment_notes}
use midi.Score.Ranges.Views.{track_views-IsScore, track_lyrics-InText}
use midi.Score.Ranges.{IsScore, InText, Segments}
use midi.Score.Arena.{TickScore, track_notes, track_lyrics, notes_of}
use midi.Python.Score.Dicts.{
  TrackRecord, note_record, control_record, bend_record, pedal_record, time_signature_record,
  key_signature_record, track_record, note_records, control_records, bend_records, pedal_records,
  lyric_records, track_records, ScoreRecord, score_records,
}
use midi.Python.{
  Interpreter, HasMemory, returned, invalid_note_range, invalid_control_range,
  invalid_pitch_bend_range, invalid_pedal_range, invalid_lyric_range,
}
use midi.Score.Types.{TickTrack}
use midi.Prelude.{
  ℕ, suc, List, ◌∷◌, ◌++◌, ◌≡◌, map, [], append-nil, ap, append_assoc, Bytes, length, get_elem?,
  some, Option, sym, All-every, ◌∙◌, All-get_elem?, map-append, ◌+◌, arith,
}
use midi.Score.Arena

module _ (py : Interpreter) (memory : HasMemory py) (from_utf8_lossy : Bytes → Bytes)
    (score : TickScore) (whole : IsScore score) where
  note_records-Gives :
      (track : ℕ) (segment : NoteTiming)
      → track_notes score track ≡ some segment
      → Gives
          (λ rs. rs ≡ map note_of (segment_notes segment))
          (note_records py from_utf8_lossy score track)
  unfolding note_records
  note_records-Gives track segment found =
      Gives-bind (or_raise-Gives (track_notes score track) invalid_note_range segment found) λ s e.
        Gives-weaken
          (λ zs (rs, same, all).
            same
            ∙ Each-map note_of (segment_notes s) rs all
            ∙ ap (λ u. map note_of (segment_notes u)) e)
          (build-Gives py memory (note_record py) (λ n r. r ≡ note_of n) (segment_notes s) []
            (All-every (λ n. Gives (λ r. r ≡ note_of n) (note_record py n))
              (note_record-Gives py memory) (segment_notes s)))

  -- A track's dict has its program and the notes of its segment.
  record Shown (t : TickTrack) (segment : NoteTiming) (r : TrackRecord) : Type 0 where
    program : r.program ≡ t.program
    notes : r.notes ≡ map note_of (segment_notes segment)

  track_record-Gives :
      (track : ℕ) (t : TickTrack) (segment : NoteTiming)
      → get_elem? score.tracks track ≡ some t
      → track_notes score track ≡ some segment
      → Gives (Shown t segment) (track_record py from_utf8_lossy score track t)
  unfolding track_record control_records bend_records pedal_records lyric_records
  track_record-Gives track t segment e found =
      let (_, controls, bends, pedals, _, _) = track_views-IsScore score track t whole e in
      let (lyrics, has_lyrics, inside) = track_lyrics-InText score track t whole e in
      let named =
        All-get_elem? (λ x. InText (length score.text_data) x.name) score.tracks track t whole.names
          e in
      Gives-bind (text_of-Gives py memory from_utf8_lossy score whole t.name named) λ name _.
        set_item-Gives py memory name λ _ _.
          set_item-Gives py memory t.program λ program same_program.
            set_item-Gives py memory t.is_drum λ _ _.
              Gives-bind (note_records-Gives track segment found) λ notes same_notes.
                set_item-Gives py memory notes λ stored same_stored.
                  Gives-bind
                    (rows-Gives py memory from_utf8_lossy score whole (control_record py) _
                      invalid_control_range (control_record-Gives py memory) controls)
                    λ rs1 _. set_item-Gives py memory rs1 λ _ _.
                      Gives-bind
                        (rows-Gives py memory from_utf8_lossy score whole (bend_record py) _
                          invalid_pitch_bend_range (bend_record-Gives py memory) bends)
                        λ rs2 _. set_item-Gives py memory rs2 λ _ _.
                          Gives-bind
                            (rows-Gives py memory from_utf8_lossy score whole (pedal_record py) _
                              invalid_pedal_range (pedal_record-Gives py memory) pedals)
                            λ rs3 _. set_item-Gives py memory rs3 λ _ _.
                              Gives-bind
                                (Gives-bind
                                  (or_raise-Gives (track_lyrics score track) invalid_lyric_range
                                    lyrics has_lyrics)
                                  λ rows same_rows.
                                    texts-Gives py memory from_utf8_lossy score whole rows
                                      (rw same_rows inside))
                                λ rs4 _. set_item-Gives py memory rs4 λ _ _. gives _ (record {
                                  program = same_program;
                                  notes = same_stored ∙ same_notes;
                                })

  track_notes-segment :
      (track : ℕ) (t : TickTrack) (segment : NoteTiming)
      → get_elem? score.tracks track ≡ some t
      → get_elem? score.note_segments track ≡ some segment
      → track_notes score track ≡ some segment
  unfolding track_notes
  track_notes-segment track t segment e found = rw (track_notes, e) found

  -- The dicts of the tracks, behind those of the tracks before.
  record Told (ts : List TickTrack) (segments : List NoteTiming) (before rs : List TrackRecord)
      : Type 0 where
    notes : all_notes rs ≡ all_notes before ++ map note_of (notes_of segments)
    programs : map (λ r. r.program) rs ≡ map (λ r. r.program) before ++ map (λ t. t.program) ts

  Told-next :
      (t : TickTrack) (ts : List TickTrack) (segment : NoteTiming) (segments : List NoteTiming)
      (before : List TrackRecord) (r : TrackRecord) (rs : List TrackRecord)
      → Shown t segment r
      → Told ts segments (before ++ (r ∷ [])) rs
      → Told (t ∷ ts) (segment ∷ segments) before rs
  unfolding notes_of
  Told-next t ts segment segments before r rs shown told = record {
    notes =
        told.notes
        ∙ ap (λ u. u ++ map note_of (notes_of segments))
            (all_notes-append before r ∙ ap (λ u. all_notes before ++ u) shown.notes)
        ∙ append_assoc (all_notes before) (map note_of (segment_notes segment))
            (map note_of (notes_of segments))
        ∙ ap (λ u. all_notes before ++ u)
            (sym (map-append note_of (segment_notes segment) (notes_of segments)));
    programs =
        told.programs
        ∙ ap (λ u. u ++ map (λ t. t.program) ts) (map-append (λ r. r.program) before (r ∷ []))
        ∙ append_assoc (map (λ r. r.program) before) (r.program ∷ []) (map (λ t. t.program) ts)
        ∙ ap (λ u. map (λ r. r.program) before ++ (u ∷ map (λ t. t.program) ts)) shown.program;
  }

  track_records-Gives :
      (track_index : ℕ) (ts : List TickTrack) (segments : List NoteTiming)
      (before : List TrackRecord)
      → ((k : ℕ) → get_elem? ts k ≡ get_elem? score.tracks (track_index + k))
      → ((k : ℕ) → get_elem? segments k ≡ get_elem? score.note_segments (track_index + k))
      → Segments ts segments
      → Gives
          (Told ts segments before)
          (track_records py from_utf8_lossy score track_index ts before)
  unfolding track_records notes_of
  track_records-Gives i [] [] before h k s = gives before (record {
    notes = sym (append-nil (all_notes before));
    programs = sym (append-nil (map (λ r. r.program) before));
  })
  track_records-Gives i [] (x ∷ segments) before h k s = absurd s
  track_records-Gives i (t ∷ ts) [] before h k s = absurd s
  track_records-Gives i (t ∷ ts) (segment ∷ segments) before h k s =
      let here : i + 0 ≡ i = omega arith in
      let found = ap (get_elem? score.tracks) (sym here) ∙ sym (h 0) in
      let behind = ap (get_elem? score.note_segments) (sym here) ∙ sym (k 0) in
      Gives-bind
        (track_record-Gives i t segment found (track_notes-segment i t segment found behind))
        λ r shown. Gives-bind (append-Gives py memory before r) λ now e.
          Gives-weaken
            (λ rs told.
              Told-next t ts segment segments before r rs shown
                (subst (λ u. Told ts segments u rs) e told))
            (track_records-Gives (i + 1) ts segments now
              (λ j. h (suc j) ∙ ap (get_elem? score.tracks) (omega arith))
              (λ j. k (suc j) ∙ ap (get_elem? score.note_segments) (omega arith)) s.1)

-- What the records of a score show of it.
pub record ShowsScore (score : TickScore) (r : ScoreRecord) : Type 0 where
  pub division : r.tpq ≡ score.header.division
  pub programs :
      map (λ (t : TrackRecord). t.program) r.tracks
      ≡ map (λ (t : TickTrack). t.program) score.tracks
  pub notes : all_notes r.tracks ≡ map note_of (Arena.notes score)
  pub tempos : r.tempos ≡ map tempo_of score.tempos

-- The records of a well-formed score are all built: the tracks' programs in order, the tracks' notes,
-- which one after another are the global column of notes, and the tempos.
pub score_records-IsScore :
    (py : Interpreter) (from_utf8_lossy : Bytes → Bytes) (score : TickScore)
    → HasMemory py
    → IsScore score
    → (r : ScoreRecord) × (score_records py from_utf8_lossy score ≡ returned r) × ShowsScore score r
unfolding score_records Arena.notes
score_records-IsScore py from_utf8_lossy score memory whole = Gives-returned (
    set_item-Gives py memory score.header.division λ tpq division.
      Gives-bind
        (track_records-Gives py memory from_utf8_lossy score whole 0 score.tracks
          score.note_segments [] (λ k. ap (get_elem? score.tracks) (omega arith))
          (λ k. ap (get_elem? score.note_segments) (omega arith)) whole.segments)
        λ tracks told. set_item-Gives py memory tracks λ stored_tracks same_tracks.
          Gives-bind
            (every-Gives py memory (time_signature_record py)
              (time_signature_record-Gives py memory) score.time_signatures)
            λ rs1 _. set_item-Gives py memory rs1 λ _ _.
              Gives-bind
                (every-Gives py memory (key_signature_record py)
                  (key_signature_record-Gives py memory) score.key_signatures)
                λ rs2 _. set_item-Gives py memory rs2 λ _ _.
                  Gives-bind (tempos-Gives py memory score.tempos) λ tempos same_tempos.
                    set_item-Gives py memory tempos λ stored_tempos same_stored.
                      Gives-bind
                        (texts-Gives py memory from_utf8_lossy score whole score.markers
                          whole.marker_texts)
                        λ rs4 _. set_item-Gives py memory rs4 λ _ _. gives _ (record {
                          division = division;
                          programs = rw same_tracks told.programs;
                          notes = rw same_tracks told.notes;
                          tempos = same_stored ∙ same_tempos;
                        }))

pub parse_score_owned-IsScore :
    (bytes : Bytes) (limits : Option PyScoreParseLimits) (mode : Bytes) (score : PyScore)
    → parse_score_owned bytes limits mode ≡ returned score
    → IsScore score.inner
unfolding parse_score_owned parse_score_smf_with_options
parse_score_owned-IsScore bytes limits mode score e =
    let (found, _, parsed) = bind-returned (parse_score_mode mode) score e in
    let (inner, accepted, same) = map_result-returned _ _ score parsed in
    rw same (parse_score_smf_impl-IsScore limited_policy (grammar_of found) bytes _ inner accepted)

-- A score that the Python module has parsed gives its records, in an interpreter that has memory: no
-- exception for an invalid range is raised, and the records have the programs of the tracks in order,
-- the notes of the tracks, which one after another are the global column of notes, and the tempos.
pub parse_score_owned-score_records :
    (py : Interpreter) (from_utf8_lossy : Bytes → Bytes) (bytes : Bytes)
    (limits : Option PyScoreParseLimits) (mode : Bytes) (score : PyScore)
    → HasMemory py
    → parse_score_owned bytes limits mode ≡ returned score
    → (r : ScoreRecord) × (score_records py from_utf8_lossy score.inner ≡ returned r)
      × ShowsScore score.inner r
parse_score_owned-score_records py from_utf8_lossy bytes limits mode score memory e =
    score_records-IsScore py from_utf8_lossy score.inner memory
      (parse_score_owned-IsScore bytes limits mode score e)
