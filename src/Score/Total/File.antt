-- ===== src/Score/Total/File.antt =====
-- The score parser ends on every input that fits the address space.
use midi.Score.Budget.File.{parse_score_smf_impl-Bounded}
use midi.Result.{stuck}
use midi.Score.Budget.{IsBudget, Bounded-ne-stuck}
use midi.Result.Ensures.{Ensures, Ensures-bind, returns}
use midi.Score.Semantics.{validate_strict_division, is_smpte_rate}
use midi.Score.Total.Builder.{fits-Settles}
use midi.Score.Total.Finish.{finish-Settles}
use midi.Score.Ranges.Track.{score_loop-IsTrack, parse_score_track-IsScore, empty_score-IsScore}
use midi.Score.Total.Track.{score_loop-Settles}
use midi.Score.Ranges.{IsScore}
use midi.Cursor.Bounds.{
  IsValid, read_tag-Ensures, Moved-IsValid, read_u32-Ensures, take_cursor-Ensures, Moved,
  read_u16-Ensures,
}
use midi.Score.Arena.{TickScore, empty_score}
use midi.Cursor.{Cursor, remaining, absolute_offset, new}
use midi.Result.Settles.{
  Settles, Settles-if, returned, failed, Settles-Yields, Ensures-Settles, Ensures-Yields,
  Settles-bind, ok_or-Settles, Settles-Ensures, Settles-ne-stuck,
}
use midi.Score.Parse.{
  parse_score_track, parse_score_tracks, check_end_of_track, score_header_fields, score_header,
  parse_score_smf_impl, check_division, check_trailing,
}
use midi.Score.Limits.{ScoreGrammar, unlimited_policy, ScoreParsePolicy}
use midi.Smf.{expect_tag, track_chunk, check_header_size, format_from, header_chunk}
use midi.Prelude.{
  ℕ, zero, suc, Bytes, arith, ◌&&◌, not, usize_max, ◌+◌, ◌≡◌, ◌/◌, length, ◌^◌, ◌==◌, ◌≤◌, ◌≢◌,
  i8_from_byte, ◌||◌, ◌%◌,
}

expect_tag-Settles :
    (expected : Bytes) (offset : ℕ) (actual : Bytes) → Settles (expect_tag expected offset actual)
unfolding expect_tag
expect_tag-Settles expected offset actual = Settles-if _ (returned _) (failed _)

inner-IsValid :
    {c d inner : Cursor} (size : ℕ)
    → Moved c size d
      × (inner.base ≡ absolute_offset c)
      × (inner.position ≡ 0)
      × (length inner.bytes ≡ size)
    → IsValid c
    → IsValid inner
inner-IsValid size (m, starts, at_start, sized) v = record {
  inside = omega (arith, at_start);
  addressable = omega (arith, m.moved, m.still_inside, starts, sized, v.addressable);
}

check_header_size-Settles : (offset declared : ℕ) → Settles (check_header_size offset declared)
unfolding check_header_size
check_header_size-Settles offset declared = Settles-if _ (failed _) (returned _)

validate_strict_division-Settles :
    (division offset : ℕ) → Settles (validate_strict_division division offset)
unfolding validate_strict_division
validate_strict_division-Settles division offset =
    Settles-if (division / 2 ^ 15 == 0) (Settles-if (not (division == 0)) (returned _) (failed _)) (
      Settles-if (not (is_smpte_rate (i8_from_byte (division / 256))) || division % 256 == 0)
        (failed _) (returned _))

module _ (g : ScoreGrammar) where
  parse_score_track-Settles :
      (c : Cursor) (source_track : ℕ) (score : TickScore)
      → IsValid c
      → IsScore score
      → Settles (parse_score_track unlimited_policy g c source_track score tt)
  unfolding parse_score_track check_end_of_track
  parse_score_track-Settles c source_track score v h =
      Settles-Yields (score_loop-Settles g (remaining c) _ v (omega arith))
        (score_loop-IsTrack unlimited_policy g (remaining c) _
          (h, (tt, λ channel. tt, λ channel. omega arith, λ channel. omega arith), omega arith))
        λ (saw, t) k.
          Settles-bind (Settles-if (g.require_end_of_track && not saw) (failed _) (returned tt))
            λ _ _.
              Settles-bind
                (finish-Settles source_track t.semantics.name t.cursor t.semantics.builder
                  t.semantics.score k.1.3)
                λ _ _. returned _

  parse_score_tracks-Settles :
      (rounds source_track : ℕ) (c : Cursor) (score : TickScore)
      → IsValid c
      → IsScore score
      → Settles (parse_score_tracks unlimited_policy g rounds source_track c score tt)
  unfolding parse_score_tracks
  parse_score_tracks-Settles zero source_track c score v h = returned _
  parse_score_tracks-Settles (suc rounds) source_track c score v h =
      let tag = read_tag-Ensures c v in
      Settles-Yields (Ensures-Settles tag) (Ensures-Yields tag) λ (tag, c1) (m1, _).
        let v1 = Moved-IsValid 4 m1 v in
        Settles-bind (expect_tag-Settles track_chunk (absolute_offset c) tag) λ _ _.
          let size = read_u32-Ensures c1 v1 in
          Settles-Yields (Ensures-Settles size) (Ensures-Yields size) λ (declared, c2) m2.
            let v2 = Moved-IsValid 4 m2 v1 in
            Settles-bind (fits-Settles usize_max c2 declared) λ track_size _.
              let chunk = take_cursor-Ensures track_size c2 v2 in
              Settles-Yields (Ensures-Settles chunk) (Ensures-Yields chunk) λ (track, c3) m3.
                let inner : IsValid track = inner-IsValid track_size m3 v2 in
                Settles-Yields (parse_score_track-Settles track source_track score inner h)
                  (parse_score_track-IsScore unlimited_policy g track source_track score tt h)
                  λ (score1, _) k.
                    parse_score_tracks-Settles rounds (source_track + 1) c3 score1
                      (Moved-IsValid track_size m3.0 v2) k

  score_header_fields-Settles :
      (c : Cursor) → IsValid c → Settles (score_header_fields unlimited_policy g c tt)
  unfolding score_header_fields check_division
  score_header_fields-Settles c v =
      let raw = read_u16-Ensures c v in
      Settles-Yields (Ensures-Settles raw) (Ensures-Yields raw) λ (raw_format, c1) m1.
        let v1 = Moved-IsValid 2 m1 v in
        Settles-bind (ok_or-Settles (format_from raw_format) _) λ format _.
          let count = read_u16-Ensures c1 v1 in
          Settles-Yields (Ensures-Settles count) (Ensures-Yields count) λ (track_count, c2) m2.
            Settles-bind (Ensures-Settles (read_u16-Ensures c2 (Moved-IsValid 2 m2 v1)))
              λ (division, c3) _.
                Settles-bind
                  (Settles-if g.validate_division
                    (validate_strict_division-Settles division (absolute_offset c2)) (returned tt))
                  λ _ _. returned _

  -- The header leaves a valid cursor.
  score_header-Ensures :
      (c : Cursor)
      → IsValid c
      → Ensures (λ x. IsValid x.1) (λ _. Unit {0}) (score_header unlimited_policy g c tt)
  unfolding score_header
  score_header-Ensures c v =
      Ensures-bind (read_tag-Ensures c v) (λ _ _. tt)
        λ (tag, c1) (m1, _).
          let v1 = Moved-IsValid 4 m1 v in
          Ensures-bind (Settles-Ensures (expect_tag-Settles header_chunk 0 tag)) (λ _ _. tt)
            λ _ _.
              Ensures-bind (read_u32-Ensures c1 v1) (λ _ _. tt)
                λ (declared, c2) m2.
                  let v2 = Moved-IsValid 4 m2 v1 in
                  Ensures-bind
                    (Settles-Ensures (check_header_size-Settles (absolute_offset c1) declared))
                    (λ _ _. tt)
                    λ _ _.
                      Ensures-bind (Settles-Ensures (fits-Settles usize_max c2 declared))
                        (λ _ _. tt)
                        λ size _.
                          Ensures-bind (take_cursor-Ensures size c2 v2) (λ _ _. tt)
                            λ (inner, c3) m3.
                              Ensures-bind
                                (Settles-Ensures
                                  (score_header_fields-Settles inner (inner-IsValid size m3 v2)))
                                (λ _ _. tt) λ header _. returns _ (Moved-IsValid size m3.0 v2)

  parse_score_smf_impl-Settles :
      (input : Bytes)
      → length input ≤ usize_max
      → Settles (parse_score_smf_impl unlimited_policy g input tt)
  unfolding parse_score_smf_impl check_trailing
  parse_score_smf_impl-Settles input h =
      let header = score_header-Ensures (new input 0) (omega arith) in
      Settles-Yields (Ensures-Settles header) (Ensures-Yields header) λ (header, c) v.
        Settles-bind
          (parse_score_tracks-Settles header.track_count 0 c (empty_score header) v
            (empty_score-IsScore unlimited_policy g header))
          λ (c1, score) _.
            Settles-bind
              (Settles-if (g.reject_trailing_bytes && not (remaining c1 == 0)) (failed _)
                (returned tt))
              λ _ _. returned _

-- On an input that fits the address space the score parser always ends with a score or an error,
-- under every grammar and every policy that does no more than to refuse: no loop of it runs out of
-- fuel.
pub parse_score_smf_impl-ne-stuck :
    {P : Type 0} (policy : ScoreParsePolicy P) (grammar : ScoreGrammar) (input : Bytes) (budget : P)
    → IsBudget policy
    → length input ≤ usize_max
    → parse_score_smf_impl policy grammar input budget ≢ stuck
parse_score_smf_impl-ne-stuck policy grammar input budget laws h =
    Bounded-ne-stuck (Settles-ne-stuck (parse_score_smf_impl-Settles grammar input h))
      (parse_score_smf_impl-Bounded policy laws grammar input budget)
