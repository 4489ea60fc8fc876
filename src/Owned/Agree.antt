-- ===== src/Owned/Agree.antt =====
-- The arena parser accepts what the scan accepts, and retains as many events and payload bytes as
-- the scan counted.
use midi.Owned.Follow.{parse_track-scan, skip_to_track-read}
use midi.Owned.Data.{Room, Agrees, fits-eq}
use midi.Scan.Counts.{scan_tracks-Ensures}
use mathlib.Core.Path.{subst}
use midi.Smf.{
  read_track_chunk, expect_tag, read_header, Header, header_chunk, check_header_size,
  read_header_fields,
}
use midi.Smf.Bounds.{ChunkRead, read_track_chunk-Ensures, ChunkRead-IsValid, read_header-Ensures}
use midi.Result.Ensures.{Ensures-ok}
use midi.Scan.Span.{scan_track-Ensures}
use midi.Cursor.Bounds.{Moved, IsValid, Moved-length, Moved-IsValid}
use midi.Owned.{
  ScanSummary, OwnedSmf, [], u32_max, usize_max, parse_tracks, skip_header, Header, scan_smf,
  parse_scanned, parse_smf,
}
use midi.Scan.{ScanSummary, scan_track, scan_tracks, scan_smf, empty_summary}
use midi.Prelude.{
  ℕ, zero, suc, ◌+◌, ◌≤◌, ◌≡◌, refl, arith, Bytes, length, ◌∙◌, sym, ap, inl, [], u32_max, inr,
  usize_max,
}
use midi.Result.{Result, ok, Result-cases, >>=-eq-ok, ok-injective}
use midi.Result.Lockstep.{Answers}
use midi.Cursor.{
  Cursor, fits, absolute_offset, skip, remaining, take, read_tag, take_cursor, read_u32, new,
}

Room-in_track :
    {c track d : Cursor} {s : ScanSummary} → Room c s → ChunkRead c track d → Room track s
Room-in_track room r = record {
  retained = omega (arith, r.starts, r.at_start);
  addressed = omega (arith, r.starts, r.sized, r.moved.moved, r.moved.still_inside);
}

parse_tracks-scan :
    (count : ℕ) (c d : Cursor) (s t : ScanSummary) (o : OwnedSmf)
    → IsValid c
    → Room c s
    → Agrees s o
    → scan_tracks count c s ≡ ok (d, t)
    → (p : OwnedSmf) × (parse_tracks count c o ≡ ok p) × Agrees t p
unfolding scan_tracks parse_tracks
parse_tracks-scan zero c d s t o v room g e = (
  o,
  refl,
  record {
    events_agree = sym (ap (λ x. x.events) (same_summary e)) ∙ g.events_agree;
    payloads_agree = sym (ap (λ x. x.payload_bytes) (same_summary e)) ∙ g.payloads_agree;
  },
)
  where
    same_summary : ◌≡◌ {A = Result (Cursor × ScanSummary)} (ok (c, s)) (ok (d, t)) → s ≡ t
    same_summary h = cc
parse_tracks-scan (suc count) c d s t o v room g e =
    let ((track, c1), e1, f1) = >>=-eq-ok (read_track_chunk c) _ e in
    let (s1, e2, f2) = >>=-eq-ok (scan_track track s) _ f1 in
    let r = Ensures-ok _ e1 (read_track_chunk-Ensures c v) in
    let w = ChunkRead-IsValid v r in
    let x = Ensures-ok _ e2 (scan_track-Ensures track s w) in
    let (o1, e3, g1) = parse_track-scan track s s1 o w (Room-in_track room r) g e2 in
    let whole = Moved-length (r.size + 8) r.moved in
    let room1 : Room c1 s1 = record {
      retained =
          omega (arith, x.spans.counted, x.spans.payload, r.sized, r.at_start, room.retained);
      addressed = omega (arith, whole, r.moved.same_base, room.addressed);
    } in
    let (p, e4, g2) =
      parse_tracks-scan count c1 d s1 t o1 (Moved-IsValid (r.size + 8) r.moved v) room1 g1 f2 in
    (p, rw (skip_to_track-read c (track, c1) e1) (rw e3 e4), g2)

take_cursor-skip : (n : ℕ) (c inner d : Cursor) → take_cursor n c ≡ ok (inner, d) → skip n c ≡ ok d
unfolding take_cursor skip
take_cursor-skip n c inner d e =
    let ((bytes, d1), e1, f1) = >>=-eq-ok (take n c) _ e in
    rw e1 (ap (λ x. ok x.1) (ok-injective _ _ f1))

skip_header-read :
    (c d : Cursor) (header : Header) → read_header c ≡ ok (header, d) → skip_header c ≡ ok d
unfolding read_header skip_header skip read_tag
skip_header-read c d header e =
    let ((tag, c1), e1, f1) = >>=-eq-ok (take 4 c) _ e in
    let (_, e2, f2) = >>=-eq-ok (expect_tag header_chunk 0 tag) _ f1 in
    let ((declared, c2), e3, f3) = >>=-eq-ok (read_u32 c1) _ f2 in
    let (_, e4, f4) = >>=-eq-ok (check_header_size (absolute_offset c1) declared) _ f3 in
    let (size, e5, f5) = >>=-eq-ok (fits usize_max c2 declared) _ f4 in
    let ((inner, c3), e6, f6) = >>=-eq-ok (take_cursor size c2) _ f5 in
    let (fields, e7, f7) = >>=-eq-ok (read_header_fields inner) _ f6 in
    rw e1 (
      rw e3 (rw e5 (take_cursor-skip size c2 inner c3 e6 ∙ ap (λ x. ok x.1) (ok-injective _ _ f7))))

-- The arena of an accepted input holds what the summary counted.
abbrev empty_owned : ScanSummary → OwnedSmf
empty_owned summary = record {
  header = summary.header;
  tracks = [];
  events = [];
  payloads = [];
  bytes_consumed = summary.bytes_consumed;
  trailing_bytes = summary.trailing_bytes;
}

abbrev completed : ScanSummary → Cursor → ScanSummary
completed t d = record t { bytes_consumed = absolute_offset d; trailing_bytes = remaining d }

parse_scanned-tracks :
    (input : Bytes) (header : Header) (c d : Cursor) (t : ScanSummary) (n : ℕ)
    → length input ≤ u32_max
    → Moved (new input 0) n c
    → read_header (new input 0) ≡ ok (header, c)
    → scan_tracks header.track_count c (empty_summary header) ≡ ok (d, t)
    → (p : OwnedSmf) × (parse_scanned input (completed t d) ≡ ok p) × Agrees t p
unfolding parse_scanned
parse_scanned-tracks input header c d t n h m e1 e2 =
    let v : IsValid c = Moved-IsValid n m (omega arith) in
    let x = Ensures-ok _ e2 (scan_tracks-Ensures header.track_count c (empty_summary header) v) in
    let (p, e3, g) =
      parse_tracks-scan header.track_count c d (empty_summary header) t
        (empty_owned (completed t d)) v
        (record {
          retained = omega arith;
          addressed = omega (arith, Moved-length n m, m.same_base);
        })
        (record { events_agree = refl; payloads_agree = refl }) e2 in
    let whole = Moved-length n m in
    (
      p,
      rw
          (
            fits-eq usize_max (new [] 0) t.events (
                omega (
                  arith, whole, x.spans.counted, x.spans.payload, x.bytes_read.moved,
                  x.bytes_read.still_inside,
                )),
            fits-eq usize_max (new [] 0) t.payload_bytes (
                omega
                  (arith, whole, x.spans.payload, x.bytes_read.moved, x.bytes_read.still_inside)),
            skip_header-read (new input 0) c header e1,
          )
          (ap (λ (k : Header). parse_tracks k.track_count c (empty_owned (completed t d)))
              x.spans.same_header
            ∙ e3),
      g,
    )

parse_scanned-scan :
    (input : Bytes) (s : ScanSummary)
    → length input ≤ u32_max
    → scan_smf input ≡ ok s
    → (p : OwnedSmf) × (parse_scanned input s ≡ ok p) × Agrees s p
unfolding scan_smf
parse_scanned-scan input s h e =
    let v : IsValid (new input 0) = omega arith in
    let ((header, c), e1, f1) = >>=-eq-ok (read_header (new input 0)) _ e in
    let ((d, t), e2, f2) =
      >>=-eq-ok (scan_tracks header.track_count c (empty_summary header)) _ f1 in
    let (n, m, long) = Ensures-ok _ e1 (read_header-Ensures (new input 0) v refl) in
    let (p, e3, g) = parse_scanned-tracks input header c d t n h m e1 e2 in
    let same : completed t d ≡ s = ok-injective _ _ f2 in
    (
      p,
      subst (λ u. parse_scanned input u ≡ ok p) same e3,
      record {
        events_agree = sym (ap (λ u. u.events) same) ∙ g.events_agree;
        payloads_agree = sym (ap (λ u. u.payload_bytes) same) ∙ g.payloads_agree;
      },
    )

-- For an input of less than 4 GiB `parse_smf` gives exactly the scan's verdict: it fails with the
-- same error, and an accepted input has an arena with as many events and payload bytes as the scan
-- counted.
pub parse_smf-scan_smf :
    (input : Bytes) → length input ≤ u32_max → Answers Agrees (scan_smf input) (parse_smf input)
unfolding parse_smf
parse_smf-scan_smf input h = elim (Result-cases (scan_smf input)) [
  | inl (s, e) ↦ let (p, e3, g) = parse_scanned-scan input s h e in rw e (p, e3, g)
  | inr (inl (x, e)) ↦ rw e refl
  | inr (inr e) ↦ rw e refl
]
