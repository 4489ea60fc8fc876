-- ===== src/Scan/Counts.antt =====
-- The structural scan of a whole file: it always ends, its errors lie in the input, and its
-- summary accounts for the bytes that it consumed.
use midi.Smf.Bounds.{
  ChunkRead, read_header-Ensures, read_track_chunk-Ensures, ChunkRead-IsValid, ChunkRead-Within,
}
use midi.Scan.Span.{Span, TrackScanned, Span-refl, Span-trans, Span-longer, scan_track-Ensures}
use midi.Result.{ParseError, err, ok, stuck}
use midi.Cursor.Bounds.{
  Moved, IsValid, Within, Moved-refl, Moved-trans, Moved-IsValid, Within-back, Moved-length,
}
use midi.Prelude.{
  ℕ, zero, suc, ◌+◌, ◌≤◌, ◌<◌, ◌≡◌, refl, arith, Bytes, length, ◌*◌, usize_max, ◌^◌, ◌≢◌,
}
use midi.Result.Ensures.{
  Ensures, returns, Ensures-bind, Ensures-weaken, Ensures-err, Ensures-ok, Ensures-ne-stuck,
}
use midi.Cursor.{Cursor, new}
use midi.Scan.{ScanSummary, scan_tracks, scan_smf}

-- The tracks that follow `c`: their events, and the bytes of their chunks.
pub record TracksScanned (c : Cursor) (s : ScanSummary) (d : Cursor) (t : ScanSummary)
    : Type 0 where
  pub count : ℕ
  pub size : ℕ
  pub bytes_read : Moved c size d
  pub spans : Span s count size t

TracksScanned-next :
    {c track d e : Cursor} {s t u : ScanSummary}
    → IsValid c
    → ChunkRead c track d
    → TrackScanned track s t
    → TracksScanned d t e u
    → TracksScanned c s e u
TracksScanned-next v r p q = record {
  count = p.count + q.count;
  size = r.size + 8 + q.size;
  bytes_read = Moved-trans (r.size + 8) q.size (r.size + 8 + q.size) refl r.moved q.bytes_read;
  spans =
      Span-trans p.count q.count (r.size + 8) q.size (Span-longer p.count _ _ (omega arith) p.spans)
        q.spans;
}

pub scan_tracks-Ensures :
    (count : ℕ) (c : Cursor) (s : ScanSummary)
    → IsValid c
    → Ensures (λ (d, t). TracksScanned c s d t) (Within c) (scan_tracks count c s)
unfolding scan_tracks
scan_tracks-Ensures zero c s v =
    returns _ (record { count = 0; size = 0; bytes_read = Moved-refl v; spans = Span-refl s })
scan_tracks-Ensures (suc count) c s v =
    Ensures-bind (read_track_chunk-Ensures c v) (λ e w. w)
      λ (track, d) r.
        Ensures-bind (scan_track-Ensures track s (ChunkRead-IsValid v r)) (ChunkRead-Within r)
          λ t p.
            Ensures-weaken (λ (e, u) q. TracksScanned-next v r p q)
              (Within-back (r.size + 8) r.moved)
              (scan_tracks-Ensures count d t (Moved-IsValid (r.size + 8) r.moved v))

-- The summary agrees with the input.
pub record Accounts (input : Bytes) (s : ScanSummary) : Type 0 where
  pub whole : s.bytes_consumed + s.trailing_bytes ≡ length input
  pub classes : s.events ≡ s.channel_events + s.meta_events + s.sysex_events
  pub payload : 14 + 2 * s.events + s.payload_bytes ≤ s.bytes_consumed
  pub deltas : s.max_delta_ticks < 2 ^ 28

scan_smf-Ensures :
    (input : Bytes)
    → length input ≤ usize_max
    → Ensures (Accounts input) (Within (new input 0)) (scan_smf input)
unfolding scan_smf
scan_smf-Ensures input h =
    let v : IsValid (new input 0) = omega arith in
    Ensures-bind (read_header-Ensures (new input 0) v refl) (λ e w. w)
      λ (header, c) (n, m, long).
        Ensures-bind (scan_tracks-Ensures header.track_count c _ (Moved-IsValid n m v))
          (Within-back n m)
          λ (d, s) t.
            let m2 = Moved-trans n t.size (n + t.size) refl m t.bytes_read in
            returns _ (record {
              whole = omega (arith, Moved-length (n + t.size) m2);
              classes = omega (arith, t.spans.counted, t.spans.classes);
              payload = omega (arith, t.spans.counted, t.spans.payload);
              deltas = t.spans.deltas (omega arith);
            })

-- The scan of an input that fits the address space always ends with a value or an error: the loops
-- never run out of fuel.
pub scan_smf-ne-stuck : (input : Bytes) → length input ≤ usize_max → scan_smf input ≢ stuck
scan_smf-ne-stuck input h = Ensures-ne-stuck (scan_smf-Ensures input h)

-- An error of the scan names an offset of the input, or its end.
pub scan_smf_error_offset :
    (input : Bytes) {e : ParseError}
    → length input ≤ usize_max
    → scan_smf input ≡ err e
    → e.offset ≤ length input
scan_smf_error_offset input {e} h p =
    let w = Ensures-err e p (scan_smf-Ensures input h) in omega (arith, w.below)

-- A summary accounts for the input: consumed and trailing bytes make up the input, every event has
-- one of the three classes, the header takes 14 bytes and each event two bytes besides its payload,
-- all within the consumed bytes, and no delta reaches 2 ^ 28.
pub scan_smf-Accounts :
    (input : Bytes) {s : ScanSummary}
    → length input ≤ usize_max
    → scan_smf input ≡ ok s
    → Accounts input s
scan_smf-Accounts input {s} h p = Ensures-ok s p (scan_smf-Ensures input h)
