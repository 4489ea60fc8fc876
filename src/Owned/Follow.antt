-- ===== src/Owned/Follow.antt =====
-- Event by event, the arena parser runs in lockstep with the structural scan.
use midi.Owned.Data.{
  Room, Agrees, bind_assoc, SameEvent, fits-eq, checked_add-eq, channel_follows, Room-later, same,
  bind_ok,
}
use mathlib.Core.Path.{subst}
use midi.Smf.{meta_event, read_track_chunk, expect_tag, track_chunk, sysex_event, invalid_event}
use midi.Smf.Bounds.{read_status-Ensures}
use midi.Result.Ensures.{Ensures-ok}
use midi.Scan.Span.{Span, scan_event-Ensures, EventScanned, scan_track-Ensures}
use midi.Cursor.Bounds.{
  Moved, IsValid, Moved-length, read_vlq-Ensures, read_u8-Ensures, Moved-IsValid, take-Ensures,
}
use midi.Smf.{Status, channel_event, EventClass, read_status, classify}
use midi.Owned.{
  ScanSummary, OwnedSmf, Parsed, parse_arm, [], Status, u32_max, channel_event, EventClass,
  parse_payload, parse_event, parse_loop, push_variable_event, usize_max, read_status, classify,
  size_overflow, parse_track, skip_to_track,
}
use midi.Scan.{Scanned, scan_arm, ScanSummary, scan_payload, scan_event, scan_loop, scan_track}
use midi.Prelude.{
  ℕ, zero, suc, ◌+◌, ◌≡◌, arith, Option, none, length, le→leb, ◌∷◌, inl, [], u32_max, inr,
  length-append, Bool-cases, ◌==◌, usize_max, u64_max,
}
use midi.Result.{Result, ok, size_overflow, >>=-eq-ok}
use midi.Result.Lockstep.{
  Lockstep, both_return, both_fail, Lockstep-bind, Lockstep-shared, Lockstep-and, Lockstep-Answers,
  both_stuck, Answers,
}
use midi.Cursor.{
  Cursor, fits, absolute_offset, skip, read_u8, read_vlq, remaining, take, error, read_tag,
}

-- Behind a payload the arena has its event already, and the scan counts it next.
data SamePayload : Cursor × ScanSummary → Cursor × OwnedSmf → Type 0 where
  same_payload :
      {d : Cursor} {t : ScanSummary} {p : OwnedSmf}
      → t.events + 1 ≡ length p.events
      → t.payload_bytes ≡ length p.payloads
      → SamePayload (d, t) (d, p)

payload_follows :
    (c : Cursor) (delta status auxiliary : ℕ) (s : ScanSummary) (o : OwnedSmf)
    → IsValid c
    → Room c s
    → Agrees s o
    → Lockstep SamePayload (scan_payload c s) (parse_payload c delta status auxiliary o)
unfolding scan_payload parse_payload skip push_variable_event
payload_follows c delta status auxiliary s o v room g =
    Lockstep-shared (read_vlq c) λ (declared, c1) e1.
      let r = Ensures-ok _ e1 (read_vlq-Ensures c v) in
      let v1 = Moved-IsValid r.size r.bytes_read v in
      Lockstep-shared (fits usize_max c1 declared) λ len e2. rw (bind_assoc (take len c1)) (
        Lockstep-shared (take len c1) λ (payload, c2) e3.
          let t = Ensures-ok _ e3 (take-Ensures len c1 v1) in
          let whole = Moved-length r.size r.bytes_read in
          rw
            (
              fits-eq u64_max c2 len (omega (arith, whole, t.0.moved)),
              checked_add-eq u64_max s.payload_bytes len (error c2 size_overflow)
                  (omega (arith, whole, t.0.moved)),
              fits-eq u32_max c2 (length o.payloads) (omega arith),
              fits-eq u32_max c2 (length payload) (omega (arith, whole, t.0.moved, t.1)),
            )
            (both_return _ _ (
              same_payload (omega (arith, length-append o.events (_ ∷ [])))
                (omega (arith, length-append o.payloads payload, t.1)))))

arm_follows :
    (class : EventClass) (delta : ℕ) (st : Status) (c : Cursor) (s : ScanSummary) (o : OwnedSmf)
    → IsValid c
    → Room c s
    → Agrees s o
    → Lockstep SameEvent (scan_arm class st c s) (parse_arm class delta st c o)
unfolding scan_arm parse_arm
arm_follows channel_event delta st c s o v room g = channel_follows delta st c s o g
arm_follows meta_event delta st c s o v room g = Lockstep-shared (read_u8 c) λ (meta, c1) e1.
    let m = Ensures-ok _ e1 (read_u8-Ensures c v) in
    Lockstep-bind
      (payload_follows c1 delta st.status meta s o (Moved-IsValid 1 m v) (Room-later 1 m room) g)
      counted
  where
    counted :
        (a : Cursor × ScanSummary) (b : Cursor × OwnedSmf)
        → SamePayload a b
        → Lockstep SameEvent
            (ok (
              a.0,
              none,
              record a.1 { meta_events = a.1.meta_events + 1; events = a.1.events + 1 },
            ))
            (ok (b.0, none, b.1))
    counted a b (same_payload x y) =
        both_return _ _ (same (record { events_agree = x; payloads_agree = y }))
arm_follows sysex_event delta st c s o v room g =
    Lockstep-bind (payload_follows c delta st.status 0 s o v room g) counted
  where
    counted :
        (a : Cursor × ScanSummary) (b : Cursor × OwnedSmf)
        → SamePayload a b
        → Lockstep SameEvent
            (ok (
              a.0,
              none,
              record a.1 { sysex_events = a.1.sysex_events + 1; events = a.1.events + 1 },
            ))
            (ok (b.0, none, b.1))
    counted a b (same_payload x y) =
        both_return _ _ (same (record { events_agree = x; payloads_agree = y }))
arm_follows invalid_event delta st c s o v room g = both_fail _

event_follows :
    (c : Cursor) (running : Option ℕ) (s : ScanSummary) (o : OwnedSmf)
    → IsValid c
    → Room c s
    → Agrees s o
    → Lockstep SameEvent (scan_event c running s) (parse_event c running o)
unfolding scan_event parse_event
event_follows c running s o v room g = Lockstep-shared (read_vlq c) λ (delta, c1) e1.
    let r = Ensures-ok _ e1 (read_vlq-Ensures c v) in
    let v1 = Moved-IsValid r.size r.bytes_read v in
    Lockstep-shared (read_status c1 running) λ (st, c2) e2.
      let p = Ensures-ok _ e2 (read_status-Ensures c1 running v1) in
      arm_follows (classify st.status st.first_data) delta st c2 _ o (Moved-IsValid 1 p.0 v1)
        (let q = Room-later 1 p.0 (Room-later r.size r.bytes_read room) in
          record { retained = q.retained; addressed = q.addressed })
        (record { events_agree = g.events_agree; payloads_agree = g.payloads_agree })

-- Room is kept by what a span of bytes adds.
Room-kept :
    {c d : Cursor} {s t : ScanSummary} (k n : ℕ) → Moved c n d → Span s k n t → Room c s → Room d t
Room-kept k n m p r = record {
  retained = omega (arith, p.counted, p.payload, m.moved, m.same_base);
  addressed = omega (arith, Moved-length n m, m.same_base);
}

-- The rest of a loop, behind an event.
next_follows :
    (f : Cursor → Option ℕ → ScanSummary → Result ScanSummary)
    (h : Cursor → Option ℕ → OwnedSmf → Result (Cursor × OwnedSmf))
    → ((c : Cursor) (r : Option ℕ) (s : ScanSummary) (o : OwnedSmf)
        → IsValid c
        → Room c s
        → Agrees s o
        → Lockstep (λ t (d, p). Agrees t p) (f c r s) (h c r o))
    → (c : Cursor) (s : ScanSummary) → IsValid c
    → Room c s
    → (a : Scanned) (b : Parsed) → EventScanned c s a
    → SameEvent a b
    → Lockstep (λ t (d, p). Agrees t p) (f a.0 a.1 a.2) (h b.0 b.1 b.2)
next_follows f h ih c s v room a b x (same {d} {r} {t} {p} g) =
    ih d r t p (Moved-IsValid x.size x.bytes_read v) (Room-kept 1 x.size x.bytes_read x.spans room)
      g

loop_follows :
    (fuel : ℕ) (c : Cursor) (running : Option ℕ) (s : ScanSummary) (o : OwnedSmf)
    → IsValid c
    → Room c s
    → Agrees s o
    → Lockstep (λ t (d, p). Agrees t p) (scan_loop fuel c running s) (parse_loop fuel c running o)
unfolding scan_loop parse_loop
loop_follows zero c running s o v room g = elim (Bool-cases (remaining c == 0)) [
  | inl done ↦ rw (done, scan_loop, parse_loop) (both_return _ _ g)
  | inr more ↦ rw (more, scan_loop, parse_loop) both_stuck
]
loop_follows (suc fuel) c running s o v room g = elim (Bool-cases (remaining c == 0)) [
  | inl done ↦ rw (done, scan_loop, parse_loop) (both_return _ _ g)
  | inr more ↦
      rw (more, scan_loop, parse_loop)
        (Lockstep-bind
          (Lockstep-and (scan_event-Ensures c s v running) (event_follows c running s o v room g))
          (λ a b (x, q).
            next_follows (scan_loop fuel) (parse_loop fuel) (loop_follows fuel) c s v room a b x q))
]

track_follows :
    (c : Cursor) (s : ScanSummary) (o : OwnedSmf)
    → IsValid c
    → Room c s
    → Agrees s o
    → Lockstep Agrees (scan_track c s) (parse_track c o)
unfolding scan_track parse_track
track_follows c s o v room g = rw (fits-eq u32_max c (length o.events) (omega arith)) (
    rw (← bind_ok (scan_loop (remaining c) c none s)) (
      Lockstep-bind
        (Lockstep-and (scan_track-Ensures c s v) (loop_follows (remaining c) c none s o v room g))
        λ t (d, p) (x, q).
          rw
            (
              le→leb (length p.events) u32_max (omega (arith, x.spans.counted, x.spans.payload)),
              le→leb (length o.events) (length p.events) (omega (arith, x.spans.counted)),
            )
            (both_return _ _
              (record { events_agree = q.events_agree; payloads_agree = q.payloads_agree }))))

pub parse_track-scan :
    (c : Cursor) (s t : ScanSummary) (o : OwnedSmf)
    → IsValid c
    → Room c s
    → Agrees s o
    → scan_track c s ≡ ok t
    → (p : OwnedSmf) × (parse_track c o ≡ ok p) × Agrees t p
parse_track-scan c s t o v room g e =
    subst (λ m. Answers Agrees m (parse_track c o)) e
      (Lockstep-Answers (track_follows c s o v room g))

pub skip_to_track-read :
    (c : Cursor) (x : Cursor × Cursor) → read_track_chunk c ≡ ok x → skip_to_track c ≡ ok x
unfolding read_track_chunk skip_to_track skip read_tag
skip_to_track-read c x e =
    let ((tag, c1), e1, f1) = >>=-eq-ok (take 4 c) _ e in
    let (u, e2, f2) = >>=-eq-ok (expect_tag track_chunk (absolute_offset c) tag) _ f1 in rw e1 f2
