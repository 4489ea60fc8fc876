-- ===== src/Scan/Span.antt =====
-- One event and one track of the structural scan: what they add to the counters, how far they
-- move the cursor, and where their errors lie.
use midi.Smf.Bounds.{read_data_byte-Ensures, validate_first-Ensures, read_status-Ensures}
use midi.Prelude.{
  ℕ, zero, suc, ◌+◌, ◌≤◌, ◌<◌, ◌≡◌, refl, arith, Option, ◌^◌, ◌∙◌, usize_max, u64_max, ◌-◌, none,
  Bool-cases, ◌==◌, inl, ==→eq, inr,
}
use mathlib.Core.Path.{subst}
use midi.Result.Ensures.{Ensures, returns, fails, Ensures-bind, Ensures-weaken}
use midi.Cursor.{Cursor, remaining}
use midi.Cursor.Bounds.{
  Moved, IsValid, Within, Within-back, Moved-trans, Moved-IsValid, read_vlq-Ensures,
  read_u8-Ensures, Moved-refl, fits-Ensures, skip-Ensures, checked_add-Ensures, end_offset,
  Moved-length,
}
use midi.Smf.{
  Status, channel_event, channel_data_len, meta_event, sysex_event, EventClass, classify,
  invalid_event,
}
use midi.Scan.{
  ScanSummary, Scanned, scan_event, scan_loop, scan_track, scan_data_bytes, scan_channel_data,
  scan_payload, size_overflow, scan_arm, already_read, Status, channel_event, max, channel_data_len,
  meta_event, sysex_event, EventClass, classify,
}

-- The counters `t` come from `s` by `k` events in `n` bytes. An event takes two bytes besides its
-- payload.
pub record Span (s : ScanSummary) (k n : ℕ) (t : ScanSummary) : Type 0 where
  pub same_header : t.header ≡ s.header
  pub counted : t.events ≡ s.events + k
  pub classes :
      t.channel_events + t.meta_events + t.sysex_events
      ≡ s.channel_events + s.meta_events + s.sysex_events + k
  pub payload : t.payload_bytes + k + k ≤ s.payload_bytes + n
  pub deltas : s.max_delta_ticks < 2 ^ 28 → t.max_delta_ticks < 2 ^ 28

pub Span-refl : (s : ScanSummary) → Span s 0 0 s
Span-refl s = record {
  same_header = refl;
  counted = omega arith;
  classes = omega arith;
  payload = omega arith;
  deltas = λ h. h;
}

pub Span-trans :
    {s t u : ScanSummary} (k l m n : ℕ) → Span s k m t → Span t l n u → Span s (k + l) (m + n) u
Span-trans k l m n p q = record {
  same_header = q.same_header ∙ p.same_header;
  counted = omega arith;
  classes = omega arith;
  payload = omega arith;
  deltas = λ h. q.deltas (p.deltas h);
}

pub Span-longer : {s t : ScanSummary} (k m n : ℕ) → m ≤ n → Span s k m t → Span s k n t
Span-longer k m n h p = record {
  same_header = p.same_header;
  counted = p.counted;
  classes = p.classes;
  payload = omega arith;
  deltas = p.deltas;
}

scan_data_bytes-Ensures :
    (rounds : ℕ) (c : Cursor)
    → IsValid c
    → Ensures (λ d. Moved c rounds d) (Within c) (scan_data_bytes rounds c)
unfolding scan_data_bytes
scan_data_bytes-Ensures zero c v = returns c (Moved-refl v)
scan_data_bytes-Ensures (suc rounds) c v =
    Ensures-bind (read_data_byte-Ensures c v) (λ e w. w)
      λ (_, d) m.
        Ensures-weaken (λ e n. Moved-trans 1 rounds (suc rounds) (omega arith) m.0 n)
          (Within-back 1 m.0) (scan_data_bytes-Ensures rounds d (Moved-IsValid 1 m.0 v))

scan_channel_data-Ensures :
    (c : Cursor) (first_data : Option ℕ) (data_len : ℕ)
    → IsValid c
    → 0 < c.position
    → Ensures
        (λ d. Moved c (data_len - already_read first_data) d)
        (Within c)
        (scan_channel_data c first_data data_len)
unfolding scan_channel_data
scan_channel_data-Ensures c first_data data_len v p =
    Ensures-bind (validate_first-Ensures c first_data v p) (λ e w. w)
      λ _ _. scan_data_bytes-Ensures (data_len - already_read first_data) c v

-- A payload of `n` bytes with its length in front was skipped and counted.
record PayloadRead (c : Cursor) (s : ScanSummary) (d : Cursor) (t : ScanSummary) : Type 0 where
  pub size : ℕ
  pub bytes_read : Moved c size d
  payload_fits : t.payload_bytes + 1 ≤ s.payload_bytes + size
  same_header : t.header ≡ s.header
  same_events : t.events ≡ s.events
  same_classes :
      t.channel_events + t.meta_events + t.sysex_events
      ≡ s.channel_events + s.meta_events + s.sysex_events
  same_deltas : t.max_delta_ticks ≡ s.max_delta_ticks

scan_payload-Ensures :
    (c : Cursor) (s : ScanSummary)
    → IsValid c
    → Ensures (λ (d, t). PayloadRead c s d t) (Within c) (scan_payload c s)
unfolding scan_payload
scan_payload-Ensures c s v =
    Ensures-bind (read_vlq-Ensures c v) (λ e w. w)
      λ (declared, c1) r.
        let v1 = Moved-IsValid r.size r.bytes_read v in
        let back1 = Within-back r.size r.bytes_read in
        Ensures-bind (fits-Ensures usize_max c1 declared v1) back1 λ len same.
          Ensures-bind (skip-Ensures len c1 v1) back1 λ c2 m2.
            let m = Moved-trans r.size len (r.size + len) refl r.bytes_read m2 in
            let back = Within-back (r.size + len) m in
            let v2 = Moved-IsValid (r.size + len) m v in
            Ensures-bind (fits-Ensures u64_max c2 len v2) back λ wide same2.
              Ensures-bind (checked_add-Ensures u64_max s.payload_bytes wide c2 size_overflow v2)
                back
                λ total sum. returns _ (record {
                  size = r.size + len;
                  bytes_read = m;
                  payload_fits = omega arith;
                  same_header = refl;
                  same_events = refl;
                  same_classes = refl;
                  same_deltas = refl;
                })

-- What one event does.
pub record EventScanned (c : Cursor) (s : ScanSummary) (x : Scanned) : Type 0 where
  pub size : ℕ
  pub bytes_read : Moved c size x.0
  pub forward : 2 ≤ size
  pub spans : Span s 1 size x.2

-- The bytes read in front of the arm, and the new greatest delta.
module _ (c : Cursor) (s : ScanSummary) (v : IsValid c) where
  arm-channel :
      (n : ℕ) (st : Status) (d : Cursor) (delta : ℕ)
      → Moved c n d
      → 2 ≤ n
      → delta < 2 ^ 28
      → Ensures
          (EventScanned c s)
          (Within c)
          (scan_arm channel_event st d (record s { max_delta_ticks = max s.max_delta_ticks delta }))
  unfolding scan_arm
  arm-channel n st d delta m h b =
      Ensures-bind
        (scan_channel_data-Ensures d st.first_data (channel_data_len st.status)
          (Moved-IsValid n m v) (omega arith))
        (Within-back n m)
        λ e m2. returns _ (record {
          size = n + (channel_data_len st.status - already_read st.first_data);
          bytes_read = Moved-trans n _ _ refl m m2;
          forward = omega arith;
          spans = record {
            same_header = refl;
            counted = refl;
            classes = omega arith;
            payload = omega arith;
            deltas = λ h. omega arith;
          };
        })

  arm-payload :
      (n size : ℕ) (d e : Cursor) (delta : ℕ) (t : ScanSummary)
      → Moved c n d
      → 2 ≤ n
      → delta < 2 ^ 28
      → PayloadRead d (record s { max_delta_ticks = max s.max_delta_ticks delta }) e t
      → (r : Option ℕ) → (u : ScanSummary) → u.header ≡ t.header
      → u.payload_bytes ≡ t.payload_bytes
      → u.max_delta_ticks ≡ t.max_delta_ticks
      → u.events ≡ t.events + 1
      → u.channel_events + u.meta_events + u.sysex_events
        ≡ t.channel_events + t.meta_events + t.sysex_events + 1
      → EventScanned c s (e, r, u)
  arm-payload n size d e delta t m h b p r u eh ep ed ee ec = record {
    size = n + p.size;
    bytes_read = Moved-trans n p.size (n + p.size) refl m p.bytes_read;
    forward = omega arith;
    spans = record {
      same_header = eh ∙ p.same_header;
      counted = omega (arith, p.same_events);
      classes = omega (arith, p.same_classes);
      payload = omega (arith, p.payload_fits);
      deltas = λ h. omega (arith, p.same_deltas);
    };
  }

  arm-meta :
      (n : ℕ) (st : Status) (d : Cursor) (delta : ℕ)
      → Moved c n d
      → 2 ≤ n
      → delta < 2 ^ 28
      → Ensures
          (EventScanned c s)
          (Within c)
          (scan_arm meta_event st d (record s { max_delta_ticks = max s.max_delta_ticks delta }))
  unfolding scan_arm
  arm-meta n st d delta m h b =
      Ensures-bind (read_u8-Ensures d (Moved-IsValid n m v)) (Within-back n m) λ (_, d1) m1.
        let m2 = Moved-trans n 1 (n + 1) refl m m1 in
        Ensures-bind (scan_payload-Ensures d1 _ (Moved-IsValid (n + 1) m2 v))
          (Within-back (n + 1) m2)
          λ (e, t) p. returns _ (
            arm-payload (n + 1) p.size d1 e delta t m2 (omega arith) b p none _ refl refl refl refl
              (omega arith))

  arm-sysex :
      (n : ℕ) (st : Status) (d : Cursor) (delta : ℕ)
      → Moved c n d
      → 2 ≤ n
      → delta < 2 ^ 28
      → Ensures
          (EventScanned c s)
          (Within c)
          (scan_arm sysex_event st d (record s { max_delta_ticks = max s.max_delta_ticks delta }))
  unfolding scan_arm
  arm-sysex n st d delta m h b =
      Ensures-bind (scan_payload-Ensures d _ (Moved-IsValid n m v)) (Within-back n m) λ (e, t) p.
        returns _
          (arm-payload n p.size d e delta t m h b p none _ refl refl refl refl (omega arith))

  arm :
      (n : ℕ) (class : EventClass) (st : Status) (d : Cursor) (delta : ℕ)
      → Moved c n d
      → 2 ≤ n
      → delta < 2 ^ 28
      → c.base ≤ st.event_offset
      → st.event_offset ≤ end_offset c
      → Ensures
          (EventScanned c s)
          (Within c)
          (scan_arm class st d (record s { max_delta_ticks = max s.max_delta_ticks delta }))
  unfolding scan_arm
  arm n channel_event st d delta m h b lo hi = arm-channel n st d delta m h b
  arm n meta_event st d delta m h b lo hi = arm-meta n st d delta m h b
  arm n sysex_event st d delta m h b lo hi = arm-sysex n st d delta m h b
  arm n invalid_event st d delta m h b lo hi = fails _ (omega arith)

  -- One event reads two bytes at least and is counted in one class, or fails in the track.
  pub scan_event-Ensures :
      (running : Option ℕ) → Ensures (EventScanned c s) (Within c) (scan_event c running s)
  unfolding scan_event
  scan_event-Ensures running =
      Ensures-bind (read_vlq-Ensures c v) (λ e w. w)
        λ (delta, c1) r.
          let v1 = Moved-IsValid r.size r.bytes_read v in
          let back = Within-back r.size r.bytes_read in
          Ensures-bind (read_status-Ensures c1 running v1) back λ (st, c2) p.
            arm (r.size + 1) (classify st.status st.first_data) st c2 delta
              (Moved-trans r.size 1 (r.size + 1) refl r.bytes_read p.0) (omega arith) r.bounded
              (omega arith) (omega (arith, Moved-length r.size r.bytes_read))

-- The events of a track from `c` to its end: `k` events, which take all bytes that remain.
pub record TrackScanned (c : Cursor) (s t : ScanSummary) : Type 0 where
  pub count : ℕ
  pub spans : Span s count (remaining c) t

TrackScanned-next :
    {c d : Cursor} {s t u : ScanSummary} (n : ℕ)
    → Moved c n d
    → Span s 1 n t
    → TrackScanned d t u
    → TrackScanned c s u
TrackScanned-next {c} {d} {s} {t} {u} n m p q = record {
  count = 1 + q.count;
  spans =
      let e : n + remaining d ≡ remaining c = omega (arith, Moved-length n m) in
      subst (λ k. Span s (1 + q.count) k u) e (Span-trans 1 q.count n (remaining d) p q.spans);
}

scan_loop-Ensures :
    (fuel : ℕ) (c : Cursor) (running : Option ℕ) (s : ScanSummary)
    → IsValid c
    → remaining c ≤ fuel
    → Ensures (TrackScanned c s) (Within c) (scan_loop fuel c running s)
unfolding scan_loop
scan_loop-Ensures zero c running s v h =
    let e : remaining c ≡ 0 = omega arith in
    rw (e, scan_loop) (returns s (record { count = 0; spans = rw e (Span-refl s) }))
scan_loop-Ensures (suc fuel) c running s v h = elim (Bool-cases (remaining c == 0)) [
  | inl done ↦
      rw (done, scan_loop)
        (returns s (record { count = 0; spans = rw (==→eq (remaining c) 0 done) (Span-refl s) }))
  | inr more ↦
      rw (more, scan_loop)
        (Ensures-bind (scan_event-Ensures c s v running) (λ e w. w)
          λ (d, running1, t) x.
            Ensures-weaken (λ u. TrackScanned-next x.size x.bytes_read x.spans)
              (Within-back x.size x.bytes_read)
              (scan_loop-Ensures fuel d running1 t (Moved-IsValid x.size x.bytes_read v)
                (omega (arith, Moved-length x.size x.bytes_read))))
]

-- A track is scanned to its end, or refused at an offset inside it; the fuel is enough.
pub scan_track-Ensures :
    (c : Cursor) (s : ScanSummary)
    → IsValid c
    → Ensures (TrackScanned c s) (Within c) (scan_track c s)
unfolding scan_track
scan_track-Ensures c s v = scan_loop-Ensures (remaining c) c none s v (omega arith)
