-- ===== src/Owned/Arena.antt =====
-- The arena that `parse_smf` builds is well formed: its track ranges tile the events, and each
-- event's bytes lie in the payload buffer or in the event itself.
use mathlib.Core.Path.{subst}
use midi.Scan.{scan_smf}
use midi.Result.{ParseError, ok_or, ok, size_overflow}
use midi.Cursor.Yields.{fits-Yields}
use midi.Owned.Data.{channel_data_len-le}
use Prim.Native.Nat.{zero}
use mathlib.Core.Option.{none}
use midi.Smf.{
  EventClass, classify, Status, channel_event, read_data_byte, channel_data_len, meta_event,
  validate_first, sysex_event, invalid_event, read_status,
}
use midi.Cursor.{error, Cursor, fits, read_vlq, read_u8, take, remaining, new}
use midi.Prelude.{
  ℕ, ◌+◌, ◌≤◌, ◌≡◌, refl, arith, List, [], ◌∷◌, length, All, true, Bytes, ◌*◌, false, leb,
  Bool-cases, u32_max, ◌&&◌, inl, ◌++◌, ltb, length-append, All-append, inr, All-map, Option,
  length-set, usize_max, set, ◌-◌, ◌==◌,
}
use midi.Result.Yields.{Yields, value, refused, Yields-bind, Yields-any, Yields-ok, loops}
use midi.Owned.{
  OwnedSmf, EventRecord, TrackRange, is_channel, true, Bytes, Cursor, push_variable_event, false,
  leb, u32_max, ltb, parse_payload, read_data_loop, read_channel_data, EventClass, classify,
  parse_arm, suc, Option, Status, read_data_byte, some, channel_data_len, usize_max, validate_first,
  set, parse_event, parse_loop, parse_track, parse_tracks, parse_smf, read_status, ok_or,
  skip_to_track, parse_scanned, ok, checked_len, size_overflow, scan_smf, skip_header,
}

-- The ranges follow one another from `start` to `end`.
abbrev pub Tiles : ℕ → List TrackRange → ℕ → Type 0
Tiles start [] end = start ≡ end
Tiles start (r ∷ rs) end = (r.start ≡ start) × Tiles (start + r.len) rs end

-- The bytes of an event are at hand, in a payload buffer of `n` bytes.
pub record HasBytes (n : ℕ) (event : EventRecord) : Type 0 where
  pub inline_bytes : is_channel event ≡ true → event.payload_len ≤ length event.channel_data
  pub buffer_bytes : is_channel event ≡ false → event.payload_start + event.payload_len ≤ n

HasBytes-mono : (m n : ℕ) → m ≤ n → (event : EventRecord) → HasBytes m event → HasBytes n event
HasBytes-mono m n h event b = record {
  inline_bytes = b.inline_bytes;
  buffer_bytes = λ e. omega (arith, b.buffer_bytes e);
}

-- An arena with all tracks finished but the one that starts at event `current`.
pub record Holds (current : ℕ) (o : OwnedSmf) : Type 0 where
  pub tiled : Tiles 0 o.tracks current
  pub started : current ≤ length o.events
  pub all_bytes : All (HasBytes (length o.payloads)) o.events
  pub small : length o.payloads ≤ 2 * u32_max

-- The finished arena.
abbrev pub IsArena : OwnedSmf → Type 0
IsArena o = Holds (length o.events) o

Holds-push :
    (current : ℕ) (o : OwnedSmf) (x : EventRecord) (payload : Bytes)
    → Holds current o
    → HasBytes (length o.payloads + length payload) x
    → length o.payloads + length payload ≤ 2 * u32_max
    → Holds current (record o { events = o.events ++ (x ∷ []); payloads = o.payloads ++ payload })
Holds-push current o x payload h b small =
    let e = length-append o.payloads payload in
    record {
      tiled = h.tiled;
      started = omega (arith, length-append o.events (x ∷ []), h.started);
      all_bytes = rw e (
          All-append (HasBytes (length o.payloads + length payload)) o.events (x ∷ [])
            (All-map o.events
              (HasBytes-mono (length o.payloads) (length o.payloads + length payload) (omega arith))
              h.all_bytes)
            (b, tt));
      small = omega arith;
    }

push_variable_event-Holds :
    (current : ℕ) (o : OwnedSmf) (delta status auxiliary : ℕ) (payload : Bytes) (c : Cursor)
    → Holds current o
    → (leb 0x80 status && ltb status 0xf0) ≡ false
    → Yields (Holds current) (push_variable_event o delta status auxiliary payload c)
unfolding push_variable_event is_channel
push_variable_event-Holds current o delta status auxiliary payload c h e =
    Yields-bind (fits-Yields u32_max c (length o.payloads)) λ start p.
      Yields-bind (fits-Yields u32_max c (length payload)) λ len q. value _ (
        Holds-push current o _ payload h
          (record { inline_bytes = λ b. cc; buffer_bytes = λ _. omega arith }) (omega arith))

parse_payload-Holds :
    (current : ℕ) (c : Cursor) (delta status auxiliary : ℕ) (o : OwnedSmf)
    → Holds current o
    → (leb 0x80 status && ltb status 0xf0) ≡ false
    → Yields (λ (d, p). Holds current p) (parse_payload c delta status auxiliary o)
unfolding parse_payload
parse_payload-Holds current c delta status auxiliary o h e =
    Yields-any (read_vlq c) λ (declared, c1) _. Yields-any (fits usize_max c1 declared) λ len _.
      Yields-any (take len c1) λ (payload, c2) _.
        Yields-bind (push_variable_event-Holds current o delta status auxiliary payload c2 h e)
          λ p k. value _ k

length-read_data_loop :
    (rounds index : ℕ) (found : Bytes) (c : Cursor)
    → Yields (λ (bytes, d). length bytes ≡ length found) (read_data_loop rounds index found c)
unfolding read_data_loop
length-read_data_loop zero index found c = value _ refl
length-read_data_loop (suc rounds) index found c = Yields-any (read_data_byte c) λ (byte, d) _.
    rw (← length-set found index byte)
      (length-read_data_loop rounds (index + 1) (set found index byte) d)

length-read_channel_data :
    (c : Cursor) (first_data : Option ℕ) (data_len : ℕ)
    → Yields (λ (bytes, d). length bytes ≡ 2) (read_channel_data c first_data data_len)
unfolding read_channel_data
length-read_channel_data c none data_len = length-read_data_loop data_len 0 (0 ∷ 0 ∷ []) c
length-read_channel_data c (some byte) data_len =
    Yields-any (validate_first c (some byte))
      λ _ _. length-read_data_loop (data_len - 1) 1 (byte ∷ 0 ∷ []) c

-- What the class of an event says of its status byte.
abbrev StatusOf : EventClass → ℕ → Type 0
StatusOf channel_event status = (leb 0x80 status && ltb status 0xf0) ≡ true
StatusOf meta_event status = (leb 0x80 status && ltb status 0xf0) ≡ false
StatusOf sysex_event status = (leb 0x80 status && ltb status 0xf0) ≡ false
StatusOf invalid_event status = Unit {0}

classify-StatusOf :
    (status : ℕ) (first_data : Option ℕ) → StatusOf (classify status first_data) status
unfolding classify
classify-StatusOf status none = ground arith
classify-StatusOf status (some byte) = ground arith

parse_arm-Holds :
    (current : ℕ) (class : EventClass) (delta : ℕ) (st : Status) (c : Cursor) (o : OwnedSmf)
    → Holds current o
    → StatusOf class st.status
    → Yields (λ (d, r, p). Holds current p) (parse_arm class delta st c o)
unfolding parse_arm is_channel
parse_arm-Holds current channel_event delta st c o h e =
    Yields-bind (length-read_channel_data c st.first_data (channel_data_len st.status))
      λ (found, d) l.
        Yields-bind (fits-Yields u32_max d (channel_data_len st.status)) λ len (same, _).
          value _ (record {
            tiled = h.tiled;
            started = omega (arith, h.started, length-append o.events (_ ∷ []));
            all_bytes = All-append (HasBytes (length o.payloads)) o.events (_ ∷ []) h.all_bytes (
              record {
                inline_bytes = λ _. omega (arith, channel_data_len-le st.status, l, same);
                buffer_bytes = λ b. cc;
              },
              tt,
            );
            small = h.small;
          })
parse_arm-Holds current meta_event delta st c o h e = Yields-any (read_u8 c) λ (meta, c1) _.
    Yields-bind (parse_payload-Holds current c1 delta st.status meta o h e) λ (d, p) k. value _ k
parse_arm-Holds current sysex_event delta st c o h e =
    Yields-bind (parse_payload-Holds current c delta st.status 0 o h e) λ (d, p) k. value _ k
parse_arm-Holds current invalid_event delta st c o h e = refused _

parse_event-Holds :
    (current : ℕ) (c : Cursor) (running : Option ℕ) (o : OwnedSmf)
    → Holds current o
    → Yields (λ (d, r, p). Holds current p) (parse_event c running o)
unfolding parse_event
parse_event-Holds current c running o h = Yields-any (read_vlq c) λ (delta, c1) _.
    Yields-any (read_status c1 running) λ (st, c2) _.
      parse_arm-Holds current (classify st.status st.first_data) delta st c2 o h
        (classify-StatusOf st.status st.first_data)

parse_loop-Holds :
    (current fuel : ℕ) (c : Cursor) (running : Option ℕ) (o : OwnedSmf)
    → Holds current o
    → Yields (λ (d, p). Holds current p) (parse_loop fuel c running o)
unfolding parse_loop
parse_loop-Holds current zero c running o h = elim (Bool-cases (remaining c == 0)) [
  | inl done ↦ rw (done, parse_loop) (value _ h)
  | inr more ↦ rw (more, parse_loop) loops
]
parse_loop-Holds current (suc fuel) c running o h = elim (Bool-cases (remaining c == 0)) [
  | inl done ↦ rw (done, parse_loop) (value _ h)
  | inr more ↦
      rw (more, parse_loop)
        (Yields-bind (parse_event-Holds current c running o h)
          λ (d, r, p) k. parse_loop-Holds current fuel d r p k)
]

Tiles-append :
    (rs : List TrackRange) (start middle len : ℕ)
    → Tiles start rs middle
    → Tiles start (rs ++ (record { start = middle; len = len } ∷ [])) (middle + len)
Tiles-append [] start middle len t = (omega arith, omega arith)
Tiles-append (r ∷ rs) start middle len t = (t.0, Tiles-append rs (start + r.len) middle len t.1)

checked_len-Yields :
    (count start : ℕ) (e : ParseError)
    → Yields (λ len. start + len ≡ count) (ok_or (checked_len count start) e)
checked_len-Yields count start e = elim (Bool-cases (leb count u32_max && leb start count)) [
  | inl fine ↦ rw fine (value _ (ground arith))
  | inr over ↦ rw over (refused e)
]

-- A finished track is one more tile.
parse_track-IsArena : (c : Cursor) (o : OwnedSmf) → IsArena o → Yields IsArena (parse_track c o)
unfolding parse_track
parse_track-IsArena c o h = Yields-bind (fits-Yields u32_max c (length o.events)) λ start same.
    Yields-bind (parse_loop-Holds (length o.events) (remaining c) c none o h) λ (d, p) k.
      Yields-bind (checked_len-Yields (length p.events) start (error d size_overflow)) λ len e.
        value _ (record {
          tiled =
              subst (λ n. Tiles 0 (p.tracks ++ (record { start = start; len = len } ∷ [])) n) e
                (Tiles-append p.tracks 0 start len (rw same.0 k.tiled));
          started = omega arith;
          all_bytes = k.all_bytes;
          small = k.small;
        })

parse_tracks-IsArena :
    (count : ℕ) (c : Cursor) (o : OwnedSmf) → IsArena o → Yields IsArena (parse_tracks count c o)
unfolding parse_tracks
parse_tracks-IsArena zero c o h = value o h
parse_tracks-IsArena (suc count) c o h = Yields-any (skip_to_track c) λ (track, d) _.
    Yields-bind (parse_track-IsArena track o h) λ p k. parse_tracks-IsArena count d p k

parse_smf-Yields : (input : Bytes) → Yields IsArena (parse_smf input)
unfolding parse_smf parse_scanned
parse_smf-Yields input = Yields-any (scan_smf input) λ s _.
    Yields-any (fits usize_max (new [] 0) s.events) λ _ _.
      Yields-any (fits usize_max (new [] 0) s.payload_bytes) λ _ _.
        Yields-any (skip_header (new input 0)) λ c _.
          parse_tracks-IsArena s.header.track_count c _
            (record { tiled = refl; started = omega arith; all_bytes = tt; small = omega arith })

-- Every arena that `parse_smf` returns is well formed: its track ranges follow one another from the
-- first event to the last, with no gap and no overlap, and the bytes of each event lie in its
-- inline data or inside the payload buffer.
pub parse_smf-IsArena : (input : Bytes) {o : OwnedSmf} → parse_smf input ≡ ok o → IsArena o
parse_smf-IsArena input {o} e = Yields-ok o e (parse_smf-Yields input)
