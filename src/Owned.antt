-- ===== src/Owned.antt =====
-- The owned arena of `parse_smf`: track ranges, event records and a shared payload buffer. A `Vec`
-- is the list of its elements; capacities are not modelled.
pub mod Data
mod Follow
pub mod Agree
pub mod Arena
pub mod Views
use midi.Prelude.{
  ℕ, zero, suc, ◌+◌, ◌-◌, Option, none, some, List, [], ◌∷◌, ◌++◌, Bytes, ◌==◌, usize_max, u32_max,
  true, false, length, set, if◌then◌else◌, Bool, get_elem?, leb, ◌&&◌, ltb, slice,
}
use midi.Result.{
  Result, ok, err, stuck, error_at, ok_or, ◌>>=◌, ◌>>◌, size_overflow, invalid_status, checked_add,
}
use midi.Cursor.{
  Cursor, remaining, error, fits, read_u8, read_u32, read_vlq, skip, take, take_cursor, new,
}
use midi.Smf.{
  Header, Status, read_status, classify, EventClass, channel_event, meta_event, sysex_event,
  invalid_event, channel_data_len, validate_first, read_data_byte,
}
use midi.Scan.{ScanSummary, scan_smf}

pub record TrackRange : Type 0 where
  pub start : ℕ
  pub len : ℕ

-- `channel_data` is the field `data: [u8; 2]`.
pub record EventRecord : Type 0 where
  pub delta_ticks : ℕ
  pub payload_start : ℕ
  pub payload_len : ℕ
  pub channel_data : Bytes
  pub status : ℕ
  pub auxiliary : ℕ

pub record OwnedSmf : Type 0 where
  pub header : Header
  pub tracks : List TrackRange
  pub events : List EventRecord
  pub payloads : Bytes
  pub bytes_consumed : ℕ
  pub trailing_bytes : ℕ

-- `EventRecord::meta_type`
unfoldable pub meta_type : EventRecord → Option ℕ
meta_type event = if event.status == 0xff then some event.auxiliary else none

-- `EventRecord::is_channel`
unfoldable pub is_channel : EventRecord → Bool
is_channel event = leb 0x80 event.status && ltb event.status 0xf0

-- `slice::get(start..end)`
unfoldable pub get_range {ℓ} : {A : Type ℓ} → List A → ℕ → ℕ → Option (List A)
get_range xs start end =
    if leb start end && leb end (length xs) then some (slice xs start end) else none

-- `start.checked_add(len)` and `get(start..end)`
unfoldable pub get_span {ℓ} : {A : Type ℓ} → List A → ℕ → ℕ → Option (List A)
unfolding get_range
get_span xs start len = elim (checked_add usize_max start len) [
  | none ↦ none
  | some end ↦ get_range xs start end
]

-- `OwnedSmf::track_events`; a `u32` is a `usize`.
unfoldable pub track_events : OwnedSmf → ℕ → Option (List EventRecord)
unfolding get_span
track_events smf track = elim (get_elem? smf.tracks track) [
  | none ↦ none
  | some range ↦ get_span smf.events range.start range.len
]

-- `OwnedSmf::event_data`
unfoldable pub event_data : OwnedSmf → ℕ → Option Bytes
unfolding get_span get_range is_channel
event_data smf index = elim (get_elem? smf.events index) [
  | none ↦ none
  | some event ↦
      if is_channel event
      then get_range event.channel_data 0 event.payload_len
      else get_span smf.payloads event.payload_start event.payload_len
]

-- `while index < data_len`, with `data_len - index` rounds; `index` is 0 or 1 here.
unfoldable pub read_data_loop : ℕ → ℕ → Bytes → Cursor → Result (Bytes × Cursor)
read_data_loop zero index found c = ok (found, c)
read_data_loop (suc rounds) index found c = do
  (byte, c1) ← read_data_byte c
  read_data_loop rounds (index + 1) (set found index byte) c1

unfoldable pub read_channel_data : Cursor → Option ℕ → ℕ → Result (Bytes × Cursor)
unfolding read_data_loop
read_channel_data c none data_len = read_data_loop data_len 0 (0 ∷ 0 ∷ []) c
read_channel_data c (some byte) data_len = do
  validate_first c (some byte)
  read_data_loop (data_len - 1) 1 (byte ∷ 0 ∷ []) c

abbrev pub push_event : OwnedSmf → EventRecord → OwnedSmf
push_event owned event = record owned { events = owned.events ++ (event ∷ []) }

unfoldable pub push_variable_event : OwnedSmf → ℕ → ℕ → ℕ → Bytes → Cursor → Result OwnedSmf
push_variable_event owned delta_ticks status auxiliary payload c = do
  payload_start ← fits u32_max c (length owned.payloads)
  payload_len ← fits u32_max c (length payload)
  ok (record owned {
    payloads = owned.payloads ++ payload;
    events =
        owned.events
        ++ (record {
          delta_ticks = delta_ticks;
          payload_start = payload_start;
          payload_len = payload_len;
          channel_data = 0 ∷ 0 ∷ [];
          status = status;
          auxiliary = auxiliary;
        }
            ∷ []);
  })

-- The payload of a meta or SysEx event, behind its length, is retained.
unfoldable pub parse_payload : Cursor → ℕ → ℕ → ℕ → OwnedSmf → Result (Cursor × OwnedSmf)
unfolding push_variable_event
parse_payload c delta_ticks status auxiliary owned = do
  (declared, c1) ← read_vlq c
  length ← fits usize_max c1 declared
  (payload, c2) ← take length c1
  owned2 ← push_variable_event owned delta_ticks status auxiliary payload c2
  ok (c2, owned2)

abbrev pub Parsed : Type 0
Parsed = Cursor × Option ℕ × OwnedSmf

unfoldable pub parse_arm : EventClass → ℕ → Status → Cursor → OwnedSmf → Result Parsed
parse_arm channel_event delta_ticks st c owned = do
  let data_len = channel_data_len st.status
  (found, c1) ← read_channel_data c st.first_data data_len
  payload_len ← fits u32_max c1 data_len
  ok (
    c1,
    st.running_status,
    push_event owned (record {
      delta_ticks = delta_ticks;
      payload_start = 0;
      payload_len = payload_len;
      channel_data = found;
      status = st.status;
      auxiliary = 0;
    }),
  )
parse_arm meta_event delta_ticks st c owned = do
  (meta, c1) ← read_u8 c
  (c2, owned2) ← parse_payload c1 delta_ticks st.status meta owned
  ok (c2, none, owned2)
parse_arm sysex_event delta_ticks st c owned = do
  (c1, owned1) ← parse_payload c delta_ticks st.status 0 owned
  ok (c1, none, owned1)
parse_arm invalid_event delta_ticks st c owned =
    err (error_at st.event_offset (invalid_status st.status))

-- One round of the loop of `parse_track`.
unfoldable pub parse_event : Cursor → Option ℕ → OwnedSmf → Result Parsed
unfolding parse_arm
parse_event c running owned = do
  (delta_ticks, c1) ← read_vlq c
  (st, c2) ← read_status c1 running
  parse_arm (classify st.status st.first_data) delta_ticks st c2 owned

unfoldable pub parse_loop : ℕ → Cursor → Option ℕ → OwnedSmf → Result (Cursor × OwnedSmf)
parse_loop zero c running owned = elim (remaining c == 0) [ true ↦ ok (c, owned) | false ↦ stuck ]
parse_loop (suc fuel) c running owned = elim (remaining c == 0) [
  | true ↦ ok (c, owned)
  | false ↦
      parse_event c running owned >>= λ (c1, running1, owned1). parse_loop fuel c1 running1 owned1
]

-- `try_from(events.len()).ok().and_then(|end| end.checked_sub(start))`
abbrev pub checked_len : ℕ → ℕ → Option ℕ
checked_len count start =
    if leb count u32_max && leb start count then some (count - start) else none

unfoldable pub parse_track : Cursor → OwnedSmf → Result OwnedSmf
unfolding parse_loop
parse_track c owned = do
  start ← fits u32_max c (length owned.events)
  (c1, owned1) ← parse_loop (remaining c) c none owned
  len ← ok_or (checked_len (length owned1.events) start) (error c1 size_overflow)
  ok (record owned1 { tracks = owned1.tracks ++ (record { start = start; len = len } ∷ []) })

-- A chunk that the scan has checked: its tag is skipped.
unfoldable pub skip_to_track : Cursor → Result (Cursor × Cursor)
skip_to_track c = do
  c1 ← skip 4 c
  (declared, c2) ← read_u32 c1
  track_size ← fits usize_max c2 declared
  take_cursor track_size c2

unfoldable pub parse_tracks : ℕ → Cursor → OwnedSmf → Result OwnedSmf
parse_tracks zero c owned = ok owned
parse_tracks (suc count) c owned = do
  (track, c1) ← skip_to_track c
  owned1 ← parse_track track owned
  parse_tracks count c1 owned1

-- The header chunk, which the scan has checked.
unfoldable pub skip_header : Cursor → Result Cursor
skip_header c = do
  c1 ← skip 4 c
  (declared, c2) ← read_u32 c1
  header_size ← fits usize_max c2 declared
  skip header_size c2

-- The second pass of `parse_smf`, behind the scan.
unfoldable pub parse_scanned : Bytes → ScanSummary → Result OwnedSmf
unfolding parse_tracks skip_header
parse_scanned input summary = do
  fits usize_max (new [] 0) summary.events
  fits usize_max (new [] 0) summary.payload_bytes
  c ← skip_header (new input 0)
  parse_tracks summary.header.track_count c (record {
    header = summary.header;
    tracks = [];
    events = [];
    payloads = [];
    bytes_consumed = summary.bytes_consumed;
    trailing_bytes = summary.trailing_bytes;
  })

unfoldable pub parse_smf : Bytes → Result OwnedSmf
unfolding parse_scanned
parse_smf input = do summary ← scan_smf input; parse_scanned input summary
