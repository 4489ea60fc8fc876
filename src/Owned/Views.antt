-- ===== src/Owned/Views.antt =====
-- The views of a well-formed arena, `track_events` and `event_data`: where what they give stands.
use mathlib.Core.Path.{subst}
use midi.Prelude.{
  ℕ, zero, suc, ◌+◌, ◌≤◌, ◌<◌, ◌≡◌, arith, List, [], ◌∷◌, some, length, slice, usize_max, get_elem?,
  Bytes, le→leb, get_elem?-exists, length-slice, All-get_elem?, Bool-cases, ◌∙◌, inl, inr, IsPart,
  slice-IsPart, true, false, ◌⊎◌,
}
use mathlib.Core.Option.{some-injective}
use midi.Owned.{
  OwnedSmf, EventRecord, TrackRange, track_events, event_data, get_range, get_span, is_channel,
  slice, usize_max, get_elem?, Bytes, true, false,
}
use midi.Owned.Arena.{Tiles, HasBytes, IsArena}

module _ {ℓ} {A : Type ℓ} where
  get_range-some :
      (xs : List A) (i j : ℕ) → i ≤ j → j ≤ length xs → get_range xs i j ≡ some (slice xs i j)
  unfolding get_range
  get_range-some xs i j h k = rw (le→leb i j h, le→leb j (length xs) k)

  pub get_span-some :
      (xs : List A) (start len : ℕ)
      → start + len ≤ length xs
      → length xs ≤ usize_max
      → get_span xs start len ≡ some (slice xs start (start + len))
  unfolding get_span
  get_span-some xs start len h k =
      rw (le→leb (start + len) usize_max (omega arith), get_span)
        (get_range-some xs start (start + len) (omega arith) h)

pub Tiles-le : (rs : List TrackRange) (start end : ℕ) → Tiles start rs end → start ≤ end
Tiles-le [] start end t = omega arith
Tiles-le (r ∷ rs) start end t = omega (arith, Tiles-le rs (start + r.len) end t.1)

Tiles-get_elem? :
    (rs : List TrackRange) (start end i : ℕ) (r : TrackRange)
    → Tiles start rs end
    → get_elem? rs i ≡ some r
    → r.start + r.len ≤ end
Tiles-get_elem? [] start end i r t e = cc
Tiles-get_elem? (q ∷ rs) start end zero r t e =
    subst (λ x. x.start + x.len ≤ end) (some-injective q r e)
      (omega (arith, t.0, Tiles-le rs (start + q.len) end t.1))
Tiles-get_elem? (q ∷ rs) start end (suc i) r t e = Tiles-get_elem? rs (start + q.len) end i r t.1 e

-- In a well-formed arena every track has its events: as many as its range says, from its start.
pub track_events-IsArena :
    (o : OwnedSmf) (track : ℕ)
    → IsArena o
    → length o.events ≤ usize_max
    → track < length o.tracks
    → (r : TrackRange) × (get_elem? o.tracks track ≡ some r)
      × (track_events o track ≡ some (slice o.events r.start (r.start + r.len)))
      × (length (slice o.events r.start (r.start + r.len)) ≡ r.len)
unfolding track_events
track_events-IsArena o track h k lt =
    let (r, e) = get_elem?-exists o.tracks track lt in
    let inside = Tiles-get_elem? o.tracks 0 (length o.events) track r h.tiled e in
    (
      r,
      e,
      rw (e, track_events) (get_span-some o.events r.start r.len inside k),
      length-slice o.events r.start (r.start + r.len) (omega arith) inside ∙ omega arith,
    )

-- The bytes of an event: those of a channel message stand at the start of its inline data, those of
-- any other event in the payload buffer, where its record says.
pub data IsEventData (o : OwnedSmf) (event : EventRecord) (bytes : Bytes) : Type 0 where
  in_record :
      0x80 ≤ event.status
      → event.status < 0xf0
      → IsPart event.channel_data 0 bytes
      → IsEventData o event bytes
  in_buffer :
      (event.status < 0x80) ⊎ (0xf0 ≤ event.status)
      → IsPart o.payloads event.payload_start bytes
      → IsEventData o event bytes

is_channel-range :
    (event : EventRecord) → is_channel event ≡ true → (0x80 ≤ event.status) × (event.status < 0xf0)
unfolding is_channel
is_channel-range event e = ground arith

is_channel-outside :
    (event : EventRecord) → is_channel event ≡ false → (event.status < 0x80) ⊎ (0xf0 ≤ event.status)
unfolding is_channel
is_channel-outside event e = ground arith

-- In a well-formed arena every event has its bytes, as many as its record says: those of a channel
-- message from the start of its inline data, those of any other event from its place in the payload
-- buffer.
pub event_data-IsArena :
    (o : OwnedSmf) (index : ℕ)
    → IsArena o
    → index < length o.events
    → (event : EventRecord) × (bytes : Bytes) × (get_elem? o.events index ≡ some event)
      × (event_data o index ≡ some bytes)
      × (length bytes ≡ event.payload_len)
      × IsEventData o event bytes
unfolding event_data
event_data-IsArena o index h lt =
    let (event, e) = get_elem?-exists o.events index lt in
    let b = All-get_elem? (HasBytes (length o.payloads)) o.events index event h.all_bytes e in
    elim (Bool-cases (is_channel event)) [
      | inl channel ↦
          let inside = b.inline_bytes channel in
          let (low, high) = is_channel-range event channel in
          (
            event,
            slice event.channel_data 0 event.payload_len,
            e,
            rw (e, channel, event_data)
                (get_range-some event.channel_data 0 event.payload_len (omega arith) inside),
            length-slice event.channel_data 0 event.payload_len (omega arith) inside ∙ omega arith,
            in_record low high
                (slice-IsPart event.channel_data 0 event.payload_len (omega arith) inside),
          )
      | inr other ↦
          let inside = b.buffer_bytes other in
          let end = event.payload_start + event.payload_len in
          (
            event,
            slice o.payloads event.payload_start end,
            e,
            rw (e, other, event_data)
                (get_span-some o.payloads event.payload_start event.payload_len inside
                  (omega (arith, h.small))),
            length-slice o.payloads event.payload_start end (omega arith) inside ∙ omega arith,
            in_buffer (is_channel-outside event other)
                (slice-IsPart o.payloads event.payload_start end (omega arith) inside),
          )
    ]
