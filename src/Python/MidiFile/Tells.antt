-- ===== src/Python/MidiFile/Tells.antt =====
-- What a record of a file tells of an event, in terms of the arena alone.
use mathlib.Core.Path.{subst}
use midi.Owned.Views.{IsEventData}
use midi.Prelude.{
  ℕ, suc, ◌+◌, ◌-◌, ◌≤◌, ◌<◌, ◌≡◌, ◌≢◌, ◌⊎◌, inl, inr, refl, ap, arith, [], ◌∷◌, ◌++◌, Option, none,
  some, Option-cases, Bool-cases, Bytes, length, get_elem?, take, ◌==◌, sym, ==→eq, ◌∙◌, ==→ne,
}
use mathlib.Core.Option.{some-injective}
use midi.Owned.{OwnedSmf, EventRecord, TrackRange, meta_type}
use midi.Python.MidiFile.{
  EventTuple, event_tuple, last, drop_framing, drop_terminator, normalize_sysex,
}

-- The meta type of a record: that of a meta event, and none for any other.
pub data TellsMetaType (event : EventRecord) (told : Option ℕ) : Type 0 where
  of_meta : event.status ≡ 0xff → told ≡ some event.auxiliary → TellsMetaType event told
  of_other : event.status ≢ 0xff → told ≡ none → TellsMetaType event told

-- A leading 0xf0 is gone.
pub data DropsStart (raw body : Bytes) : Type 0 where
  framed_start : raw ≡ 0xf0 ∷ body → DropsStart raw body
  bare_start : get_elem? raw 0 ≢ some 0xf0 → body ≡ raw → DropsStart raw body

-- A trailing 0xf7 is gone.
pub data DropsEnd (body payload : Bytes) : Type 0 where
  framed_end : body ≡ payload ++ (0xf7 ∷ []) → DropsEnd body payload
  bare_end : get_elem? body (length body - 1) ≢ some 0xf7 → payload ≡ body → DropsEnd body payload

-- The payload is what the frame of a SysEx event holds, whether both marks of the frame are there,
-- one or none.
pub record Unframed (raw payload : Bytes) : Type 0 where
  pub body : Bytes
  pub starts : DropsStart raw body
  pub ends : DropsEnd body payload

-- The status and the payload of a record, for an event of this status with these bytes.
pub data TellsContent (status : ℕ) (raw : Bytes) (told : ℕ) (payload : Bytes) : Type 0 where
  of_sysex :
      (status ≡ 0xf0) ⊎ (status ≡ 0xf7)
      → told ≡ 0xf0
      → Unframed raw payload
      → TellsContent status raw told payload
  of_plain :
      status ≢ 0xf0
      → status ≢ 0xf7
      → told ≡ status
      → payload ≡ raw
      → TellsContent status raw told payload

drop_framing-DropsStart : (raw : Bytes) → DropsStart raw (drop_framing raw)
drop_framing-DropsStart [] = bare_start (λ e. cc) refl
drop_framing-DropsStart (b ∷ bs) = elim (Bool-cases (b == 0xf0)) [
  | inl e ↦ let same : b ≡ 0xf0 = ground arith in rw e (framed_start (ap (λ x. x ∷ bs) same))
  | inr e ↦
      let other : b ≢ 0xf0 = ground arith in
      rw e (bare_start (λ at. other (some-injective b 0xf0 at)) refl)
]

last-get_elem? : (bs : Bytes) → last bs ≡ get_elem? bs (length bs - 1)
unfolding last
last-get_elem? [] = refl
last-get_elem? (b ∷ []) = refl
last-get_elem? (b ∷ c ∷ bs) =
    let behind : suc (suc (length bs)) - 1 ≡ suc (suc (length bs) - 1) = omega arith in
    rw behind (last-get_elem? (c ∷ bs))

last-take : (bs : Bytes) (b : ℕ) → last bs ≡ some b → bs ≡ take (length bs - 1) bs ++ (b ∷ [])
unfolding last
last-take [] b e = cc
last-take (c ∷ []) b e = ap (λ x. x ∷ []) (some-injective c b e)
last-take (c ∷ d ∷ bs) b e =
    let behind : suc (suc (length bs)) - 1 ≡ suc (suc (length bs) - 1) = omega arith in
    rw behind (ap (◌∷◌ c) (last-take (d ∷ bs) b e))

none-ne-some : {b : ℕ} → ◌≡◌ {A = Option ℕ} none (some b) → ⊥
none-ne-some e = cc

drop_terminator-DropsEnd : (body : Bytes) → DropsEnd body (drop_terminator body)
unfolding drop_terminator
drop_terminator-DropsEnd body = elim (Option-cases (last body)) [
  | inl empty ↦
      rw (empty, drop_terminator)
        (bare_end (λ at. none-ne-some (sym empty ∙ last-get_elem? body ∙ at)) refl)
  | inr (b, e) ↦ elim (Bool-cases (b == 0xf7)) [
    | inl is ↦
        let same : b ≡ 0xf7 = ground arith in
        rw (e, is, drop_terminator)
          (framed_end
            (subst (λ x. body ≡ take (length body - 1) body ++ (x ∷ [])) same (last-take body b e)))
    | inr other ↦
        rw (e, other, drop_terminator)
          (bare_end
            (λ at. ==→ne b 0xf7 other (some-injective b 0xf7 (sym e ∙ last-get_elem? body ∙ at)))
            refl)
  ]
]

normalize_sysex-Unframed : (raw : Bytes) → Unframed raw (normalize_sysex raw)
unfolding normalize_sysex
normalize_sysex-Unframed raw = record {
  body = drop_framing raw;
  starts = drop_framing-DropsStart raw;
  ends = drop_terminator-DropsEnd (drop_framing raw);
}

event_tuple-TellsMetaType :
    (track : ℕ) (event : EventRecord) (raw : Bytes)
    → TellsMetaType event (event_tuple track event raw).meta_type
unfolding event_tuple meta_type
event_tuple-TellsMetaType track event raw = elim (Bool-cases (event.status == 0xff)) [
  | inl e ↦ rw e (of_meta (==→eq event.status 0xff e) refl)
  | inr e ↦ rw e (of_other (==→ne event.status 0xff e) refl)
]

event_tuple-TellsContent :
    (track : ℕ) (event : EventRecord) (raw : Bytes)
    → let r = event_tuple track event raw in TellsContent event.status raw r.status r.payload
unfolding event_tuple
event_tuple-TellsContent track event raw = elim (Bool-cases (event.status == 0xf0)) [
  | inl e ↦ rw e (of_sysex (inl (==→eq event.status 0xf0 e)) refl (normalize_sysex-Unframed raw))
  | inr e ↦ elim (Bool-cases (event.status == 0xf7)) [
    | inl k ↦
        rw (e, k) (of_sysex (inr (==→eq event.status 0xf7 k)) refl (normalize_sysex-Unframed raw))
    | inr k ↦ rw (e, k) (of_plain (==→ne event.status 0xf0 e) (==→ne event.status 0xf7 k) refl refl)
  ]
]

-- A record tells of the event at index `i` of the arena: of its track, its delta, its meta type, its
-- status and its bytes.
pub record Tells (smf : OwnedSmf) (i : ℕ) (r : EventTuple) : Type 0 where
  pub event : EventRecord
  pub raw : Bytes
  pub range : TrackRange
  pub in_place : get_elem? smf.events i ≡ some event
  pub in_track : get_elem? smf.tracks r.track ≡ some range
  pub from_start : range.start ≤ i
  pub to_end : i < range.start + range.len
  pub raw_bytes : IsEventData smf event raw
  pub raw_length : length raw ≡ event.payload_len
  pub delta : r.delta_ticks ≡ event.delta_ticks
  pub kind : TellsMetaType event r.meta_type
  pub content : TellsContent event.status raw r.status r.payload

pub event_tuple-Tells :
    (smf : OwnedSmf) (i track : ℕ) (range : TrackRange) (event : EventRecord) (raw : Bytes)
    → get_elem? smf.events i ≡ some event
    → get_elem? smf.tracks track ≡ some range
    → range.start ≤ i
    → i < range.start + range.len
    → IsEventData smf event raw
    → length raw ≡ event.payload_len
    → Tells smf i (event_tuple track event raw)
unfolding event_tuple
event_tuple-Tells smf i track range event raw at of_track start end bytes size = record {
  event = event;
  raw = raw;
  range = range;
  in_place = at;
  in_track = of_track;
  from_start = start;
  to_end = end;
  raw_bytes = bytes;
  raw_length = size;
  delta = refl;
  kind = event_tuple-TellsMetaType track event raw;
  content = event_tuple-TellsContent track event raw;
}
