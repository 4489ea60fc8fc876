-- ===== src/Python/Score/Rows.antt =====
-- The dicts of the rows of a score, and the lists of them.
use midi.Python.Gives.{
  Gives, gives, set_item-Gives, Gives-weaken, Gives-bind, or_raise-Gives, append-Gives,
}
use midi.Score.Ranges.Views.{text-InText, Shows, Shows-rows}
use midi.Score.Ranges.{IsScore, InText}
use midi.Score.Arena.{TickScore, track_notes, track_lyrics, notes_of}
use midi.Python.Score.Dicts.{
  NoteRecord, TempoRecord, TrackRecord, build, note_record, tempo_record, control_record,
  bend_record, pedal_record, time_signature_record, key_signature_record, text_of, text_record,
}
use midi.Python.{Interpreter, HasMemory, PyResult, PyErr, invalid_text_range, or_raise, ◌>>=◌}
use midi.Score.Types.{
  TickNote, TickTempo, TickControlChange, TickPitchBend, TickPedal, TickTimeSignature,
  TickKeySignature, control_time, control_number, TextRange, TickText, control_value,
}
use midi.Prelude.{
  ℕ, refl, List, ◌∷◌, ◌++◌, ◌≡◌, All, map, [], append-nil, ap, append_assoc, Bytes, length, Option,
  sym, All-every, All-map, ◌∙◌,
}
use midi.Score.Arena

-- The dict of a note.
abbrev pub note_of : TickNote → NoteRecord
note_of n = record { time = n.time; duration = n.duration; pitch = n.pitch; velocity = n.velocity }

abbrev pub tempo_of : TickTempo → TempoRecord
tempo_of e = record { time = e.time; mspq = e.microseconds_per_quarter }

-- The lists of notes of the tracks, one after another.
abbrev pub all_notes : List TrackRecord → List NoteRecord
all_notes [] = []
all_notes (t ∷ ts) = t.notes ++ all_notes ts

pub all_notes-append :
    (ts : List TrackRecord) (r : TrackRecord) → all_notes (ts ++ (r ∷ [])) ≡ all_notes ts ++ r.notes
all_notes-append [] r = append-nil r.notes
all_notes-append (t ∷ ts) r =
    ap (λ u. t.notes ++ u) (all_notes-append ts r)
    ∙ sym (append_assoc t.notes (all_notes ts) r.notes)

-- The records are those of the rows, one for one.
abbrev pub Each : {A B : Type 0} → (A → B → Type 0) → List A → List B → Type 0
Each R [] [] = Unit {0}
Each R [] (y ∷ ys) = ⊥
Each R (x ∷ xs) [] = ⊥
Each R (x ∷ xs) (y ∷ ys) = R x y × Each R xs ys

pub Each-map :
    {A B : Type 0} (f : A → B) (xs : List A) (ys : List B)
    → Each (λ x y. y ≡ f x) xs ys
    → ys ≡ map f xs
Each-map f [] [] h = refl
Each-map f [] (y ∷ ys) h = absurd h
Each-map f (x ∷ xs) [] h = absurd h
Each-map f (x ∷ xs) (y ∷ ys) h = rw (h.0, Each-map f xs ys h.1) refl

module _ (py : Interpreter) (memory : HasMemory py) where
  -- A loop that is given a record of every row.
  pub build-Gives :
      {A B : Type 0} (make : A → PyResult B) (R : A → B → Type 0)
      → (xs : List A) (ys : List B) → All (λ x. Gives (R x) (make x)) xs
      → Gives (λ zs. (rs : List B) × (zs ≡ ys ++ rs) × Each R xs rs) (build py make xs ys)
  unfolding build
  build-Gives make R [] ys h = gives ys ([], sym (append-nil ys), tt)
  build-Gives make R (x ∷ xs) ys h = Gives-bind h.0 λ y r.
      Gives-bind (append-Gives py memory ys y) λ zs e.
        Gives-weaken
          (λ us (rs, k, all).
            (y ∷ rs, k ∙ ap (λ vs. vs ++ rs) e ∙ append_assoc ys (y ∷ []) rs, (r, all)))
          (build-Gives make R xs zs h.1)

  pub note_record-Gives : (n : TickNote) → Gives (λ r. r ≡ note_of n) (note_record py n)
  unfolding note_record
  note_record-Gives n = set_item-Gives py memory n.time λ time e.
      set_item-Gives py memory n.duration λ duration f.
        set_item-Gives py memory n.pitch λ pitch h.
          set_item-Gives py memory n.velocity λ velocity k. gives _ (rw (e, f, h, k) refl)

  tempo_record-Gives : (e : TickTempo) → Gives (λ r. r ≡ tempo_of e) (tempo_record py e)
  unfolding tempo_record
  tempo_record-Gives e = set_item-Gives py memory e.time λ time f.
      set_item-Gives py memory e.microseconds_per_quarter λ mspq h. gives _ (rw (f, h) refl)

  pub control_record-Gives : (e : TickControlChange) → Gives (λ _. Unit {0}) (control_record py e)
  unfolding control_record
  control_record-Gives e = set_item-Gives py memory (control_time e) λ _ _.
      set_item-Gives py memory (control_number e)
        λ _ _. set_item-Gives py memory (control_value e) λ _ _. gives _ tt

  pub bend_record-Gives : (e : TickPitchBend) → Gives (λ _. Unit {0}) (bend_record py e)
  unfolding bend_record
  bend_record-Gives e =
      set_item-Gives py memory e.time λ _ _. set_item-Gives py memory e.value λ _ _. gives _ tt

  pub pedal_record-Gives : (e : TickPedal) → Gives (λ _. Unit {0}) (pedal_record py e)
  unfolding pedal_record
  pedal_record-Gives e =
      set_item-Gives py memory e.time λ _ _. set_item-Gives py memory e.duration λ _ _. gives _ tt

  pub time_signature_record-Gives :
      (e : TickTimeSignature) → Gives (λ _. Unit {0}) (time_signature_record py e)
  unfolding time_signature_record
  time_signature_record-Gives e = set_item-Gives py memory e.time λ _ _.
      set_item-Gives py memory e.numerator
        λ _ _. set_item-Gives py memory e.denominator λ _ _. gives _ tt

  pub key_signature_record-Gives :
      (e : TickKeySignature) → Gives (λ _. Unit {0}) (key_signature_record py e)
  unfolding key_signature_record
  key_signature_record-Gives e = set_item-Gives py memory e.time λ _ _.
      set_item-Gives py memory e.key λ _ _. set_item-Gives py memory e.tonality λ _ _. gives _ tt

  -- A loop over rows of which nothing is asked but that each can be told.
  pub every-Gives :
      {A B : Type 0} (make : A → PyResult B)
      → ((x : A) → Gives (λ _. Unit {0}) (make x))
      → (xs : List A) → Gives (λ _. Unit {0}) (build py make xs [])
  every-Gives make h xs =
      Gives-weaken (λ _ _. tt)
        (build-Gives make (λ _ _. Unit {0}) xs []
          (All-every (λ x. Gives (λ _. Unit {0}) (make x)) h xs))

  pub tempos-Gives :
      (events : List TickTempo)
      → Gives (λ rs. rs ≡ map tempo_of events) (build py (tempo_record py) events [])
  tempos-Gives events =
      Gives-weaken (λ zs (rs, same, all). same ∙ Each-map tempo_of events rs all)
        (build-Gives (tempo_record py) (λ e r. r ≡ tempo_of e) events []
          (All-every (λ e. Gives (λ r. r ≡ tempo_of e) (tempo_record py e)) tempo_record-Gives
            events))

  module _ (from_utf8_lossy : Bytes → Bytes) (score : TickScore) (whole : IsScore score) where
    pub text_of-Gives :
        (range : TextRange)
        → InText (length score.text_data) range
        → Gives (λ _. Unit {0}) (text_of py from_utf8_lossy score range)
    unfolding text_of
    text_of-Gives range inside =
        let (bytes, found, _) = text-InText score range whole inside in
        Gives-bind (or_raise-Gives (Arena.text score range) invalid_text_range bytes found)
          λ _ _. gives _ tt

    text_record-Gives :
        (e : TickText)
        → InText (length score.text_data) e.text
        → Gives (λ _. Unit {0}) (text_record py from_utf8_lossy score e)
    unfolding text_record
    text_record-Gives e inside = set_item-Gives py memory e.time λ _ _.
        Gives-bind (text_of-Gives e.text inside)
          λ found _. set_item-Gives py memory found λ _ _. gives _ tt

    pub texts-Gives :
        (rows : List TickText)
        → All (λ e. InText (length score.text_data) e.text) rows
        → Gives (λ _. Unit {0}) (build py (text_record py from_utf8_lossy score) rows [])
    texts-Gives rows h =
        Gives-weaken (λ _ _. tt)
          (build-Gives _ (λ _ _. Unit {0}) rows []
            (All-map rows (λ e inside. text_record-Gives e inside) h))

    -- A column of a track is there, and its rows are told.
    pub rows-Gives :
        {A B : Type 0} {column : List A} {start len : ℕ} (make : A → PyResult B)
        (o : Option (List A)) (e : PyErr)
        → ((x : A) → Gives (λ _. Unit {0}) (make x))
        → Shows column start len o
        → Gives (λ _. Unit {0}) (or_raise o e >>= λ events. build py make events [])
    rows-Gives make o e h shown =
        let (rows, found, _) = Shows-rows shown in
        Gives-bind (or_raise-Gives o e rows found) λ events _. every-Gives make h events
