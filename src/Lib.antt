-- ===== src/Lib.antt =====
-- The parsers of Standard MIDI Files in crates/miso-midi-core/src/lib.rs.
--
-- The crate has three parsers over one byte cursor. `scan_smf` walks a file and counts what it
-- holds. `parse_smf` scans first and then copies every event into an arena of tracks, events and
-- payload bytes. `parse_score_smf` decodes a file straight into a score: notes with durations,
-- controls, pedals, texts and global events, in columns that the tracks of the score share; its
-- variants add ceilings (`parse_score_smf_with_limits`) and a grammar
-- (`parse_score_smf_with_options`).
--
-- The files:
--   Prelude      library names, Boolean tests, native lists, machine words.
--   Result       ParseErrorKind, ParseError, the result of a fallible function. Its children have
--                the rules that proofs compose: what a result ensures, two results in lockstep.
--   Cursor       Cursor and all its methods; Cursor.Bounds for where a cursor can stand, Cursor.Vlq
--                for the variable-length quantities.
--   Smf          the header, the chunk tags and the status byte, which each parser decodes alike.
--   Scan         scan_smf, scan_track, scan_channel_data; ScanSummary.
--   Owned        parse_smf, parse_track, read_channel_data, push_variable_event; OwnedSmf, its
--                views track_events and event_data.
--   Score        Limits (limits, policies, grammars), Types (the values of a score), Notes
--                (NarrowNoteRow, WideNoteRow, NoteColumnsBuilder, NoteSegment), Arena (TickScore
--                and its views, append_column), Text (push_text), Builder (ScoreTrackBuilder),
--                Semantics (ScoreTrackSemantics, validate_score_meta, handle_end_of_track,
--                validate_strict_division), Parse (parse_score_track, parse_score_smf_impl and
--                the three public functions). Score.Budget compares a bounded run with the
--                unlimited one; Score.Columns reads the note columns as a list of slots;
--                Score.Slots, Score.Texts, Score.Division and Score.Order are about the packed
--                open notes, push_text, validate_strict_division and the global events.
--                Score.Lossy says in one pass what push_text appends, on the facts of Score.Utf8.
--                Score.Strict is what the strict mode refuses.
--                Score.Grammar compares the strict grammar with the others; Score.Ranges is what
--                the ranges of a parsed score mean, and what its views give; Score.Total shows that
--                the fuel is enough, with Score.Bits on the set of a channel's programs.
--                Score.Ceilings is what the limits of a bounded parse mean for the score.
--   Python       bindings/python/src/lib.rs: MidiFile and Score with their parsers, and the records
--                that semantic_records builds of them; the getters.
--   Tests        runs on small files, and the theorems at concrete inputs.
--
-- Conventions. A function that takes `&mut self` returns the new value beside its result. `?` is the
-- bind of Result. Integers are native numbers with their bounds written out; a `usize` has 64 bits,
-- so `usize::try_from` of a u32 cannot fail, and is still translated. A `Vec` and a slice are the
-- list of their elements. A loop over a cursor takes fuel, the number of bytes that remain, because
-- every round consumes at least one; a loop that runs out of fuel is `stuck`, a third result that
-- no function of the source has. The loop of push_text has one round for each byte and one more,
-- the loop over the programs of a channel has 128, one for each bit. In the bindings PyO3 is an
-- interface, of which PyList::append and PyDict::set_item are used; a dict whose keys are fixed is the
-- record of its values, and String::from_utf8_lossy is a parameter.
--
-- Not modelled: the texts of the errors, heap_bytes and capacities, which depend on the allocator;
-- the lazy cache behind TickScore::notes, which is the function that fills it; size hints; in the
-- bindings __repr__ and the registration of the module; the benchmark and the fuzz
-- targets, which call the crate.
pub mod Prelude
pub mod Result
pub mod Cursor
pub mod Smf
pub mod Scan
pub mod Owned
pub mod Score
pub mod Python
mod Tests
