-- ===== src/Python.antt =====
-- The Python module of bindings/python/src/lib.rs: exceptions, and what the functions take from the
-- interpreter. Its children are the two classes.
pub mod Gives
pub mod MidiFile
pub mod Score
pub mod Getters
use midi.Prelude.{ℕ, ◌≡◌, Option, none, some, List, [], ◌∷◌, ◌++◌}
use midi.Result.{ParseError, Result, ok, err, stuck}

-- `PyErr`: the `ValueError`s of the module, which carry the error or the text of their message, and
-- whatever the interpreter raises.
pub data PyErr : Type 0 where
  parse_failed : ParseError → PyErr
  unknown_mode : PyErr
  track_start_too_large : PyErr
  invalid_track_range : PyErr
  invalid_payload_range : PyErr
  invalid_text_range : PyErr
  invalid_note_range : PyErr
  invalid_control_range : PyErr
  invalid_pitch_bend_range : PyErr
  invalid_pedal_range : PyErr
  invalid_lyric_range : PyErr
  interpreter_error : PyErr

-- `PyResult`. `unending` is no Rust value: a loop of the model ran out of fuel.
pub data PyResult {ℓ} (A : Type ℓ) : Type ℓ where
  returned : A → PyResult A
  raised : PyErr → PyResult A
  unending : PyResult A

module _ {ℓ κ} {A : Type ℓ} {B : Type κ} where
  infixl 5 ◌>>=◌
  -- The operator `?`.
  abbrev pub ◌>>=◌ : PyResult A → (A → PyResult B) → PyResult B
  returned a >>= rest = rest a
  raised e >>= rest = raised e
  unending >>= rest = unending

-- `ok_or_else(|| PyValueError::new_err(…))`
abbrev pub or_raise {ℓ} : {A : Type ℓ} → Option A → PyErr → PyResult A
or_raise none e = raised e
or_raise (some a) e = returned a

-- `map(f)` and `map_err(|error| PyValueError::new_err(error.to_string()))`
abbrev pub map_result {ℓ κ} : {A : Type ℓ} {B : Type κ} → (A → B) → Result A → PyResult B
map_result f (ok a) = returned (f a)
map_result f (err e) = raised (parse_failed e)
map_result f stuck = unending

-- What the functions use of PyO3: `PyList::append`, and `PyDict::set_item`, which stores a value under
-- a key. A dict whose keys are fixed is the record of its values.
pub record Interpreter : Type 1 where
  pub append : {A : Type 0} → List A → A → PyResult (List A)
  pub set_item : {A : Type 0} → A → PyResult A

-- An interpreter that has memory: a list grows at its end, and a dict holds what was stored.
pub record HasMemory (py : Interpreter) : Type 1 where
  pub appends : {A : Type 0} (xs : List A) (x : A) → py.append xs x ≡ returned (xs ++ (x ∷ []))
  pub stores : {A : Type 0} (x : A) → py.set_item x ≡ returned x
