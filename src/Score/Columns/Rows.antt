-- ===== src/Score/Columns/Rows.antt =====
-- Rows of bytes: what a row is built from is read back.
use midi.Prelude.{
  ℕ, zero, suc, ◌≡◌, refl, ◌<◌, ◌+◌, ◌/◌, ◌^◌, ◌∙◌, ap, arith, List, [], ◌∷◌, ◌++◌, length, get_or,
  slice, to_le_bytes, from_le_bytes, drop, take-append, drop-append, sym, ◌-◌,
}
use midi.Score.Notes.{note_row, row_time, row_duration, row_pitch, row_velocity}

to_le_bytes-from_le_bytes :
    (width n : ℕ) → n < 256 ^ width → from_le_bytes (to_le_bytes width n) ≡ n
unfolding to_le_bytes from_le_bytes
to_le_bytes-from_le_bytes zero n h = omega arith
to_le_bytes-from_le_bytes (suc width) n h =
    omega (arith, to_le_bytes-from_le_bytes width (n / 256) (omega arith))

length-to_le_bytes : (width n : ℕ) → length (to_le_bytes width n) ≡ width
unfolding to_le_bytes
length-to_le_bytes zero n = refl
length-to_le_bytes (suc width) n = ap suc (length-to_le_bytes width (n / 256))

module _ {ℓ} {A : Type ℓ} where
  slice-first : (n : ℕ) (xs ys : List A) → length xs ≡ n → slice (xs ++ ys) 0 n ≡ xs
  unfolding slice
  slice-first n xs ys h =
      let measured : n - 0 ≡ length xs = omega arith in rw measured (take-append xs ys)

  slice-second :
      (n m : ℕ) (xs ys zs : List A)
      → length xs ≡ n
      → length ys ≡ m
      → slice (xs ++ (ys ++ zs)) n (n + m) ≡ ys
  unfolding slice
  slice-second n m xs ys zs h k =
      let measured : n + m - n ≡ length ys = omega (arith, k) in
      rw (measured, ap (λ i. drop i (xs ++ (ys ++ zs))) (sym h) ∙ drop-append xs (ys ++ zs))
        (take-append ys zs)

  get_or-append :
      (n i : ℕ) (xs ys : List A) (d : A)
      → length xs ≡ n
      → get_or (xs ++ ys) (n + i) d ≡ get_or ys i d
  get_or-append n i [] ys d h = ap (λ j. get_or ys j d) (omega arith)
  get_or-append zero i (x ∷ xs) ys d h = absurd (omega arith)
  get_or-append (suc n) i (x ∷ xs) ys d h =
      let moved : suc n + i ≡ suc (n + i) = omega arith in
      rw moved (get_or-append n i xs ys d (omega arith))

module _ (width time duration pitch velocity : ℕ) where
  pub row_time-note_row :
      time < 256 ^ width → row_time width (note_row width time duration pitch velocity) ≡ time
  unfolding row_time note_row
  row_time-note_row h =
      ap from_le_bytes
        (slice-first width (to_le_bytes width time) _ (length-to_le_bytes width time))
      ∙ to_le_bytes-from_le_bytes width time h

  pub row_duration-note_row :
      duration < 256 ^ width
      → row_duration width (note_row width time duration pitch velocity) ≡ duration
  unfolding row_duration note_row
  row_duration-note_row h =
      ap from_le_bytes (
        slice-second width width (to_le_bytes width time) (to_le_bytes width duration) _
          (length-to_le_bytes width time) (length-to_le_bytes width duration))
      ∙ to_le_bytes-from_le_bytes width duration h

  tail-note_row :
      (i : ℕ)
      → get_or (note_row width time duration pitch velocity) (width + (width + i)) 0
        ≡ get_or (pitch ∷ velocity ∷ []) i 0
  unfolding note_row
  tail-note_row i =
      get_or-append width (width + i) (to_le_bytes width time) _ 0 (length-to_le_bytes width time)
      ∙ get_or-append width i (to_le_bytes width duration) _ 0 (length-to_le_bytes width duration)

  pub row_pitch-note_row : row_pitch width (note_row width time duration pitch velocity) ≡ pitch
  unfolding row_pitch
  row_pitch-note_row =
      let twice : width + width ≡ width + (width + 0) = omega arith in rw twice (tail-note_row 0)

  pub row_velocity-note_row :
      row_velocity width (note_row width time duration pitch velocity) ≡ velocity
  unfolding row_velocity
  row_velocity-note_row =
      let past : width + width + 1 ≡ width + (width + 1) = omega arith in rw past (tail-note_row 1)
