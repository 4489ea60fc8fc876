-- ===== src/Tests/Texts.antt =====
-- Texts that are not UTF-8.
use midi.Score.Lossy.{lossy}
use midi.Prelude.{◌≡◌, refl, ◌+◌, ◌++◌, [], ◌∷◌, Bytes, length, leb, u32_max, if◌then◌else◌}
use midi.Cursor.{new, error}
use midi.Result.{ok, err, size_overflow}
use midi.Score.Limits.{unlimited_policy}
use midi.Score.Text.{push_text, text_loop, from_utf8, utf8_step}
use midi.Score.Texts.{push_text-lossy}

abbrev broken : Bytes
broken = b'a' ∷ 0xff ∷ b'b' ∷ []

push_broken :
    push_text unlimited_policy tt 9 (b'x' ∷ []) broken (new [] 0)
    ≡ ok (record { start = 1; len = 5 }, b'x' ∷ b'a' ∷ 0xef ∷ 0xbf ∷ 0xbd ∷ b'b' ∷ [])
unfolding push_text text_loop from_utf8 utf8_step
push_broken = refl

lossy-broken : lossy broken ≡ b'a' ∷ 0xef ∷ 0xbf ∷ 0xbd ∷ b'b' ∷ []
unfolding lossy utf8_step
lossy-broken = refl

push_text-lossy_example : push_text unlimited_policy tt 9 (b'x' ∷ []) broken (new [] 0) ≡ (
    if leb (1 + length (lossy broken)) u32_max
    then ok (record { start = 1; len = length (lossy broken) }, (b'x' ∷ []) ++ lossy broken)
    else err (error (new [] 0) size_overflow))
push_text-lossy_example = push_text-lossy 9 (b'x' ∷ []) broken (new [] 0)
