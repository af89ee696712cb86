-- ===== src/Slip/Frame.antt =====
-- SLIP frames, as RFC 1055 has them: what `slip_framer` has to write.
use zephyr_common.Common.{ℕ, List, [], ◌∷◌, ◌++◌, ◌==◌, if◌then◌else◌}
use zephyr_common.Slip.{end_byte, esc_byte, esc_end, esc_esc}

unfoldable pub escape_byte : ℕ → List ℕ
escape_byte c =
    if c == end_byte
    then esc_byte ∷ esc_end ∷ []
    else if c == esc_byte
    then esc_byte ∷ esc_esc ∷ []
    else c ∷ []

unfoldable pub escape : List ℕ → List ℕ
unfolding escape_byte
escape [] = []
escape (c ∷ cs) = escape_byte c ++ escape cs

unfoldable pub frame : List ℕ → List ℕ
frame xs = end_byte ∷ (escape xs ++ end_byte ∷ [])
