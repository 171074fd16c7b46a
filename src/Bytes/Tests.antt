-- ===== src/Bytes/Tests.antt =====
-- The theorems on byte orders at concrete inputs.
use sc_open.Prelude.{ℕ, ◌≡◌, refl, List, [], ◌∷◌}
use sc_open.Bytes.{to_wire}

to_wire_run : to_wire 4 0x01020304 ≡ 1 ∷ 2 ∷ 3 ∷ 4 ∷ []
unfolding to_wire
to_wire_run = refl

abbrev four : List ℕ
four = 0x12 ∷ 0 ∷ 0xFF ∷ 7 ∷ []
