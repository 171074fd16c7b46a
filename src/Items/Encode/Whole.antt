-- ===== src/Items/Encode/Whole.antt =====
-- The loop of secs_encode() gives the bytes of the items that the tokens write.
use sc_open.Prelude.{ℕ, suc}
use sc_open.Items.Encode.Print.{Values, Sml, finish, nested, leaf}

-- The fuel of the rounds on the tokens; a '>' has its own.
unfoldable spend : Sml → ℕ → ℕ
spend finish fuel = fuel
spend (nested items rest) fuel = suc (suc (spend items (suc (spend rest fuel))))
spend (leaf v rest) fuel = suc (suc (suc (spend rest fuel)))
