-- ===== src/Player/Name.antt =====
-- player.c: the names of the commands.
use yastg.Prelude.{ℕ, List, [], ◌∷◌}

abbrev pub go : List ℕ
go = b'g' ∷ b'o' ∷ []

abbrev pub map : List ℕ
map = b'm' ∷ b'a' ∷ b'p' ∷ []

abbrev pub jump : List ℕ
jump = b'j' ∷ b'u' ∷ b'm' ∷ b'p' ∷ []

abbrev pub dock : List ℕ
dock = b'd' ∷ b'o' ∷ b'c' ∷ b'k' ∷ []

abbrev pub orbit : List ℕ
orbit = b'o' ∷ b'r' ∷ b'b' ∷ b'i' ∷ b't' ∷ []

abbrev pub buy : List ℕ
buy = b'b' ∷ b'u' ∷ b'y' ∷ []

abbrev pub leave : List ℕ
leave = b'l' ∷ b'e' ∷ b'a' ∷ b'v' ∷ b'e' ∷ []

abbrev pub sell : List ℕ
sell = b's' ∷ b'e' ∷ b'l' ∷ b'l' ∷ []

abbrev pub trade : List ℕ
trade = b't' ∷ b'r' ∷ b'a' ∷ b'd' ∷ b'e' ∷ []

abbrev pub help : List ℕ
help = b'h' ∷ b'e' ∷ b'l' ∷ b'p' ∷ []

abbrev pub inventory : List ℕ
inventory = b'i' ∷ b'n' ∷ b'v' ∷ b'e' ∷ b'n' ∷ b't' ∷ b'o' ∷ b'r' ∷ b'y' ∷ []

abbrev pub quit : List ℕ
quit = b'q' ∷ b'u' ∷ b'i' ∷ b't' ∷ []

abbrev pub look : List ℕ
look = b'l' ∷ b'o' ∷ b'o' ∷ b'k' ∷ []

abbrev pub ships : List ℕ
ships = b's' ∷ b'h' ∷ b'i' ∷ b'p' ∷ b's' ∷ []

abbrev pub ports : List ℕ
ports = b'p' ∷ b'o' ∷ b'r' ∷ b't' ∷ b's' ∷ []
