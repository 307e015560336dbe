-- ===== src/Player/Tests.antt =====
-- A small world, and the theorems about players in it.
use yastg.Universe.Tests.{next, sqrt, three}
use yastg.Prelude.{ℕ, List, [], ◌∷◌, some, ok, ◌≡◌, refl, if◌then◌else◌, ◌==◌}
use yastg.Prelude.Int.{pos}
use yastg.Stringtrie.Node.{Root}
use yastg.Stringtrie.Ops.{st_init, st_add_string}
use yastg.Trade.Ops.{Store, fresh_cargo}
use yastg.Player.Ops.{Universe, Player, in_port, player_go}
use yastg.Player.Commands.{IsValid, player_go-IsValid, IsValid-IsReady}
use yastg.Player.Play.{conn_fulfixinit-IsValid}

abbrev sol : List ℕ
sol = b's' ∷ b'o' ∷ b'l' ∷ []

abbrev alfa : List ℕ
alfa = b'a' ∷ b'l' ∷ b'f' ∷ b'a' ∷ []

abbrev tellus : List ℕ
tellus = b't' ∷ b'e' ∷ b'l' ∷ b'l' ∷ b'u' ∷ b's' ∷ []

abbrev harbour : List ℕ
harbour = b'h' ∷ b'a' ∷ b'r' ∷ b'b' ∷ b'o' ∷ b'u' ∷ b'r' ∷ []

abbrev named : List ℕ → Root ℕ
named name = (st_add_string st_init (some name) (some 0)).1

-- Systems 0 and 1 are linked; every port is at planet 0, which is in system 0.
abbrev world : Universe
world = record {
  links = λ s. if s == 0 then 1 ∷ [] else 0 ∷ [];
  port_planet = λ p. some 0;
  port_system = λ p. some 0;
  planet_system = λ p. some 0;
  systemnames = (st_add_string (named sol) (some alfa) (some 1)).1;
  planetnames = named tellus;
  portnames = named harbour;
  item_names = λ p. st_init;
  space = three;
  system_name = λ s. if s == 0 then sol else alfa;
  sqrt = sqrt;
  rb_next = next;
}

abbrev store : Store
store = record {
  cargo = λ c. fresh_cargo (record { name = []; weight = pos 0; base_price = pos 0 });
  next = 0;
}

-- "dock harbour"
abbrev line : List ℕ
line = b'd' ∷ b'o' ∷ b'c' ∷ b'k' ∷ 32 ∷ harbour

abbrev visitor : Player
visitor = (conn_fulfixinit-IsValid 0 store).0

visitor-IsValid : IsValid visitor
visitor-IsValid = let (p, e, at, v) = conn_fulfixinit-IsValid 0 store in v

player_go-IsValid_example :
    (p : Player) × (player_go visitor (in_port 0) ≡ ok p)
    × (p.ship ≡ in_port 0)
    × (p.trader ≡ visitor.trader)
    × IsValid p
player_go-IsValid_example =
    player_go-IsValid visitor (in_port 0) (IsValid-IsReady visitor visitor-IsValid) refl
