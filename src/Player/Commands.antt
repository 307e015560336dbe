-- ===== src/Player/Commands.antt =====
-- player.c: the commands that a player has at each place, under `player_init` and `player_go`.
use yastg.Prelude.{ℕ, List, [], ◌∷◌, some, ◌≡◌, refl, ok, Bool, true, false}
use yastg.Stringtrie.Chars.{crunch}
use yastg.Stringtrie.Kept.{st_init-IsKept}
use yastg.Stringtrie.Ops.{st_init}
use yastg.Stringtrie.Values.{value-empty_root}
use yastg.Cli.Ops.{CliData, trim_and_validate, skip_space, cut_space}
use yastg.Cli.Table.{Table, Holds, erase, cli_add_cmd-Holds, cli_rm_cmd-Holds}
use yastg.Player.Name
use yastg.Player.Ops.{
  Place, nowhere, in_system, in_port, at_planet, in_ship, Command, help, inventory, quit, look,
  ships, ports, hyper, map, jump, dock, orbit, buy, leave_port, sell, trade, leave_planet, Player,
  Cli, assert, add, rm, player_init, player_go, add_commands, forget_commands,
}

abbrev pub Commands : Type 0
Commands = Table (CliData Command (Unit {0}))

abbrev entry : List ℕ → Command → List ℕ × CliData Command (Unit {0})
entry name f = (name, record { func = some f; help = some []; arg = tt })

-- The commands of `player_init`.
abbrev always : Commands
always =
    entry Name.ports ports
    ∷ entry Name.ships ships
    ∷ entry Name.look look
    ∷ entry Name.quit quit
    ∷ entry Name.inventory inventory
    ∷ entry Name.help help
    ∷ []

-- The commands at a place.
abbrev pub commands_at : Place → Commands
commands_at nowhere = always
commands_at (in_system s) =
    entry Name.orbit orbit
    ∷ entry Name.dock dock
    ∷ entry Name.jump jump
    ∷ entry Name.map map
    ∷ entry Name.go hyper
    ∷ always
commands_at (in_port p) =
    entry Name.trade trade
    ∷ entry Name.sell sell
    ∷ entry Name.leave leave_port
    ∷ entry Name.buy buy
    ∷ always
commands_at (at_planet p) = entry Name.leave leave_planet ∷ entry Name.dock dock ∷ always
commands_at (in_ship s) = always

add-Holds :
    {cli : Cli} {l : Commands} (c : ℕ) (cs : List ℕ) (f : Command)
    → Holds cli l
    → trim_and_validate (some (c ∷ cs)) ≡ some (c ∷ cs)
    → Holds (add (c ∷ cs) f cli) (entry (c ∷ cs) f ∷ l)
unfolding add
add-Holds c cs f h e = cli_add_cmd-Holds c cs (some f) tt (some []) h e

rm-Holds :
    {cli : Cli} {l : Commands} (c : ℕ) (cs : List ℕ)
    → Holds cli l
    → Holds (rm (c ∷ cs) cli) (erase (c ∷ cs) l)
unfolding rm
rm-Holds c cs h = cli_rm_cmd-Holds c cs h

names_trimmed : Unit {0}
unfolding trim_and_validate skip_space cut_space
names_trimmed = tt

pub player_init-Holds : Holds player_init always
unfolding player_init names_trimmed st_init
player_init-Holds =
    let nil : Holds st_init [] = record {
      kept = st_init-IsKept (CliData Command (Unit {0}));
      values = value-empty_root;
    } in
    let h1 = add-Holds b'h' _ help nil refl in
    let h2 = add-Holds b'i' _ inventory h1 refl in
    let h3 = add-Holds b'q' _ quit h2 refl in
    let h4 = add-Holds b'l' _ look h3 refl in
    let h5 = add-Holds b's' _ ships h4 refl in add-Holds b'p' _ ports h5 refl

-- The places that `player_go` can take a ship to, and those that it can take it from.
abbrev pub is_end : Place → Bool
is_end (in_system s) = true
is_end (in_port p) = true
is_end (at_planet p) = true
is_end _ = false

abbrev is_start : Place → Bool
is_start (in_ship s) = false
is_start _ = true

forget_commands-Holds :
    (place : Place) (cli : Cli)
    → is_start place ≡ true
    → Holds cli (commands_at place)
    → (cli' : Cli) × (forget_commands place cli ≡ ok cli') × Holds cli' always
unfolding forget_commands crunch
forget_commands-Holds nowhere cli e h = (cli, refl, h)
forget_commands-Holds (in_system s) cli e h =
    (_, refl, rm-Holds _ _ (rm-Holds _ _ (rm-Holds _ _ (rm-Holds _ _ (rm-Holds _ _ h)))))
forget_commands-Holds (in_port p) cli e h =
    (_, refl, rm-Holds _ _ (rm-Holds _ _ (rm-Holds _ _ (rm-Holds _ _ h))))
forget_commands-Holds (at_planet p) cli e h = (_, refl, rm-Holds _ _ (rm-Holds _ _ h))
forget_commands-Holds (in_ship s) cli e h = cc

add_commands-Holds :
    (place : Place) (cli : Cli)
    → is_end place ≡ true
    → Holds cli always
    → (cli' : Cli) × (add_commands place cli ≡ ok cli') × Holds cli' (commands_at place)
unfolding add_commands names_trimmed
add_commands-Holds nowhere cli e h = cc
add_commands-Holds (in_ship s) cli e h = cc
add_commands-Holds (in_system s) cli e h =
    let h1 = add-Holds b'g' _ hyper h refl in
    let h2 = add-Holds b'm' _ map h1 refl in
    let h3 = add-Holds b'j' _ jump h2 refl in
    let h4 = add-Holds b'd' _ dock h3 refl in (_, refl, add-Holds b'o' _ orbit h4 refl)
add_commands-Holds (in_port p) cli e h =
    let h1 = add-Holds b'b' _ buy h refl in
    let h2 = add-Holds b'l' _ leave_port h1 refl in
    let h3 = add-Holds b's' _ sell h2 refl in (_, refl, add-Holds b't' _ trade h3 refl)
add_commands-Holds (at_planet p) cli e h =
    let h1 = add-Holds b'd' _ dock h refl in (_, refl, add-Holds b'l' _ leave_planet h1 refl)

-- Aboard a ship, with the commands of its place.
pub record IsReady (p : Player) : Type 0 where
  pub aboard : p.aboard ≡ true
  pub starts : is_start p.ship ≡ true
  pub offers : Holds p.cli (commands_at p.ship)

-- Moreover the ship is somewhere.
pub record IsValid (p : Player) : Type 0 where
  pub aboard : p.aboard ≡ true
  pub placed : is_end p.ship ≡ true
  pub offers : Holds p.cli (commands_at p.ship)

is_end-start : (place : Place) → is_end place ≡ true → is_start place ≡ true
is_end-start (in_ship s) e = cc
is_end-start nowhere e = refl
is_end-start (in_system s) e = refl
is_end-start (in_port s) e = refl
is_end-start (at_planet s) e = refl

pub IsValid-IsReady : (p : Player) → IsValid p → IsReady p
IsValid-IsReady p v = record {
  aboard = v.aboard;
  starts = is_end-start p.ship v.placed;
  offers = v.offers;
}

-- From a ready player, player_go to a system, port or planet ends without a fault. The ship is then
-- there, what the player trades with is unchanged, and the player is valid: aboard, with exactly
-- the commands of the new place.
pub player_go-IsValid :
    (p : Player) (place : Place)
    → IsReady p
    → is_end place ≡ true
    → (p' : Player) × (player_go p place ≡ ok p')
      × (p'.ship ≡ place)
      × (p'.trader ≡ p.trader)
      × IsValid p'
unfolding player_go assert
player_go-IsValid p place v e =
    let (cli, e1, h1) = forget_commands-Holds p.ship p.cli v.starts v.offers in
    let (cli', e2, h2) = add_commands-Holds place cli e h1 in
    (
      record p { ship = place; cli = cli' },
      rw (v.aboard, e1, e2, player_go, assert) refl,
      refl,
      refl,
      record { aboard = v.aboard; placed = e; offers = h2 },
    )
