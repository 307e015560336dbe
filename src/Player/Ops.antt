-- ===== src/Player/Ops.antt =====
-- player.c, player.h, ship.h: the player, `player_init`, `player_go`, and the commands. What a command
-- prints is left out. Systems, ports and planets are numbers; the universe, which no command changes, is
-- a record of what the commands read.
use yastg.Prelude.{
  ℕ, List, [], Option, some, Bool, true, false, Run, ok, fault, assert_failed, ◌>>=◌,
}
use yastg.Prelude.Int.{pos}
use yastg.Stringtrie.Node.{Root}
use yastg.Stringtrie.Ops.{st_init}
use yastg.Cli.Ops.{CliData, cli_add_cmd, cli_rm_cmd}
use yastg.Player.Name
use yastg.Trade.Ops.{Trader, Store}
use yastg.Prelude.Int.{ℤ}
use yastg.Universe.Ops.{Space, Tree}

-- `enum postype` with the pointer that it tells the type of
pub data Place : Type 0 where
  nowhere : Place
  in_system in_port at_planet in_ship : ℕ → Place

-- The functions that a player's commands call.
pub data Command : Type 0 where
  help inventory quit look ships ports hyper map jump dock orbit buy leave_port sell trade
        leave_planet :
      Command

-- `space` has the positions and the tree of the systems; `sqrt` and `rb_next` are as in the lookup of neighbours.
pub record Universe : Type 0 where
  pub links : ℕ → List ℕ
  pub port_planet : ℕ → Option ℕ
  pub port_system : ℕ → Option ℕ
  pub planet_system : ℕ → Option ℕ
  pub systemnames : Root ℕ
  pub planetnames : Root ℕ
  pub portnames : Root ℕ
  pub item_names : ℕ → Root ℕ
  pub space : Space
  pub system_name : ℕ → List ℕ
  pub sqrt : ℤ → ℤ → ℕ
  pub rb_next : ℕ → Tree → Option ℕ

-- `struct player` and the ship that `pos` points to. `aboard` says that `postype` is SHIP.
pub record Player : Type 0 where
  pub aboard : Bool
  pub ship : Place
  pub cli : Root (CliData Command (Unit {0}))
  pub trader : Trader

abbrev pub Cli : Type 0
Cli = Root (CliData Command (Unit {0}))

-- One `cli_add_cmd` of this file; its result is not looked at.
unfoldable pub add : List ℕ → Command → Cli → Cli
add name f cli = (cli_add_cmd cli (some name) (some f) tt (some [])).1

-- One `cli_rm_cmd`.
unfoldable pub rm : List ℕ → Cli → Cli
rm name cli = (cli_rm_cmd cli (some name)).1

-- The first `switch` of `player_go`.
unfoldable pub forget_commands : Place → Cli → Run Cli
unfolding rm
forget_commands (in_system s) cli =
    ok (rm Name.orbit (rm Name.dock (rm Name.jump (rm Name.map (rm Name.go cli)))))
forget_commands (in_port p) cli =
    ok (rm Name.trade (rm Name.sell (rm Name.leave (rm Name.buy cli))))
forget_commands (at_planet p) cli = ok (rm Name.leave (rm Name.dock cli))
forget_commands nowhere cli = ok cli
forget_commands (in_ship s) cli = fault assert_failed

-- The second.
unfoldable pub add_commands : Place → Cli → Run Cli
unfolding add
add_commands (in_system s) cli = ok (
    add Name.orbit orbit
      (add Name.dock dock (add Name.jump jump (add Name.map map (add Name.go hyper cli)))))
add_commands (in_port p) cli =
    ok
      (add Name.trade trade (add Name.sell sell (add Name.leave leave_port (add Name.buy buy cli))))
add_commands (at_planet p) cli = ok (add Name.leave leave_planet (add Name.dock dock cli))
add_commands nowhere cli = fault assert_failed
add_commands (in_ship s) cli = fault assert_failed

-- `assert`
unfoldable pub assert : Bool → Run (Unit {0})
assert true = ok tt
assert false = fault assert_failed

-- `player_go`. `ship_go` always succeeds, and `cmd_look` only prints.
unfoldable pub player_go : Player → Place → Run Player
unfolding forget_commands add_commands assert
player_go p place = do
  u ← assert p.aboard
  cli ← forget_commands p.ship p.cli
  cli' ← add_commands place cli
  ok (record p { ship = place; cli = cli' })

-- `player_init`: the commands that a player always has.
unfoldable pub player_init : Cli
unfolding add
player_init = add Name.ports ports (
    add Name.ships ships (
      add Name.look look
        (add Name.quit quit (add Name.inventory inventory (add Name.help help st_init)))))

-- `conn_fulfixinit` up to `player_go`: a new player, whose ship is nowhere yet and empty.
abbrev pub new_player : Store → Player
new_player store = record {
  aboard = true;
  ship = nowhere;
  cli = player_init;
  trader = record {
    store = store;
    ship = record { list = []; names = st_init };
    credits = pos 100000;
  };
}

-- `conn_fulfixinit`, with the first system of the universe
unfoldable pub conn_fulfixinit : ℕ → Store → Run Player
unfolding player_go
conn_fulfixinit system store = player_go (new_player store) (in_system system)
