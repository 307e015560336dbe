-- ===== src/Player/Handlers.antt =====
-- player.c: the commands that move the ship or trade, and the run of a line that a player has entered.
use yastg.Prelude.{
  ℕ, List, [], ◌∷◌, Option, none, some, Bool, true, false, ◌==◌, if◌then◌else◌, Run, ok, fault,
  assert_failed, null_deref, ◌>>=◌,
}
use yastg.Prelude.Int.{ℤ, pos, negsuc}
use yastg.Stringtrie.Ops.{st_lookup_string}
use yastg.Cli.Ops.{cli_run_cmd}
use yastg.Trade.Ops.{cmd_buy, cmd_sell}
use yastg.Common.Ops.{str_to_long}
use yastg.Player.Ops.{
  Place, in_system, in_port, at_planet, Command, help, inventory, quit, look, ships, ports, hyper,
  map, jump, dock, orbit, buy, leave_port, sell, trade, leave_planet, Universe, Player, assert,
  player_go,
}
use yastg.Prelude.{out_of_bounds, ◌&&◌}
use yastg.Prelude.Int.{leb_ℤ, long_max, long_min, ◌*ℤ◌}
use yastg.Cli.Lines.{call}
use yastg.Starmap.Drawing.{generate_map}
use yastg.Prelude.{◌*◌}

-- `ship->pos` where `assert(ship->postype == SYSTEM)` holds, and likewise for PORT and PLANET
unfoldable pub system_of : Place → Run ℕ
system_of (in_system s) = ok s
system_of _ = fault assert_failed

unfoldable pub port_of : Place → Run ℕ
port_of (in_port p) = ok p
port_of _ = fault assert_failed

unfoldable pub planet_of : Place → Run ℕ
planet_of (at_planet p) = ok p
planet_of _ = fault assert_failed

-- The loop over `pos->links`.
unfoldable pub is_linked : ℕ → List ℕ → Bool
is_linked system [] = false
is_linked system (t ∷ links) = if t == system then true else is_linked system links

-- An optional pointer is this one.
unfoldable pub points_to : Option ℕ → ℕ → Bool
points_to none x = false
points_to (some y) x = y == x

abbrev pub tick_per_ly : ℕ
tick_per_ly = 10000

-- A number of light years is a `long` of the smaller unit.
unfoldable pub is_distance : ℤ → Bool
is_distance dist =
    leb_ℤ long_min (dist *ℤ pos tick_per_ly) && leb_ℤ (dist *ℤ pos tick_per_ly) long_max

module _ (u : Universe) where
  unfoldable pub cmd_hyper : Player → Option (List ℕ) → Run (ℤ × Player)
  unfolding assert system_of is_linked
  cmd_hyper p param = do
    a ← assert p.aboard
    here ← system_of p.ship
    found ← st_lookup_string u.systemnames param
    elim found [
      | none ↦ ok (pos 1, p)
      | some system ↦
          if is_linked system (u.links here)
          then (do p' ← player_go p (in_system system); ok (pos 0, p'))
          else ok (pos 1, p)
    ]

  unfoldable pub cmd_jump : Player → Option (List ℕ) → Run (ℤ × Player)
  cmd_jump p param = do
    found ← st_lookup_string u.systemnames param
    elim found [
      | none ↦ ok (pos 1, p)
      | some system ↦ do p' ← player_go p (in_system system); ok (pos 0, p')
    ]

  -- The test of `cmd_dock`: a port of the planet or of the system that the ship is at.
  unfoldable pub can_dock : Place → ℕ → Bool
  unfolding points_to
  can_dock (at_planet planet) port = points_to (u.port_planet port) planet
  can_dock (in_system system) port = points_to (u.port_system port) system
  can_dock _ port = false

  unfoldable pub cmd_dock : Player → Option (List ℕ) → Run (ℤ × Player)
  unfolding assert can_dock
  cmd_dock p param = do
    a ← assert p.aboard
    found ← st_lookup_string u.portnames param
    elim found [
      | none ↦ ok (pos 1, p)
      | some port ↦
          if can_dock p.ship port
          then (do p' ← player_go p (in_port port); ok (pos 0, p'))
          else ok (pos 1, p)
    ]

  unfoldable pub cmd_orbit : Player → Option (List ℕ) → Run (ℤ × Player)
  unfolding assert system_of points_to
  cmd_orbit p param = do
    a ← assert p.aboard
    system ← system_of p.ship
    found ← st_lookup_string u.planetnames param
    elim found [
      | none ↦ ok (pos 1, p)
      | some planet ↦
          if points_to (u.planet_system planet) system
          then (do p' ← player_go p (at_planet planet); ok (pos 0, p'))
          else ok (pos 1, p)
    ]

  unfoldable pub cmd_leave_port : Player → Run (ℤ × Player)
  unfolding assert port_of
  cmd_leave_port p = do
    a ← assert p.aboard
    port ← port_of p.ship
    elim (u.port_planet port) [
      | some planet ↦ do p' ← player_go p (at_planet planet); ok (pos 0, p')
      | none ↦ elim (u.port_system port) [
        | some system ↦ do p' ← player_go p (in_system system); ok (pos 0, p')
        | none ↦ fault assert_failed
      ]
    ]

  unfoldable pub cmd_leave_planet : Player → Run (ℤ × Player)
  unfolding assert planet_of
  cmd_leave_planet p = do
    a ← assert p.aboard
    planet ← planet_of p.ship
    elim (u.planet_system planet) [
      | none ↦ fault assert_failed
      | some system ↦ do p' ← player_go p (in_system system); ok (pos 0, p')
    ]

  -- `cmd_buy` and `cmd_sell` from the port that the ship is docked at
  unfoldable pub cmd_trading : Bool → Player → Option (List ℕ) → Run (ℤ × Player)
  unfolding assert port_of
  cmd_trading buying p param = do
    a ← assert p.aboard
    port ← port_of p.ship
    t ← (if buying then cmd_buy else cmd_sell) (u.item_names port) p.trader param
    ok (pos 0, record p { trader = t })

  -- A player who is not aboard has no position here: only a fresh player is not.
  unfoldable pub current_player_system : Player → Run (Option ℕ)
  unfolding assert
  current_player_system p = do
    a ← assert p.aboard
    elim p.ship [
      | in_system s ↦ ok (some s)
      | in_port port ↦ ok (u.port_system port)
      | at_planet planet ↦ ok (u.planet_system planet)
      | _ ↦ fault assert_failed
    ]

  -- `param ? param : DEF_PORT_RADIUS`
  abbrev pub radius : Option (List ℕ) → List ℕ
  radius none = b'5' ∷ b'0' ∷ []
  radius (some param) = param

  -- The product may overflow. `get_neighbouring_ports` reads from the system.
  unfoldable pub cmd_ports : Player → Option (List ℕ) → Run (ℤ × Player)
  unfolding current_player_system str_to_long is_distance
  cmd_ports p param = do
    origin ← current_player_system p
    elim (str_to_long (radius param)) [
      | none ↦ ok (pos 0, p)
      | some dist ↦
          if is_distance dist
          then elim origin [ none ↦ fault null_deref | some system ↦ ok (pos 0, p) ]
          else fault out_of_bounds
    ]

  unfoldable pub cmd_map : Player → Run (ℤ × Player)
  unfolding assert system_of generate_map
  cmd_map p = do
    a ← assert p.aboard
    system ← system_of p.ship
    buf ← generate_map u.sqrt u.rb_next u.space u.system_name (80 * 50) system (50 * tick_per_ly) 71
    ok (pos 0, p)

  -- The player has one ship; a ship that is elsewhere is a `bug`.
  unfoldable pub cmd_show_ships : Player → Run (ℤ × Player)
  cmd_show_ships p = elim p.ship [
    | in_system s ↦ ok (pos 0, p)
    | in_port port ↦ ok (pos 0, p)
    | at_planet planet ↦ ok (pos 0, p)
    | _ ↦ fault assert_failed
  ]

  unfoldable pub cmd_trade : Player → Run (ℤ × Player)
  unfolding assert port_of
  cmd_trade p = do a ← assert p.aboard; port ← port_of p.ship; ok (pos 0, p)

  unfoldable pub cmd_look : Player → Run (ℤ × Player)
  unfolding assert
  cmd_look p = do a ← assert p.aboard; ok (pos 0, p)

  unfoldable pub cmd_inventory : Player → Run (ℤ × Player)
  unfolding assert
  cmd_inventory p = do a ← assert p.aboard; ok (pos 0, p)

  -- `node->func(node->data, param)`. The commands that only print leave the player as it is.
  unfoldable pub run_command : Command → Player → Option (List ℕ) → Run (ℤ × Player)
  run_command help p param = ok (pos 0, p)
  run_command quit p param = ok (pos 0, p)
  run_command ships p param = cmd_show_ships p
  run_command ports p param = cmd_ports p param
  run_command inventory p param = cmd_inventory p
  run_command look p param = cmd_look p
  run_command map p param = cmd_map p
  run_command trade p param = cmd_trade p
  run_command hyper p param = cmd_hyper p param
  run_command jump p param = cmd_jump p param
  run_command dock p param = cmd_dock p param
  run_command orbit p param = cmd_orbit p param
  run_command leave_port p param = cmd_leave_port p
  run_command leave_planet p param = cmd_leave_planet p
  run_command buy p param = cmd_trading true p param
  run_command sell p param = cmd_trading false p param

  -- `cli_run_cmd(&player->cli, line)`
  unfoldable pub run_line : Player → List ℕ → Run (ℤ × Player)
  run_line p line = do
    call ← cli_run_cmd p.cli (some line)
    elim call [ none ↦ ok (negsuc 0, p) | some c ↦ run_command c.func p c.param ]
