-- ===== src/Player/Moves.antt =====
-- player.c: the results of the commands, by the place that the ship is at.
use yastg.Prelude.{
  ℕ, List, Option, Bool, true, false, Run, ok, fault, ◌>>=◌, ◌≡◌, refl, inl, inr, if◌then◌else◌,
  Option-cases, some, ◌≢◌, none,
}
use yastg.Prelude.Int.{ℤ, pos}
use yastg.Stringtrie.Ops.{st_lookup_string}
use yastg.Stringtrie.Values.{value}
use yastg.Stringtrie.Found.{st_lookup_string-Stored}
use yastg.Trade.Ops.{cmd_buy, cmd_sell}
use yastg.Player.Ops.{in_ship, nowhere}
use yastg.Common.Ops.{str_to_long}
use yastg.Player.Ops.{
  Place, in_system, in_port, at_planet, Command, help, inventory, quit, look, ships, ports, hyper,
  map, jump, dock, orbit, buy, leave_port, sell, trade, leave_planet, Player, Universe, assert,
}
use yastg.Player.Handlers.{
  cmd_hyper, cmd_jump, cmd_dock, cmd_orbit, cmd_leave_port, cmd_leave_planet, cmd_trading,
  cmd_ports, cmd_map, cmd_trade, cmd_look, cmd_inventory, current_player_system, radius,
  run_command, system_of, port_of, planet_of, is_linked, can_dock, points_to,
}
use yastg.Player.Commands.{IsValid, is_end}
use yastg.Player.Safety.{
  Goes, IsWorld, fits, may_fault, from_system, from_port, from_planet, going, looking, if_going,
}
use yastg.Common.Ops.{strtol}
use yastg.Player.Handlers.{cmd_show_ships, is_distance}
use yastg.Player.Safety.{IsTooFar}
use yastg.Prelude.{Bool-cases, [], ap, assert_failed, out_of_bounds, some-injective, sym, ◌∙◌, ◌∷◌}
use yastg.Prelude.Int.{◌*ℤ◌}
use yastg.Player.Handlers.{tick_per_ly}
use yastg.Prelude.{◌*◌}
use yastg.Starmap.Drawing.{generate_map}

-- Code behind an assertion that holds.
asserted :
    (b : Bool) (param : Option (List ℕ)) (k : Run (ℤ × Player))
    → b ≡ true
    → Goes param k
    → Goes param (assert b >>= λ a. k)
unfolding assert
asserted true param k e h = h
asserted false param k e h = cc

in_a_system :
    (place : Place) (param : Option (List ℕ)) (k : Run (ℤ × Player))
    → (s : ℕ) × (place ≡ in_system s)
    → Goes param k
    → Goes param (system_of place >>= λ s. k)
unfolding system_of
in_a_system place param k (s, e) h = rw (e, system_of) h

in_a_port :
    (place : Place) (param : Option (List ℕ)) (k : Run (ℤ × Player))
    → (p : ℕ) × (place ≡ in_port p)
    → Goes param k
    → Goes param (port_of place >>= λ p. k)
unfolding port_of
in_a_port place param k (s, e) h = rw (e, port_of) h

-- A run keeps the player valid, where it ends.
abbrev pub Ends : Run (ℤ × Player) → Type 0
Ends (ok (r, p)) = IsValid p
Ends (fault e) = Unit

bind-Ends :
    {X : Type 0} (r : Run X) (k : X → Run (ℤ × Player)) → ((x : X) → Ends (k x)) → Ends (r >>= k)
bind-Ends (ok x) k h = h x
bind-Ends (fault e) k h = tt

module _ (u : Universe) (world : IsWorld u) where
  hyper-Goes :
      (p : Player) (param : Option (List ℕ)) (here : ℕ)
      → IsValid p
      → p.ship ≡ in_system here
      → Goes param (cmd_hyper u p param)
  unfolding cmd_hyper assert system_of
  hyper-Goes p param here v at =
      rw (v.aboard, at, cmd_hyper, assert, system_of)
        (looking (value u.systemnames) (st_lookup_string u.systemnames param) p param _
          (st_lookup_string-Stored u.systemnames param world.systems) v
          (λ system. if_going (is_linked system (u.links here)) p (in_system system) param v refl))

  jump-Goes : (p : Player) (param : Option (List ℕ)) → IsValid p → Goes param (cmd_jump u p param)
  unfolding cmd_jump
  jump-Goes p param v =
      looking (value u.systemnames) (st_lookup_string u.systemnames param) p param _
        (st_lookup_string-Stored u.systemnames param world.systems) v
        (λ system. going p (in_system system) param v refl)

  dock-Goes : (p : Player) (param : Option (List ℕ)) → IsValid p → Goes param (cmd_dock u p param)
  unfolding cmd_dock assert
  dock-Goes p param v =
      rw (v.aboard, cmd_dock, assert)
        (looking (value u.portnames) (st_lookup_string u.portnames param) p param _
          (st_lookup_string-Stored u.portnames param world.ports) v
          (λ port. if_going (can_dock u p.ship port) p (in_port port) param v refl))

  orbit-Goes :
      (p : Player) (param : Option (List ℕ)) (here : ℕ)
      → IsValid p
      → p.ship ≡ in_system here
      → Goes param (cmd_orbit u p param)
  unfolding cmd_orbit assert system_of
  orbit-Goes p param here v at =
      rw (v.aboard, at, cmd_orbit, assert, system_of)
        (looking (value u.planetnames) (st_lookup_string u.planetnames param) p param _
          (st_lookup_string-Stored u.planetnames param world.planets) v
          (λ planet.
            if_going (points_to (u.planet_system planet) here) p (at_planet planet) param v refl))

  leave_port-Goes :
      (p : Player) (param : Option (List ℕ)) (port : ℕ)
      → IsValid p
      → p.ship ≡ in_port port
      → Goes param (cmd_leave_port u p)
  unfolding cmd_leave_port assert port_of
  leave_port-Goes p param port v at = elim (Option-cases (u.port_planet port)) [
    | inr (planet, e) ↦
        rw (v.aboard, at, cmd_leave_port, assert, port_of, e)
          (going p (at_planet planet) param v refl)
    | inl e ↦ elim (Option-cases (u.port_system port)) [
      | inr (system, e') ↦
          rw (v.aboard, at, cmd_leave_port, assert, port_of, e, e')
            (going p (in_system system) param v refl)
      | inl e' ↦ absurd (world.port_home port e')
    ]
  ]

  leave_planet-Goes :
      (p : Player) (param : Option (List ℕ)) (planet : ℕ)
      → IsValid p
      → p.ship ≡ at_planet planet
      → Goes param (cmd_leave_planet u p)
  unfolding cmd_leave_planet assert planet_of
  leave_planet-Goes p param planet v at = elim (Option-cases (u.planet_system planet)) [
    | inr (system, e) ↦
        rw (v.aboard, at, cmd_leave_planet, assert, planet_of, e)
          (going p (in_system system) param v refl)
    | inl e ↦ absurd (world.planet_home planet e)
  ]

  -- The system of a valid player is known.
  known : (p : Player) → IsValid p → (system : ℕ) × (current_player_system u p ≡ ok (some system))
  unfolding current_player_system assert
  known p v = at p.ship refl v.placed
    where
      home : (o : Option ℕ) → o ≢ none → (system : ℕ) × (o ≡ some system)
      home none h = absurd (h refl)
      home (some s) h = (s, refl)

      at :
          (place : Place)
          → p.ship ≡ place
          → is_end place ≡ true
          → (system : ℕ) × (current_player_system u p ≡ ok (some system))
      at (in_system s) e h = (s, rw (v.aboard, e, current_player_system, assert) refl)
      at (in_port port) e h =
          let (s, k) = home (u.port_system port) (world.port_home port) in
          (s, rw (v.aboard, e, current_player_system, assert, k) refl)
      at (at_planet planet) e h =
          let (s, k) = home (u.planet_system planet) (world.planet_home planet) in
          (s, rw (v.aboard, e, current_player_system, assert, k) refl)
      at nowhere e h = cc
      at (in_ship s) e h = cc

  fifty_lem : str_to_long (b'5' ∷ b'0' ∷ []) ≡ some (pos 50)
  unfolding str_to_long strtol
  fifty_lem = refl

  fifty-is_distance : is_distance (pos 50) ≡ true
  unfolding is_distance ◌*ℤ◌
  fifty-is_distance = refl

  too_far :
      (param : Option (List ℕ)) (dist : ℤ)
      → str_to_long (radius u param) ≡ some dist
      → is_distance dist ≡ false
      → IsTooFar param
  too_far none dist k b =
      let e = some-injective _ _ (sym k ∙ fifty_lem) in
      absurd (cc (b, ap is_distance e, fifty-is_distance))
  too_far (some param) dist k b = (dist, k, b)

  ports-Goes : (p : Player) (param : Option (List ℕ)) → IsValid p → Goes param (cmd_ports u p param)
  unfolding cmd_ports
  ports-Goes p param v =
      let (system, e) = known p v in rw (e, cmd_ports) (either (str_to_long (radius u param)) refl)
    where
      either :
          (d : Option ℤ)
          → str_to_long (radius u param) ≡ d
          → Goes param (elim d [
            | none ↦ ok (pos 0, p)
            | some dist ↦ if is_distance dist then ok (pos 0, p) else fault out_of_bounds
          ])
      either none k = v
      either (some dist) k = elim (Bool-cases (is_distance dist)) [
        | inl b ↦ rw b v
        | inr b ↦ rw b (too_far param dist k b)
      ]

  -- In a world where every port is at a planet or in a system and every planet is in a system, a command
  -- that a valid player has at the ship's place, other than buying, selling and the map, ends with a valid player,
  -- or reads a NULL pointer in the lookup of a parameter of one character, or computes too large a distance. It
  -- fails no assertion.
  pub run_command-Goes :
      (f : Command) (p : Player) (param : Option (List ℕ))
      → IsValid p
      → fits p.ship f ≡ true
      → may_fault f ≡ false
      → Goes param (run_command u f p param)
  unfolding run_command cmd_inventory cmd_look cmd_show_ships cmd_trade
  run_command-Goes help p param v e t = v
  run_command-Goes quit p param v e t = v
  run_command-Goes ships p param v e t = somewhere p.ship v.placed
    where
      somewhere :
          (place : Place)
          → is_end place ≡ true
          → Goes param (elim place [
            | in_system s ↦ ok (pos 0, p)
            | in_port port ↦ ok (pos 0, p)
            | at_planet planet ↦ ok (pos 0, p)
            | _ ↦ fault assert_failed
          ])
      somewhere (in_system s) h = v
      somewhere (in_port port) h = v
      somewhere (at_planet planet) h = v
      somewhere nowhere h = cc
      somewhere (in_ship s) h = cc
  run_command-Goes ports p param v e t = ports-Goes p param v
  run_command-Goes inventory p param v e t = asserted p.aboard param _ v.aboard v
  run_command-Goes look p param v e t = asserted p.aboard param _ v.aboard v
  run_command-Goes map p param v e t = cc
  run_command-Goes trade p param v e t =
      asserted p.aboard param _ v.aboard (in_a_port p.ship param _ (from_port p.ship e) v)
  run_command-Goes hyper p param v e t =
      let (s, at) = from_system p.ship e in hyper-Goes p param s v at
  run_command-Goes jump p param v e t = jump-Goes p param v
  run_command-Goes dock p param v e t = dock-Goes p param v
  run_command-Goes orbit p param v e t =
      let (s, at) = from_system p.ship e in orbit-Goes p param s v at
  run_command-Goes leave_port p param v e t =
      let (s, at) = from_port p.ship e in leave_port-Goes p param s v at
  run_command-Goes leave_planet p param v e t =
      let (s, at) = from_planet p.ship e in leave_planet-Goes p param s v at
  run_command-Goes buy p param v e t = cc
  run_command-Goes sell p param v e t = cc

  pub map-Ends : (p : Player) → IsValid p → Ends (cmd_map u p)
  unfolding cmd_map
  map-Ends p v = bind-Ends (assert p.aboard) _ (λ a. bind-Ends (system_of p.ship) _ (λ system.
      bind-Ends
        (generate_map u.sqrt u.rb_next u.space u.system_name (80 * 50) system (50 * tick_per_ly) 71)
        _ (λ buf. v)))

  pub trading-Ends :
      (buying : Bool) (p : Player) (param : Option (List ℕ))
      → IsValid p
      → Ends (cmd_trading u buying p param)
  unfolding cmd_trading
  trading-Ends buying p param v = bind-Ends (assert p.aboard) _ (λ a.
      bind-Ends (port_of p.ship) _ (λ port.
        bind-Ends ((if buying then cmd_buy else cmd_sell) (u.item_names port) p.trader param) _
          (λ t. record { aboard = v.aboard; placed = v.placed; offers = v.offers })))
