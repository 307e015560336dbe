-- ===== src/Player/Safety.antt =====
-- player.c: the commands that a place has, and the run of a command that may move the ship.
use yastg.Prelude.{
  ℕ, List, [], ◌∷◌, Option, none, some, Bool, true, false, ◌&&◌, ◌||◌, Run, ok, fault, null_deref,
  assert_failed, ◌>>=◌, ◌≡◌, ◌≢◌, refl, inl, inr, arith, if◌then◌else◌, Bool-cases, some-injective,
  subst,
}
use yastg.Prelude.Int.{ℤ, pos}
use yastg.Stringtrie.Keys.{same_key}
use yastg.Stringtrie.Upkeep.{IsKept}
use yastg.Stringtrie.Found.{Stored}
use yastg.Cli.Ops.{CliData}
use yastg.Cli.Table.{lookup}
use yastg.Player.Ops.{
  Place, nowhere, in_system, in_port, at_planet, in_ship, Command, help, inventory, quit, look,
  ships, ports, hyper, map, jump, dock, orbit, buy, leave_port, sell, trade, leave_planet, Player,
  Universe, player_go,
}
use yastg.Player.Commands.{
  IsValid, Commands, commands_at, is_end, player_go-IsValid, IsValid-IsReady,
}
use yastg.Prelude.{out_of_bounds}
use yastg.Common.Ops.{str_to_long}
use yastg.Player.Handlers.{is_distance}

abbrev is_system : Place → Bool
is_system (in_system s) = true
is_system _ = false

abbrev is_port : Place → Bool
is_port (in_port p) = true
is_port _ = false

abbrev is_planet : Place → Bool
is_planet (at_planet p) = true
is_planet _ = false

-- The commands that a place has.
abbrev pub fits : Place → Command → Bool
fits place help = true
fits place inventory = true
fits place quit = true
fits place look = true
fits place ships = true
fits place ports = true
fits place hyper = is_system place
fits place map = is_system place
fits place jump = is_system place
fits place orbit = is_system place
fits place dock = is_system place || is_planet place
fits place buy = is_port place
fits place leave_port = is_port place
fits place sell = is_port place
fits place trade = is_port place
fits place leave_planet = is_planet place

-- The commands that move cargo, and the map.
abbrev pub may_fault : Command → Bool
may_fault buy = true
may_fault sell = true
may_fault map = true
may_fault f = false

pub from_system : (place : Place) → is_system place ≡ true → (s : ℕ) × (place ≡ in_system s)
from_system (in_system s) e = (s, refl)
from_system nowhere e = cc
from_system (in_port p) e = cc
from_system (at_planet p) e = cc
from_system (in_ship s) e = cc

pub from_port : (place : Place) → is_port place ≡ true → (p : ℕ) × (place ≡ in_port p)
from_port (in_port s) e = (s, refl)
from_port nowhere e = cc
from_port (in_system p) e = cc
from_port (at_planet p) e = cc
from_port (in_ship s) e = cc

pub from_planet : (place : Place) → is_planet place ≡ true → (p : ℕ) × (place ≡ at_planet p)
from_planet (at_planet s) e = (s, refl)
from_planet nowhere e = cc
from_planet (in_port p) e = cc
from_planet (in_system p) e = cc
from_planet (in_ship s) e = cc

abbrev pub func_fits : Place → Option Command → Bool
func_fits place none = false
func_fits place (some f) = fits place f

abbrev all_fit : Place → Commands → Bool
all_fit place [] = true
all_fit place ((s, d) ∷ l) = func_fits place d.func && all_fit place l

pub lookup-fits :
    (place : Place) (l : Commands) (t : List ℕ) (d : CliData Command (Unit {0}))
    → all_fit place l ≡ true
    → lookup l t ≡ some d
    → func_fits place d.func ≡ true
lookup-fits place [] t d h e = cc
lookup-fits place ((s, x) ∷ l) t d h e = elim (Bool-cases (same_key s t)) [
  | inl k ↦
      let same : x ≡ d = some-injective _ _ (rw (k) at e) in
      subst (λ (y : CliData Command (Unit {0})). func_fits place y.func ≡ true) same (ground arith)
  | inr k ↦ lookup-fits place l t d (ground arith) (rw (k) at e)
]

pub commands_at-fit : (place : Place) → all_fit place (commands_at place) ≡ true
commands_at-fit nowhere = refl
commands_at-fit (in_system s) = refl
commands_at-fit (in_port s) = refl
commands_at-fit (at_planet s) = refl
commands_at-fit (in_ship s) = refl

-- Every port and every planet is in a system, and the names are kept.
pub record IsWorld (u : Universe) : Type 0 where
  pub port_home : (p : ℕ) → u.port_system p ≢ none
  pub planet_home : (p : ℕ) → u.planet_system p ≢ none
  pub systems : IsKept u.systemnames
  pub planets : IsKept u.planetnames
  pub ports : IsKept u.portnames

-- The parameter is a number of light years that a `long` cannot hold in the smaller unit.
abbrev pub IsTooFar : Option (List ℕ) → Type 0
IsTooFar none = ⊥
IsTooFar (some param) = (dist : ℤ) × (str_to_long param ≡ some dist) × (is_distance dist ≡ false)

-- The run of a command ends with a valid player, or reads a NULL pointer in the lookup of a parameter of
-- one character, or multiplies too large a number of light years.
abbrev pub Goes : Option (List ℕ) → Run (ℤ × Player) → Type 0
Goes param (ok (r, p)) = IsValid p
Goes param (fault null_deref) = (c : ℕ) × (param ≡ some (c ∷ []))
Goes param (fault assert_failed) = ⊥
Goes param (fault out_of_bounds) = IsTooFar param

pub going :
    (p : Player) (place : Place) (param : Option (List ℕ))
    → IsValid p
    → is_end place ≡ true
    → Goes param (player_go p place >>= λ p'. ok (pos 0, p'))
going p place param v e =
    let (p', g, _, _, v') = player_go-IsValid p place (IsValid-IsReady p v) e in rw (g) v'

-- A command that looks its parameter up and goes on with what it finds.
pub looking :
    {X : Type 0} (v : List ℕ → Option X) (r : Run (Option X)) (p : Player) (param : Option (List ℕ))
    (go : X → Run (ℤ × Player))
    → Stored param v r
    → IsValid p
    → ((x : X) → Goes param (go x))
    → Goes param (r >>= λ found. elim found [ none ↦ ok (pos 1, p) | some x ↦ go x ])
looking v (ok none) p param go s vp h = vp
looking v (ok (some x)) p param go s vp h = h x
looking v (fault null_deref) p param go s vp h = s
looking v (fault assert_failed) p param go s vp h = s
looking v (fault out_of_bounds) p param go s vp h = absurd s

-- The move is made if a test holds.
pub if_going :
    (b : Bool) (p : Player) (place : Place) (param : Option (List ℕ))
    → IsValid p
    → is_end place ≡ true
    → Goes param (if b then (player_go p place >>= λ p'. ok (pos 0, p')) else ok (pos 1, p))
if_going true p place param v e = going p place param v e
if_going false p place param v e = v
