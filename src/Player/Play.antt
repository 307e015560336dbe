-- ===== src/Player/Play.antt =====
-- player.c, connection.c: the players that a game comes to, line after line.
use yastg.Prelude.{ℕ, List, Run, ok, fault, ◌≡◌, refl}
use yastg.Prelude.Int.{ℤ}
use yastg.Trade.Ops.{Store}
use yastg.Player.Ops.{Universe, Player, in_system, conn_fulfixinit, new_player}
use yastg.Player.Handlers.{run_line}
use yastg.Player.Commands.{IsValid, player_init-Holds, player_go-IsValid}

-- A player who has entered, and then had lines run that ended without a fault.
pub data Reached (u : Universe) : Player → Type 0 where
  entered :
      (system : ℕ) (store : Store) (p : Player) → conn_fulfixinit system store ≡ ok p → Reached u p
  ran :
      (p p' : Player) (line : List ℕ) (r : ℤ)
      → Reached u p
      → run_line u p line ≡ ok (r, p')
      → Reached u p'

pub conn_fulfixinit-IsValid :
    (system : ℕ) (store : Store)
    → (p : Player) × (conn_fulfixinit system store ≡ ok p) × (p.ship ≡ in_system system) × IsValid p
unfolding conn_fulfixinit
conn_fulfixinit-IsValid system store =
    let (p, e, at, _, v) =
      player_go-IsValid (new_player store) (in_system system)
        (record { aboard = refl; starts = refl; offers = player_init-Holds }) refl in
    (p, e, at, v)

abbrev Valid : Run Player → Type 0
Valid (ok p) = IsValid p
Valid (fault e) = Unit
