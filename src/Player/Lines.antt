-- ===== src/Player/Lines.antt =====
-- player.c, cli.c: the run of a line that a player has entered.
use yastg.Prelude.{
  ℕ, List, [], ◌∷◌, Option, none, some, true, false, Run, ok, fault, null_deref, assert_failed,
  ◌>>=◌, ◌≡◌, refl, inl, inr, ◌⊎◌, Bool-cases, Option-cases, subst,
}
use yastg.Prelude.Int.{ℤ, negsuc}
use yastg.Cli.Ops.{Call, cli_run_cmd}
use yastg.Cli.Lines.{words, Called, cli_run_cmd-Called}
use yastg.Player.Moves.{Ends, trading-Ends, run_command-Goes}
use yastg.Player.Safety.{IsWorld, may_fault, Goes, lookup-fits, commands_at-fit, func_fits}
use yastg.Player.Commands.{IsValid, commands_at}
use yastg.Player.Ops.{
  Universe, Player, Command, help, inventory, quit, look, ships, ports, hyper, map, jump, dock,
  orbit, buy, leave_port, sell, trade, leave_planet,
}
use yastg.Player.Handlers.{run_line, run_command}
use yastg.Prelude.{out_of_bounds}
use yastg.Player.Moves.{map-Ends}
use yastg.Player.Safety.{IsTooFar}

-- What the run of a line comes to: a valid player; or a fault, and then a NULL pointer is read and the
-- line's command or parameter is one character, or the command is `ports` and a product overflows that is the
-- distance in the smaller unit, or the command moves cargo or draws a map.
abbrev pub Played : Player → List ℕ → Run (ℤ × Player) → Type 0
Played p line (ok (r, p')) = IsValid p'
Played p line (fault e) =
    (w : List ℕ × Option (List ℕ)) × (words line ≡ some w)
    × (((e ≡ out_of_bounds) × IsTooFar w.1)
        ⊎ ((e ≡ null_deref) × (c : ℕ) × ((w.0 ≡ c ∷ []) ⊎ (w.1 ≡ some (c ∷ []))))
        ⊎ ((c : Call Command (Unit {0})) × (cli_run_cmd p.cli (some line) ≡ ok (some c))
            × (may_fault c.func ≡ true)))

Goes-Played :
    (p : Player) (line : List ℕ) (w : List ℕ × Option (List ℕ)) (r : Run (ℤ × Player))
    → words line ≡ some w
    → Goes w.1 r
    → Played p line r
Goes-Played p line w (ok r) e h = h
Goes-Played p line w (fault null_deref) e (c, h) = (w, e, inr (inl (refl, c, inr h)))
Goes-Played p line w (fault assert_failed) e h = absurd h
Goes-Played p line w (fault out_of_bounds) e h = (w, e, inl (refl, h))

Ends-Played :
    (p : Player) (line : List ℕ) (w : List ℕ × Option (List ℕ)) (r : Run (ℤ × Player))
    (c : Call Command (Unit {0}))
    → words line ≡ some w
    → cli_run_cmd p.cli (some line) ≡ ok (some c)
    → may_fault c.func ≡ true
    → Ends r
    → Played p line r
Ends-Played p line w (ok r) c e h t v = v
Ends-Played p line w (fault x) c e h t v = (w, e, inr (inr (c, h, t)))

module _ (u : Universe) (world : IsWorld u) where
  trade-Ends :
      (f : Command) (p : Player) (param : Option (List ℕ))
      → IsValid p
      → may_fault f ≡ true
      → Ends (run_command u f p param)
  unfolding run_command
  trade-Ends buy p param v t = trading-Ends u world true p param v
  trade-Ends sell p param v t = trading-Ends u world false p param v
  trade-Ends help p param v t = cc
  trade-Ends inventory p param v t = cc
  trade-Ends quit p param v t = cc
  trade-Ends look p param v t = cc
  trade-Ends ships p param v t = cc
  trade-Ends ports p param v t = cc
  trade-Ends hyper p param v t = cc
  trade-Ends map p param v t = map-Ends u world p v
  trade-Ends jump p param v t = cc
  trade-Ends dock p param v t = cc
  trade-Ends orbit p param v t = cc
  trade-Ends leave_port p param v t = cc
  trade-Ends trade p param v t = cc
  trade-Ends leave_planet p param v t = cc

  Called-Played :
      (p : Player) (line : List ℕ) (w : List ℕ × Option (List ℕ))
      (r : Run (Option (Call Command (Unit {0}))))
      → IsValid p
      → words line ≡ some w
      → cli_run_cmd p.cli (some line) ≡ r
      → Called (commands_at p.ship) (some w) r
      → Played p line (
          r >>= λ call. elim call [
            | none ↦ ok (negsuc 0, p)
            | some c ↦ run_command u c.func p c.param
          ])
  Called-Played p line w (ok none) v e h a = v
  Called-Played p line w (ok (some c)) v e h (q, (t, d, l, f, g)) =
      elim (Bool-cases (may_fault c.func)) [
        | inl b ↦ Ends-Played p line w _ c e h b (trade-Ends c.func p c.param v b)
        | inr b ↦
            let fit : func_fits p.ship d.func ≡ true =
              lookup-fits p.ship (commands_at p.ship) t d (commands_at-fit p.ship) l in
            Goes-Played p line w _ e (
              subst (λ q. Goes q (run_command u c.func p c.param)) q
                (run_command-Goes u world c.func p c.param v
                  (subst (λ f. func_fits p.ship f ≡ true) f fit) b))
      ]
  Called-Played p line w (fault null_deref) v e h (c, a) = (w, e, inr (inl (refl, c, inl a)))
  Called-Played p line w (fault assert_failed) v e h a = absurd a
  Called-Played p line w (fault out_of_bounds) v e h a = absurd a

  pub run_line-Played : (p : Player) (line : List ℕ) → IsValid p → Played p line (run_line u p line)
  unfolding run_line
  run_line-Played p line v = elim (Option-cases (words line)) [
    | inl e ↦ rw (none_called e, run_line) v
    | inr (w, e) ↦ Called-Played p line w (cli_run_cmd p.cli (some line)) v e refl (
        subst (λ o. Called (commands_at p.ship) o (cli_run_cmd p.cli (some line))) e
          (cli_run_cmd-Called line v.offers))
  ]
    where
      none_called : words line ≡ none → cli_run_cmd p.cli (some line) ≡ ok none
      none_called e =
          subst (λ o. Called (commands_at p.ship) o (cli_run_cmd p.cli (some line))) e
            (cli_run_cmd-Called line v.offers)
