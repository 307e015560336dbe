-- ===== src/Console/Tests.antt =====
-- A line at the console that comes in two parts.
-- No module can be opened.
use yastg.Console.Lines.{console_main}
use yastg.Console.Safety.{Heard, console_main-Heard}
use yastg.Console.Sound.{Sound}
use yastg.Modules.Ops.{Answers}
use yastg.Prelude.{
  In, List, Returns, [], arith, false, inl, inr, none, refl, subst, sym, true, ℕ, ◌∷◌,
}
use yastg.Server.Ops.{Server}
use yastg.Console.Lines.{console_run}
use yastg.Console.Safety.{Closed}

abbrev answers : List ℕ → Answers
answers name = record {
  dlopen = false;
  dlsym = false;
  get_struct = none;
  stat = none;
  init = false;
}

abbrev arrivals : List (List ℕ)
arrivals = (b'w' ∷ b'a' ∷ []) ∷ (b'l' ∷ b'l' ∷ 32 ∷ b'h' ∷ b'i' ∷ 10 ∷ []) ∷ []

abbrev server : Server
server = record {
  running = true;
  conn_list = record { id = 7; watched = true; terminate = false; sent = [] } ∷ [];
}

arrivals-no_nul : (a : List ℕ) → In a arrivals → ¬ In 0 a
arrivals-no_nul a (inl e) = subst (λ (a : List ℕ). ¬ In 0 a) (sym e) (λ h. ground (arith, h))
arrivals-no_nul a (inr (inl e)) = subst (λ (a : List ℕ). ¬ In 0 a) (sym e) (λ h. ground (arith, h))
arrivals-no_nul a (inr (inr h)) = absurd h

console_main-Heard_example :
    Returns Sound (console_run answers (λ name. true) arrivals)
    × Returns (λ c. Closed c × Heard server c) (console_main answers (λ name. true) arrivals)
console_main-Heard_example =
    console_main-Heard answers (λ name. true) arrivals server arrivals-no_nul refl
