-- ===== src/Cli/Tests.antt =====
-- The command interpreter on concrete lines.
use yastg.Prelude.{ℕ, List, [], ◌∷◌, none, some, refl}
use yastg.Stringtrie.Ops.{st_init}
use yastg.Stringtrie.Node.{Root}
use yastg.Stringtrie.Kept.{st_init-IsKept}
use yastg.Stringtrie.Values.{value-empty_root}
use yastg.Cli.Ops.{CliData, cli_add_cmd, cli_run_cmd, trim_and_validate, skip_space, cut_space}
use yastg.Cli.Table.{Table, Holds, cli_add_cmd-Holds}
use yastg.Cli.Calls.{Understood, cli_run_cmd-Understood}

abbrev empty : Root (CliData ℕ ℕ)
empty = st_init

nothing : Holds empty []
unfolding st_init
nothing = record { kept = st_init-IsKept (CliData ℕ ℕ); values = value-empty_root }

abbrev go : List ℕ
go = b'g' ∷ b'o' ∷ []

abbrev with_go : Root (CliData ℕ ℕ)
with_go = (cli_add_cmd empty (some go) (some 1) 2 none).1

abbrev table : Table (CliData ℕ ℕ)
table = (go, record { func = some 1; help = none; arg = 2 }) ∷ []

cli_add_cmd-Holds_example : Holds with_go table
unfolding trim_and_validate skip_space cut_space
cli_add_cmd-Holds_example = cli_add_cmd-Holds b'g' (b'o' ∷ []) (some 1) 2 none nothing refl

with_go-Holds : Holds with_go table
unfolding trim_and_validate skip_space cut_space
with_go-Holds = cli_add_cmd-Holds b'g' (b'o' ∷ []) (some 1) 2 none nothing refl

-- "go x"
abbrev line : List ℕ
line = b'g' ∷ b'o' ∷ 32 ∷ b'x' ∷ []

cli_run_cmd-Understood_example : Understood table line (cli_run_cmd with_go (some line))
cli_run_cmd-Understood_example = cli_run_cmd-Understood line with_go-Holds
