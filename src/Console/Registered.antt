-- ===== src/Console/Registered.antt =====
-- console.c: the commands once they are registered.
use yastg.Console.Lines.{
  ConsoleFunc, Console, console_commands, add_commands, register_console_commands,
}
use yastg.Cli.Ops.{CliData, cli_add_cmd, trim_and_validate}
use yastg.Cli.Table.{Table, Holds, cli_add_cmd-Holds}
use yastg.Config.Lookups.{st_add_string-IsLive}
use yastg.Player.Name.{help}
use yastg.Prelude.{List, [], refl, some, true, ℕ, ◌∷◌, ◌≡◌}
use yastg.Stringtrie.Live.{IsLive}
use yastg.Stringtrie.Node.{Root}
use yastg.Prelude.Int.{pos}
use yastg.Stringtrie.Ops.{st_init}
use yastg.Config.Lookups.{st_init-IsLive}
use yastg.Prelude.{ap, if◌then◌else◌, none}
use yastg.Stringtrie.Kept.{st_init-IsKept}
use yastg.Stringtrie.Ops.{st_add_string}
use yastg.Stringtrie.Values.{value-empty_root}

abbrev pub Commands : Type 0
Commands = List (List ℕ × (ConsoleFunc × List ℕ))

-- The commands in a table, the last in front.
abbrev pub table_of :
    Commands → Table (CliData ConsoleFunc (Unit {0})) → Table (CliData ConsoleFunc (Unit {0}))
table_of [] l = l
table_of ((name, (func, help)) ∷ commands) l =
    table_of commands ((name, record { func = some func; help = some help; arg = tt }) ∷ l)

-- Names that trimming leaves as they are.
abbrev Trimmed : Commands → Type 0
Trimmed [] = Unit
Trimmed (([], rest) ∷ commands) = ⊥
Trimmed ((c ∷ cs, rest) ∷ commands) =
    (trim_and_validate (some (c ∷ cs)) ≡ some (c ∷ cs)) × Trimmed commands

console_commands-Trimmed : Trimmed console_commands
unfolding trim_and_validate
console_commands-Trimmed =
    ((
      refl,
      (
        refl,
        (
          refl,
          (
            refl,
            (refl, (refl, (refl, (refl, (refl, (refl, (refl, (refl, (refl, (refl, tt)))))))))),
          ),
        ),
      ),
    ))

-- The tree holds the table, and names were only added to it.
abbrev pub Registered :
    Table (CliData ConsoleFunc (Unit {0})) → Root (CliData ConsoleFunc (Unit {0})) → Type 0
Registered l root = IsLive root × Holds root l

added_command :
    (root : Root (CliData ConsoleFunc (Unit {0}))) (c : ℕ) (cs : List ℕ) (func : ConsoleFunc)
    (help : List ℕ)
    → trim_and_validate (some (c ∷ cs)) ≡ some (c ∷ cs)
    → let r = cli_add_cmd root (some (c ∷ cs)) (some func) tt (some help) in
      (r.0 ≡ pos 0) × (IsLive root → IsLive r.1)
unfolding cli_add_cmd st_add_string
added_command root c cs func help k =
    rw (k, cli_add_cmd) (refl, st_add_string-IsLive root (some (c ∷ cs)) _)

add_commands-Registered :
    (commands : Commands) (root : Root (CliData ConsoleFunc (Unit {0})))
    (l : Table (CliData ConsoleFunc (Unit {0})))
    → Trimmed commands
    → Registered l root
    → ((add_commands commands root).0 ≡ true)
      × Registered (table_of commands l) (add_commands commands root).1
unfolding add_commands
add_commands-Registered [] root l t h = (refl, h)
add_commands-Registered (([], rest) ∷ commands) root l t h = absurd t
add_commands-Registered ((c ∷ cs, (func, help)) ∷ commands) root l (k, t) (live, h) =
    let root' = (cli_add_cmd root (some (c ∷ cs)) (some func) tt (some help)).1 in
    let added = added_command root c cs func help k in
    rw (added.0) (
      add_commands-Registered commands root' _ t
        (added.1 live, cli_add_cmd-Holds c cs (some func) tt (some help) h k))

init-Registered : Registered [] st_init
unfolding st_init
init-Registered = (
  st_init-IsLive (CliData ConsoleFunc (Unit {0})),
  record {
    kept = st_init-IsKept (CliData ConsoleFunc (Unit {0}));
    values = λ t. value-empty_root {A = CliData ConsoleFunc (Unit {0})} t;
  },
)

registered-some :
    (commands : Commands) (c : Console)
    → (add_commands commands st_init).0 ≡ true
    → (if (add_commands commands st_init).0
        then some (record c { cli = (add_commands commands st_init).1 })
        else none)
      ≡ some (record c { cli = (add_commands commands st_init).1 })
registered-some commands c e =
    ap (λ b. if b then some (record c { cli = (add_commands commands st_init).1 }) else none) e

-- From an empty tree the commands are all registered.
pub register_console_commands-Registered :
    (c : Console)
    → (root : Root (CliData ConsoleFunc (Unit {0}))) × Registered
        (table_of console_commands [])
        root
      × (register_console_commands (record c { cli = st_init }) ≡ some (record c { cli = root }))
unfolding register_console_commands
register_console_commands-Registered c =
    let (done, h) =
      add_commands-Registered console_commands st_init [] console_commands-Trimmed
        init-Registered in
    ((add_commands console_commands st_init).1, h, registered-some console_commands c done)
