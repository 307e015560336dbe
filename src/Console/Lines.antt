-- ===== src/Console/Lines.antt =====
-- console.c: what the commands are, how they are registered, and what becomes of a line. What commands print
-- is left out.
use yastg.Prelude.{Run}
use yastg.Buffer.Ops.{
  Buffer, buffer_init, buffer_reset, buffer_terminate_line, read_into_buffer, room,
}
use yastg.Cli.Ops.{CliData, cli_add_cmd, cli_run_cmd}
use yastg.Console.Ops.{cmd_pause, cmd_resume, cmd_wall}
use yastg.Modules.Ops.{Answers, Module, module_insert, module_remove}
use yastg.Player.Name.{help}
use yastg.Prelude.{
  Bool, List, Option, [], assert_failed, drop, false, fault, if◌then◌else◌, length, list_eq, none,
  not, ok, some, suc, take, true, ℕ, ◌++◌, ◌==◌, ◌>>=◌, ◌||◌, ◌∷◌,
}
use yastg.Prelude.Int.{eqb_ℤ, pos}
use yastg.Stringtrie.Node.{Root}
use yastg.Stringtrie.Ops.{st_init}
use yastg.Cli.Ops.{cli_tree_destroy}

-- The functions of the commands.
pub data ConsoleFunc : Type 0 where
  show_ports show_help do_insmod show_items show_modules do_wall do_pause show_planets do_resume
        do_rmmod show_ships show_stats show_memory do_quit :
      ConsoleFunc

-- `struct console`, whose `watched` is whether `cmd_watcher` is started, with the modules that are loaded and
-- the bytes in the pipe to the server; `terminating` is whether SIGTERM was sent.
pub record Console : Type 0 where
  pub cli : Root (CliData ConsoleFunc (Unit {0}))
  pub buffer : Buffer
  pub sleep : Bool
  pub watched : Bool
  pub modules : List Module
  pub pipe : List ℕ
  pub terminating : Bool

-- Names, functions and help texts.
abbrev pub console_commands : List (List ℕ × (ConsoleFunc × List ℕ))
console_commands =
    (
      (b'p' ∷ b'o' ∷ b'r' ∷ b't' ∷ b's' ∷ []),
      (
        show_ports,
        (b'L' ∷ b'i' ∷ b's' ∷ b't' ∷ 32 ∷ b'a' ∷ b'v' ∷ b'a' ∷ b'i' ∷ b'l' ∷ b'a' ∷ b'b' ∷ b'l'
            ∷ b'e' ∷ 32 ∷ b'p' ∷ b'o' ∷ b'r' ∷ b't' ∷ b's' ∷ []),
      ),
    )
    ∷ (
      (b'h' ∷ b'e' ∷ b'l' ∷ b'p' ∷ []),
      (
        show_help,
        (b'D' ∷ b'i' ∷ b's' ∷ b'p' ∷ b'l' ∷ b'a' ∷ b'y' ∷ 32 ∷ b't' ∷ b'h' ∷ b'i' ∷ b's' ∷ 32 ∷ b'h'
            ∷ b'e' ∷ b'l' ∷ b'p' ∷ 32 ∷ b't' ∷ b'e' ∷ b'x' ∷ b't' ∷ []),
      ),
    )
    ∷ (
      (b'i' ∷ b'n' ∷ b's' ∷ b'm' ∷ b'o' ∷ b'd' ∷ []),
      (
        do_insmod,
        (b'I' ∷ b'n' ∷ b's' ∷ b'e' ∷ b'r' ∷ b't' ∷ 32 ∷ b'a' ∷ 32 ∷ b'l' ∷ b'o' ∷ b'a' ∷ b'd' ∷ b'a'
            ∷ b'b' ∷ b'l' ∷ b'e' ∷ 32 ∷ b'm' ∷ b'o' ∷ b'd' ∷ b'u' ∷ b'l' ∷ b'e' ∷ []),
      ),
    )
    ∷ (
      (b'i' ∷ b't' ∷ b'e' ∷ b'm' ∷ b's' ∷ []),
      (
        show_items,
        (b'L' ∷ b'i' ∷ b's' ∷ b't' ∷ 32 ∷ b'a' ∷ b'v' ∷ b'a' ∷ b'i' ∷ b'l' ∷ b'a' ∷ b'b' ∷ b'l'
            ∷ b'e' ∷ 32 ∷ b'i' ∷ b't' ∷ b'e' ∷ b'm' ∷ b's' ∷ []),
      ),
    )
    ∷ (
      (b'l' ∷ b's' ∷ b'm' ∷ b'o' ∷ b'd' ∷ []),
      (
        show_modules,
        (b'L' ∷ b'i' ∷ b's' ∷ b't' ∷ 32 ∷ b'm' ∷ b'o' ∷ b'd' ∷ b'u' ∷ b'l' ∷ b'e' ∷ b's' ∷ 32 ∷ b'c'
            ∷ b'u' ∷ b'r' ∷ b'r' ∷ b'e' ∷ b'n' ∷ b't' ∷ b'l' ∷ b'y' ∷ 32 ∷ b'l' ∷ b'o' ∷ b'a' ∷ b'd'
            ∷ b'e' ∷ b'd' ∷ []),
      ),
    )
    ∷ (
      (b'w' ∷ b'a' ∷ b'l' ∷ b'l' ∷ []),
      (
        do_wall,
        (b'S' ∷ b'e' ∷ b'n' ∷ b'd' ∷ 32 ∷ b'a' ∷ 32 ∷ b'm' ∷ b'e' ∷ b's' ∷ b's' ∷ b'a' ∷ b'g' ∷ b'e'
            ∷ 32 ∷ b't' ∷ b'o' ∷ 32 ∷ b'a' ∷ b'l' ∷ b'l' ∷ 32 ∷ b'c' ∷ b'o' ∷ b'n' ∷ b'n' ∷ b'e'
            ∷ b'c' ∷ b't' ∷ b'e' ∷ b'd' ∷ 32 ∷ b'p' ∷ b'l' ∷ b'a' ∷ b'y' ∷ b'e' ∷ b'r' ∷ b's' ∷ []),
      ),
    )
    ∷ (
      (b'p' ∷ b'a' ∷ b'u' ∷ b's' ∷ b'e' ∷ []),
      (
        do_pause,
        (b'P' ∷ b'a' ∷ b'u' ∷ b's' ∷ b'e' ∷ 32 ∷ b'a' ∷ b'l' ∷ b'l' ∷ 32 ∷ b'p' ∷ b'l' ∷ b'a' ∷ b'y'
            ∷ b'e' ∷ b'r' ∷ b's' ∷ []),
      ),
    )
    ∷ (
      (b'p' ∷ b'l' ∷ b'a' ∷ b'n' ∷ b'e' ∷ b't' ∷ b's' ∷ []),
      (
        show_planets,
        (b'L' ∷ b'i' ∷ b's' ∷ b't' ∷ 32 ∷ b'a' ∷ b'v' ∷ b'a' ∷ b'i' ∷ b'l' ∷ b'a' ∷ b'b' ∷ b'l'
            ∷ b'e' ∷ 32 ∷ b'p' ∷ b'l' ∷ b'a' ∷ b'n' ∷ b'e' ∷ b't' ∷ 32 ∷ b't' ∷ b'y' ∷ b'p' ∷ b'e'
            ∷ b's' ∷ []),
      ),
    )
    ∷ (
      (b'r' ∷ b'e' ∷ b's' ∷ b'u' ∷ b'm' ∷ b'e' ∷ []),
      (
        do_resume,
        (b'R' ∷ b'e' ∷ b's' ∷ b'u' ∷ b'm' ∷ b'e' ∷ 32 ∷ b'a' ∷ b'l' ∷ b'l' ∷ 32 ∷ b'p' ∷ b'l' ∷ b'a'
            ∷ b'y' ∷ b'e' ∷ b'r' ∷ b's' ∷ []),
      ),
    )
    ∷ (
      (b'r' ∷ b'm' ∷ b'm' ∷ b'o' ∷ b'd' ∷ []),
      (
        do_rmmod,
        (b'U' ∷ b'n' ∷ b'l' ∷ b'o' ∷ b'a' ∷ b'd' ∷ 32 ∷ b'a' ∷ 32 ∷ b'l' ∷ b'o' ∷ b'a' ∷ b'd' ∷ b'a'
            ∷ b'b' ∷ b'l' ∷ b'e' ∷ 32 ∷ b'm' ∷ b'o' ∷ b'd' ∷ b'u' ∷ b'l' ∷ b'e' ∷ []),
      ),
    )
    ∷ (
      (b's' ∷ b'h' ∷ b'i' ∷ b'p' ∷ b's' ∷ []),
      (
        show_ships,
        (b'L' ∷ b'i' ∷ b's' ∷ b't' ∷ 32 ∷ b'a' ∷ b'v' ∷ b'a' ∷ b'i' ∷ b'l' ∷ b'a' ∷ b'b' ∷ b'l'
            ∷ b'e' ∷ 32 ∷ b's' ∷ b'h' ∷ b'i' ∷ b'p' ∷ 32 ∷ b't' ∷ b'y' ∷ b'p' ∷ b'e' ∷ b's' ∷ []),
      ),
    )
    ∷ (
      (b's' ∷ b't' ∷ b'a' ∷ b't' ∷ b's' ∷ []),
      (
        show_stats,
        (b'D' ∷ b'i' ∷ b's' ∷ b'p' ∷ b'l' ∷ b'a' ∷ b'y' ∷ 32 ∷ b's' ∷ b't' ∷ b'a' ∷ b't' ∷ b'i'
            ∷ b's' ∷ b't' ∷ b'i' ∷ b'c' ∷ b's' ∷ []),
      ),
    )
    ∷ (
      (b'm' ∷ b'e' ∷ b'm' ∷ b's' ∷ b't' ∷ b'a' ∷ b't' ∷ []),
      (
        show_memory,
        (b'D' ∷ b'i' ∷ b's' ∷ b'p' ∷ b'l' ∷ b'a' ∷ b'y' ∷ 32 ∷ b'm' ∷ b'e' ∷ b'm' ∷ b'o' ∷ b'r'
            ∷ b'y' ∷ 32 ∷ b's' ∷ b't' ∷ b'a' ∷ b't' ∷ b'i' ∷ b's' ∷ b't' ∷ b'i' ∷ b'c' ∷ b's' ∷ []),
      ),
    )
    ∷ (
      (b'q' ∷ b'u' ∷ b'i' ∷ b't' ∷ []),
      (
        do_quit,
        (b'T' ∷ b'e' ∷ b'r' ∷ b'm' ∷ b'i' ∷ b'n' ∷ b'a' ∷ b't' ∷ b'e' ∷ 32 ∷ b't' ∷ b'h' ∷ b'e' ∷ 32
            ∷ b's' ∷ b'e' ∷ b'r' ∷ b'v' ∷ b'e' ∷ b'r' ∷ []),
      ),
    )
    ∷ []

-- The calls of `cli_add_cmd`; the Boolean is true where none is refused.
unfoldable pub add_commands :
    List (List ℕ × (ConsoleFunc × List ℕ))
    → Root (CliData ConsoleFunc (Unit {0}))
    → Bool × Root (CliData ConsoleFunc (Unit {0}))
unfolding cli_add_cmd
add_commands [] root = (true, root)
add_commands ((name, (func, help)) ∷ commands) root =
    let (r, root') = cli_add_cmd root (some name) (some func) tt (some help) in
    if eqb_ℤ r (pos 0) then add_commands commands root' else (false, root')

-- `console_init`, with the empty tree of `console_main`
unfoldable pub new_console : Console
unfolding st_init buffer_init
new_console = record {
  cli = st_init;
  buffer = buffer_init;
  sleep = false;
  watched = true;
  modules = [];
  pipe = [];
  terminating = false;
}

-- `register_console_commands`; `none` is -1.
unfoldable pub register_console_commands : Console → Option Console
unfolding add_commands
register_console_commands c =
    let (done, root) = add_commands console_commands c.cli in
    if done then some (record c { cli = root }) else none

-- `enter_sleep`
unfoldable pub enter_sleep : Console → Console
enter_sleep c = record c { sleep = true; watched = false }

-- The place of the first module with the name.
unfoldable pub find_module : List ℕ → List Module → Option ℕ
find_module name [] = none
find_module name (m ∷ ms) =
    if list_eq m.name name
    then some 0
    else elim (find_module name ms) [ none ↦ none | some i ↦ some (suc i) ]

-- What the dynamic linker and `stat` answer for a file, and whether `dlclose` of a module succeeds.
module _ (answers : List ℕ → Answers) (dlclose : List ℕ → Bool) where
  unfoldable pub cmd_insmod : Option (List ℕ) → Console → Console
  unfolding module_insert
  cmd_insmod none c = c
  cmd_insmod (some file) c = record c { modules = (module_insert (answers file) c.modules).1.0 }

  unfoldable pub cmd_rmmod : Option (List ℕ) → Console → Console
  unfolding find_module module_remove
  cmd_rmmod none c = c
  cmd_rmmod (some name) c = elim (find_module name c.modules) [
    | none ↦ c
    | some i ↦ record c { modules = (module_remove (dlclose name) i c.modules).1 }
  ]

  unfoldable pub cmd_quit : Console → Console
  unfolding enter_sleep
  cmd_quit c = record (enter_sleep c) { terminating = true }

  -- The call of a command's function.
  unfoldable pub run_func : ConsoleFunc → Option (List ℕ) → Console → Console
  unfolding cmd_insmod cmd_rmmod cmd_quit cmd_wall cmd_pause cmd_resume
  run_func do_insmod param c = cmd_insmod param c
  run_func do_rmmod param c = cmd_rmmod param c
  run_func do_wall param c = record c { pipe = cmd_wall param c.pipe }
  run_func do_pause param c = record c { pipe = cmd_pause c.pipe }
  run_func do_resume param c = record c { pipe = cmd_resume c.pipe }
  run_func do_quit param c = cmd_quit c
  run_func _ param c = c

  -- `strlen(c->buffer.buf) > 0 && cli_run_cmd(&c->cli, c->buffer.buf)`
  unfoldable pub run_console_line : List ℕ → Console → Run Console
  unfolding cli_run_cmd run_func
  run_console_line [] c = ok c
  run_console_line (b ∷ line) c = do
    found ← cli_run_cmd c.cli (some (b ∷ line))
    ok (elim found [ none ↦ c | some call ↦ run_func call.func call.param c ])

  -- `console_cmd_cb` behind the read, once `stdin` is what is left to read.
  unfoldable pub handle_line : List ℕ → Console → Run (List ℕ × Console)
  unfolding buffer_terminate_line buffer_reset run_console_line
  handle_line stdin c = elim (buffer_terminate_line c.buffer) [
    | none ↦ ok (stdin, c)
    | some line ↦ do
      c' ← run_console_line line c
      ok (stdin, if c'.sleep then c' else record c' { buffer = buffer_reset c'.buffer })
  ]

  -- `console_cmd_cb`, of which `stdin` is what can be read; the bytes that are left, and the console.
  unfoldable pub console_cmd_cb : List ℕ → Console → Run (List ℕ × Console)
  unfolding read_into_buffer room handle_line
  console_cmd_cb stdin c =
      let input = take (room c.buffer) stdin in
      let rest = drop (room c.buffer) stdin in
      let (grown, buffer) = read_into_buffer c.buffer input in
      let c' = record c { buffer = buffer } in
      if length input == 0 || not grown then ok (rest, c') else handle_line rest c'

  -- The event loop, over the bytes that arrive between two calls; it ends with `quit`.
  unfoldable pub console_rounds : List (List ℕ) → List ℕ → Console → Run Console
  unfolding console_cmd_cb
  console_rounds [] stdin c = ok c
  console_rounds (arrived ∷ later) stdin c = elim c.watched [
    | false ↦ ok c
    | true ↦ do (rest, c') ← console_cmd_cb (stdin ++ arrived) c; console_rounds later rest c'
  ]

  -- `console_main` up to the end of the event loop; `die` where the commands are not registered.
  unfoldable pub console_run : List (List ℕ) → Run Console
  unfolding register_console_commands console_rounds new_console
  console_run arrivals = elim (register_console_commands new_console) [
    | none ↦ fault assert_failed
    | some c ↦ console_rounds arrivals [] c
  ]

  -- `console_main`, which destroys the commands behind the loop.
  unfoldable pub console_main : List (List ℕ) → Run Console
  unfolding console_run cli_tree_destroy
  console_main arrivals = do
    c ← console_run arrivals
    ok (record c { cli = cli_tree_destroy c.cli })
