-- ===== src/Console/Safety.antt =====
-- console.c: what any lines at the console keep, and what they send to the server.
use yastg.Console.Lines.{new_console}
use yastg.Buffer.Bounds.{read_into_buffer-Read}
use yastg.Buffer.Ops.{
  Buffer, buffer_init, buffer_reset, buffer_terminate_line, ends_line, read_into_buffer, room,
}
use yastg.Cli.Ops.{Call, cli_run_cmd}
use yastg.Common.Ops.{chomp}
use yastg.Console.Lines.{
  Console, ConsoleFunc, console_cmd_cb, console_main, console_rounds, handle_line,
  register_console_commands, run_console_line, run_func,
}
use yastg.Console.Parts.{OptCall, chomp-Part, cli_run_cmd-OptCall, drop-Part, take-Part}
use yastg.Console.Registered.{register_console_commands-Registered}
use yastg.Console.Sound.{Clean, IsLine, Sound, run_func-Sound}
use yastg.Modules.Ops.{Answers}
use yastg.Prelude.{
  Bool, Bool-cases, In, In-append_cases, List, Option, Returns, Returns-bind, Returns-option,
  Returns-some, Returns-test, Run, [], ap, arith, assert_failed, drop, false, fault, if◌then◌else◌,
  inl, inr, length, length-take, none, not, ok, refl, some, some-injective, subst, sym, take, true,
  ℕ, ◌++◌, ◌+◌, ◌==◌, ◌||◌, ◌∙◌, ◌∷◌, ◌≡◌,
}
use yastg.Server.InOrder.{serve-run_each}
use yastg.Server.Ops.{Server, serve, stop_server}
use yastg.Server.Requests.{Request, told_each}
use yastg.Console.Lines.{console_run}
use yastg.Console.Sound.{Sent}
use yastg.Modules.Distinct.{AreLoaded}
use yastg.Stringtrie.Values.{value}
use yastg.Cli.Table.{value-cli_tree_destroy}

-- What is asked of the server is heard.
abbrev pub Heard : Server → Console → Type 0
Heard s c =
    (rs : List Request) × ((more : ℕ)
      → serve (length rs + 1 + more) (stop_server c.pipe) s
        ≡ ok (some ([], record (told_each rs s) { running = false })))

-- What is left of the console when its commands are destroyed.
pub record Closed (c : Console) : Type 0 where
  pub unregistered : (t : List ℕ) → value c.cli t ≡ none
  pub loaded : AreLoaded c.modules
  pub sent : Sent c.pipe
  pub clean : Clean c.buffer

module _ (answers : List ℕ → Answers) (dlclose : List ℕ → Bool) where
  run_console_line-Sound :
      (line : List ℕ) (c : Console)
      → IsLine line
      → Sound c
      → Returns Sound (run_console_line answers dlclose line c)
  unfolding run_console_line
  run_console_line-Sound [] c l h = h
  run_console_line-Sound (b ∷ line) c l h =
      Returns-bind (OptCall (b ∷ line)) Sound (cli_run_cmd c.cli (some (b ∷ line))) _
        (cli_run_cmd-OptCall c.cli (b ∷ line) h.registered.0) ran
    where
      ran :
          (found : Option (Call ConsoleFunc (Unit {0})))
          → OptCall (b ∷ line) found
          → Sound (elim found [
            | none ↦ c
            | some call ↦ run_func answers dlclose call.func call.param c
          ])
      ran none k = h
      ran (some call) k = run_func-Sound answers dlclose call.func call.param c (b ∷ line) l k h

  reset-Sound :
      (asleep : Bool) (c : Console)
      → Sound c
      → Sound (if asleep then c else record c { buffer = buffer_reset c.buffer })
  unfolding buffer_reset
  reset-Sound true c h = h
  reset-Sound false c h = record {
    registered = h.registered;
    loaded = h.loaded;
    sent = h.sent;
    clean = (record { fits = omega arith; bounded = h.clean.0.bounded }, λ k. k);
  }

  with_buffer-Sound :
      (c : Console) (b : Buffer) → Sound c → Clean b → Sound (record c { buffer = b })
  with_buffer-Sound c b h k = record {
    registered = h.registered;
    loaded = h.loaded;
    sent = h.sent;
    clean = k;
  }

  -- What is read keeps the buffer clean.
  read_into_buffer-Clean :
      (b : Buffer) (stdin : List ℕ)
      → Clean b
      → ¬ In 0 stdin
      → Clean (read_into_buffer b (take (room b) stdin)).1
  read_into_buffer-Clean b stdin (v, n) no_nul =
      let read =
        read_into_buffer-Read b (take (room b) stdin) v
          (omega (arith, length-take (room b) stdin)) in
      (
        read.kept,
        λ k. elim (In-append_cases b.contents (take (room b) stdin) 0 (subst (In 0) read.holds k)) [
          | inl i ↦ n i
          | inr i ↦ no_nul ((take-Part (room b) stdin).1 0 i)
        ],
      )

  terminated-IsLine :
      (b : Buffer) (line : List ℕ) → Clean b → buffer_terminate_line b ≡ some line → IsLine line
  unfolding buffer_terminate_line
  terminated-IsLine b line (v, n) e = elim (Bool-cases (ends_line b.contents)) [
    | inr k ↦ absurd (cc (e, k))
    | inl k ↦
        subst IsLine
          (some-injective _ _ (sym (ap (λ t. if t then some (chomp b.contents) else none) k) ∙ e))
          (let (l, part) = chomp-Part b.contents in
            (omega (arith, v.fits, v.bounded), λ i. n (part 0 i)))
  ]

  -- The console is sound, and nothing that is left to read is NUL.
  abbrev Ready : List ℕ × Console → Type 0
  Ready q = ¬ In 0 q.0 × Sound q.1

  reset-Ready :
      (left : List ℕ)
      → ¬ In 0 left
      → (c : Console) → Sound c
      → Ready (left, if c.sleep then c else record c { buffer = buffer_reset c.buffer })
  reset-Ready left n c h = (n, reset-Sound c.sleep c h)

  handle_line-Ready :
      (stdin : List ℕ) (c : Console)
      → ¬ In 0 stdin
      → Sound c
      → Returns Ready (handle_line answers dlclose stdin c)
  unfolding handle_line
  handle_line-Ready stdin c n h =
      Returns-option Ready (buffer_terminate_line c.buffer) _ _ (λ k. (n, h))
        (λ line k.
          Returns-bind Sound Ready (run_console_line answers dlclose line c) _
            (run_console_line-Sound line c (terminated-IsLine c.buffer line h.clean k) h)
            (reset-Ready stdin n))

  either :
      (b : Bool) (x y : Run (List ℕ × Console))
      → Returns Ready x
      → Returns Ready y
      → Returns Ready (if b then x else y)
  either true x y h k = h
  either false x y h k = k

  console_cmd_cb-Ready :
      (stdin : List ℕ) (c : Console)
      → ¬ In 0 stdin
      → Sound c
      → Returns Ready (console_cmd_cb answers dlclose stdin c)
  unfolding console_cmd_cb
  console_cmd_cb-Ready stdin c n h =
      let input = take (room c.buffer) stdin in
      let left = drop (room c.buffer) stdin in
      let b = (read_into_buffer c.buffer input).1 in
      let c' : Console = record c { buffer = b } in
      let sound : Sound c' =
        with_buffer-Sound c b h (read_into_buffer-Clean c.buffer stdin h.clean n) in
      let unread : ¬ In 0 left = λ i. n ((drop-Part (room c.buffer) stdin).1 0 i) in
      either (length input == 0 || not (read_into_buffer c.buffer input).0) (ok (left, c'))
        (handle_line answers dlclose left c') (unread, sound)
        (handle_line-Ready left c' unread sound)

  console_rounds-Sound :
      (arrivals : List (List ℕ)) (stdin : List ℕ) (c : Console)
      → ((a : List ℕ) → In a arrivals → ¬ In 0 a)
      → ¬ In 0 stdin
      → Sound c
      → Returns Sound (console_rounds answers dlclose arrivals stdin c)
  unfolding console_rounds
  console_rounds-Sound [] stdin c all n h = h
  console_rounds-Sound (arrived ∷ later) stdin c all n h =
      let no_nul : ¬ In 0 (stdin ++ arrived) = λ k. elim (In-append_cases stdin arrived 0 k) [
        | inl i ↦ n i
        | inr i ↦ all arrived (inl refl) i
      ] in
      Returns-test Sound c.watched _ _
        (λ _.
          Returns-bind Ready Sound (console_cmd_cb answers dlclose (stdin ++ arrived) c) _
            (console_cmd_cb-Ready (stdin ++ arrived) c no_nul h)
            (λ q k. console_rounds-Sound later q.0 q.1 (λ a i. all a (inr i)) k.0 k.1))
        (λ _. h)

  console_run-Sound :
      (arrivals : List (List ℕ))
      → ((a : List ℕ) → In a arrivals → ¬ In 0 a)
      → Returns Sound (console_run answers dlclose arrivals)
  unfolding console_run new_console buffer_init
  console_run-Sound arrivals all =
      let (root, h, e) = register_console_commands-Registered new_console in
      let c : Console = record new_console { cli = root } in
      Returns-some Sound (register_console_commands new_console) c (fault assert_failed)
        (λ c. console_rounds answers dlclose arrivals [] c) e
        (console_rounds-Sound arrivals [] c all (λ k. k)
          (record {
            registered = h;
            loaded = tt;
            sent = ([], (λ r k. absurd k), refl);
            clean = (record { fits = omega arith; bounded = omega arith }, λ k. k);
          }))

  -- Whatever bytes but NUL arrive at the console, in whatever pieces, its event loop ends without a
  -- fault, and then the fourteen commands are still registered. console_main ends without a fault
  -- as well, and then no command is registered any more, the loaded modules are sane and of
  -- different names, the buffer is within its bounds, the pipe has what some short messages, pauses
  -- and resumes write, and a running server that reads it after stop_server handles these in order
  -- and stops with nothing left in the pipe.
  pub console_main-Heard :
      (arrivals : List (List ℕ)) (s : Server)
      → ((a : List ℕ) → In a arrivals → ¬ In 0 a)
      → s.running ≡ true
      → Returns Sound (console_run answers dlclose arrivals)
        × Returns (λ c. Closed c × Heard s c) (console_main answers dlclose arrivals)
  unfolding console_main
  console_main-Heard arrivals s all r = (
    console_run-Sound arrivals all,
    Returns-bind Sound (λ c. Closed c × Heard s c) (console_run answers dlclose arrivals) _
        (console_run-Sound arrivals all)
        (λ c h.
          let (rs, short, e) = h.sent in
          (
            record {
              unregistered = value-cli_tree_destroy c.cli;
              loaded = h.loaded;
              sent = h.sent;
              clean = h.clean;
            },
            (
              rs,
              λ more.
                  ap (λ pipe. serve (length rs + 1 + more) (stop_server pipe) s) e
                  ∙ serve-run_each rs s more short r,
            ),
          )),
  )
