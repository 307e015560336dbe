-- ===== src/Console/Sound.antt =====
-- console.c: what the functions of the commands keep.
-- The pipe has what some requests write to it, each of which the server can read.
use yastg.Console.Lines.{
  show_ports, show_help, do_insmod, show_items, show_modules, do_wall, do_pause, show_planets,
  do_resume, do_rmmod, show_ships, show_stats, show_memory, do_quit,
}
use yastg.Buffer.Bounds.{IsBuffer}
use yastg.Buffer.Ops.{Buffer}
use yastg.Console.Lines.{
  Console, ConsoleFunc, cmd_insmod, cmd_quit, cmd_rmmod, console_commands, enter_sleep, find_module,
  run_func,
}
use yastg.Console.Parts.{OptPart}
use yastg.Console.Registered.{Registered, table_of}
use yastg.Modules.Distinct.{AreLoaded, module_insert-Inserted}
use yastg.Modules.Ops.{Answers, Module, is_module_loaded, list_del, module_remove}
use yastg.Prelude.{
  Bool, In, In-append_cases, List, Option, [], ap, arith, false, inl, inr, length, none, refl, some,
  subst, suc, sym, zero, ℕ, ◌++◌, ◌∙◌, ◌∷◌, ◌≡◌, ◌≤◌,
}
use yastg.Server.Requests.{IsShort, Request, pause, resume, run_each, run_request, wall}

abbrev pub Sent : List ℕ → Type 0
Sent pipe = (rs : List Request) × ((r : Request) → In r rs → IsShort r) × (pipe ≡ run_each rs [])

run_each-append_one :
    (rs : List Request) (r : Request) (pipe : List ℕ)
    → run_each (rs ++ r ∷ []) pipe ≡ run_request r (run_each rs pipe)
run_each-append_one [] r pipe = refl
run_each-append_one (q ∷ rs) r pipe = run_each-append_one rs r (run_request q pipe)

Sent-run_request : (r : Request) (pipe : List ℕ) → IsShort r → Sent pipe → Sent (run_request r pipe)
Sent-run_request r pipe h (rs, all, e) = (
  rs ++ r ∷ [],
  λ q k. elim (In-append_cases rs (r ∷ []) q k) [
    | inl k ↦ all q k
    | inr (inl i) ↦ subst IsShort (sym i) h
    | inr (inr k) ↦ absurd k
  ],
  ap (run_request r) e ∙ sym (run_each-append_one rs r []),
)

-- What the buffer has is within its bounds and without a NUL.
abbrev pub Clean : Buffer → Type 0
Clean b = IsBuffer b × ¬ In 0 b.contents

-- The commands are registered, the modules that are loaded are sane and of different names, and what was
-- sent can be read.
pub record Sound (c : Console) : Type 0 where
  pub registered : Registered (table_of console_commands []) c.cli
  pub loaded : AreLoaded c.modules
  pub sent : Sent c.pipe
  pub clean : Clean c.buffer

is_module_loaded-list_del :
    (name : List ℕ) (i : ℕ) (ms : List Module)
    → is_module_loaded name ms ≡ false
    → is_module_loaded name (list_del i ms) ≡ false
unfolding is_module_loaded list_del
is_module_loaded-list_del name i [] h = h
is_module_loaded-list_del name zero (m ∷ ms) h = ground (arith, h)
is_module_loaded-list_del name (suc i) (m ∷ ms) h =
    ground (arith, h, is_module_loaded-list_del name i ms)

AreLoaded-list_del : (i : ℕ) (ms : List Module) → AreLoaded ms → AreLoaded (list_del i ms)
unfolding list_del
AreLoaded-list_del i [] h = h
AreLoaded-list_del zero (m ∷ ms) h = h.1.1
AreLoaded-list_del (suc i) (m ∷ ms) h =
    (h.0, (is_module_loaded-list_del m.name i ms h.1.0, AreLoaded-list_del i ms h.1.1))

-- A line that the buffer can have had.
abbrev pub IsLine : List ℕ → Type 0
IsLine line = (length line ≤ 10240) × ¬ In 0 line

IsShort-wall :
    (param : Option (List ℕ)) (line : List ℕ)
    → IsLine line
    → OptPart param line
    → IsShort (wall param)
IsShort-wall none line h k = tt
IsShort-wall (some text) line (h, n) (l, k) = (omega arith, λ i. n (k 0 i))

module _ (answers : List ℕ → Answers) (dlclose : List ℕ → Bool) where
  insmod-Sound :
      (param : Option (List ℕ)) (c : Console) → Sound c → Sound (cmd_insmod answers dlclose param c)
  unfolding cmd_insmod
  insmod-Sound none c h = h
  insmod-Sound (some file) c h = record {
    registered = h.registered;
    loaded = (module_insert-Inserted (answers file) c.modules h.loaded).1;
    sent = h.sent;
    clean = h.clean;
  }

  rmmod-Sound :
      (param : Option (List ℕ)) (c : Console) → Sound c → Sound (cmd_rmmod answers dlclose param c)
  unfolding cmd_rmmod module_remove
  rmmod-Sound none c h = h
  rmmod-Sound (some name) c h = go (find_module name c.modules)
    where
      go :
          (found : Option ℕ)
          → Sound (elim found [
            | none ↦ c
            | some i ↦ record c { modules = (module_remove (dlclose name) i c.modules).1 }
          ])
      go none = h
      go (some i) = record {
        registered = h.registered;
        loaded = AreLoaded-list_del i c.modules h.loaded;
        sent = h.sent;
        clean = h.clean;
      }

  sends :
      (r : Request) (c : Console)
      → IsShort r
      → Sound c
      → Sound (record c { pipe = run_request r c.pipe })
  sends r c s h = record {
    registered = h.registered;
    loaded = h.loaded;
    sent = Sent-run_request r c.pipe s h.sent;
    clean = h.clean;
  }

  pub run_func-Sound :
      (f : ConsoleFunc) (param : Option (List ℕ)) (c : Console) (line : List ℕ)
      → IsLine line
      → OptPart param line
      → Sound c
      → Sound (run_func answers dlclose f param c)
  unfolding run_func cmd_quit enter_sleep
  run_func-Sound do_insmod param c line l p h = insmod-Sound param c h
  run_func-Sound do_rmmod param c line l p h = rmmod-Sound param c h
  run_func-Sound do_wall param c line l p h = sends (wall param) c (IsShort-wall param line l p) h
  run_func-Sound do_pause param c line l p h = sends pause c tt h
  run_func-Sound do_resume param c line l p h = sends resume c tt h
  run_func-Sound do_quit param c line l p h = record {
    registered = h.registered;
    loaded = h.loaded;
    sent = h.sent;
    clean = h.clean;
  }
  run_func-Sound show_ports param c line l p h = h
  run_func-Sound show_help param c line l p h = h
  run_func-Sound show_items param c line l p h = h
  run_func-Sound show_modules param c line l p h = h
  run_func-Sound show_planets param c line l p h = h
  run_func-Sound show_ships param c line l p h = h
  run_func-Sound show_stats param c line l p h = h
  run_func-Sound show_memory param c line l p h = h
