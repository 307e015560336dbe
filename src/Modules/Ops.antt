-- ===== src/Modules/Ops.antt =====
-- module.c: inserting and removing modules. What the dynamic linker and `stat` return is an argument.
use yastg.Prelude.{
  Bool, List, Option, [], false, if◌then◌else◌, leb, length, list_eq, ltb, none, not, some, suc,
  true, zero, ℕ, ◌&&◌, ◌++◌, ◌==◌, ◌||◌, ◌∷◌,
}
use yastg.Prelude.{◌%◌, ◌^◌}

-- `struct module`; of the two functions it is known whether they are there, and `size` is an `unsigned int`.
pub record Module : Type 0 where
  pub struct_version : ℕ
  pub name : List ℕ
  pub init_function : Bool
  pub exit_function : Bool
  pub size : ℕ

pub data ModuleError : Type 0 where
  success dl_error no_struct not_sane already_loaded failed_stat failed_init : ModuleError

unfoldable pub is_name_char : ℕ → Bool
is_name_char c =
    c == b'-'
    || c == b'_'
    || leb b'0' c && leb c b'9'
    || leb b'A' c && leb c b'Z'
    || leb b'a' c && leb c b'z'

unfoldable pub are_name_chars : List ℕ → Bool
unfolding is_name_char
are_name_chars [] = true
are_name_chars (c ∷ cs) = is_name_char c && are_name_chars cs

unfoldable pub is_module_sane : Module → Bool
unfolding are_name_chars
is_module_sane m =
    m.struct_version == 0
    && m.init_function
    && m.exit_function
    && ltb 0 (length m.name)
    && are_name_chars m.name

unfoldable pub is_module_loaded : List ℕ → List Module → Bool
is_module_loaded name [] = false
is_module_loaded name (m ∷ ms) = list_eq m.name name || is_module_loaded name ms

-- What the calls return: whether `dlopen` and `dlsym` succeed, the module, the size from `stat`, an `off_t`, whether
-- the module's function succeeds.
pub record Answers : Type 0 where
  pub dlopen : Bool
  pub dlsym : Bool
  pub get_struct : Option Module
  pub stat : Option ℕ
  pub init : Bool

-- The result, the loaded modules, and whether the object is still open.
unfoldable pub module_insert : Answers → List Module → ModuleError × (List Module × Bool)
unfolding is_module_sane is_module_loaded
module_insert a loaded =
    if not a.dlopen
    then (dl_error, (loaded, false))
    else if not a.dlsym
    then (dl_error, (loaded, false))
    else elim a.get_struct [
      | none ↦ (no_struct, (loaded, false))
      | some m ↦
          if not (is_module_sane m)
          then (not_sane, (loaded, false))
          else if is_module_loaded m.name loaded
          then (already_loaded, (loaded, false))
          else elim a.stat [
            | none ↦ (failed_stat, (loaded, false))
            | some size ↦
                if not a.init
                then (failed_init, (loaded, false))
                else (success, (loaded ++ record m { size = size % 2 ^ 32 } ∷ [], true))
          ]
    ]

-- `list_del` of the `i`-th module
unfoldable pub list_del : ℕ → List Module → List Module
list_del i [] = []
list_del zero (m ∷ ms) = ms
list_del (suc i) (m ∷ ms) = m ∷ list_del i ms

-- `dlclose` is whether it succeeds.
unfoldable pub module_remove : Bool → ℕ → List Module → ModuleError × List Module
unfolding list_del
module_remove dlclose i loaded = (if dlclose then success else dl_error, list_del i loaded)
