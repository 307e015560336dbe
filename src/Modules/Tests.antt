-- ===== src/Modules/Tests.antt =====
-- Inserting a module twice.
use yastg.Modules.Distinct.{AreLoaded, Inserted, module_insert-Inserted}
use yastg.Modules.Ops.{
  Answers, Module, already_loaded, are_name_chars, is_module_loaded, is_module_sane, is_name_char,
  module_insert,
}
use yastg.Prelude.{[], refl, some, true, ◌∷◌, ◌≡◌}

abbrev hello : Module
hello = record {
  struct_version = 0;
  name = b'h' ∷ b'i' ∷ b'-' ∷ b'2' ∷ [];
  init_function = true;
  exit_function = true;
  size = 0;
}

abbrev found : Answers
found = record {
  dlopen = true;
  dlsym = true;
  get_struct = some hello;
  stat = some 900;
  init = true;
}

module_insert-Inserted_example :
    Inserted [] found (module_insert found []) × AreLoaded (module_insert found []).1.0
module_insert-Inserted_example = module_insert-Inserted found [] tt

twice : (module_insert found (module_insert found []).1.0).0 ≡ already_loaded
unfolding module_insert is_module_sane are_name_chars is_name_char is_module_loaded
twice = refl
