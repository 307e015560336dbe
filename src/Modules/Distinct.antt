-- ===== src/Modules/Distinct.antt =====
-- module.c: the list of loaded modules.
use yastg.Modules.Ops.{
  Answers, Module, ModuleError, already_loaded, dl_error, failed_init, failed_stat,
  is_module_loaded, is_module_sane, module_insert, no_struct, not_sane, success,
}
use yastg.Prelude.{Bool, List, [], arith, false, list_eq, refl, some, true, ℕ, ◌++◌, ◌||◌, ◌∷◌, ◌≡◌}
use yastg.Prelude.{Option, if◌then◌else◌, none, not}
use yastg.Prelude.{◌%◌, ◌^◌}

-- Every module is sane, and no two have one name.
abbrev pub AreLoaded : List Module → Type 0
AreLoaded [] = Unit
AreLoaded (m ∷ ms) =
    (is_module_sane m ≡ true) × ((is_module_loaded m.name ms ≡ false) × AreLoaded ms)

list_eq_sym : (s t : List ℕ) → list_eq s t ≡ list_eq t s
list_eq_sym [] [] = refl
list_eq_sym [] (c ∷ t) = refl
list_eq_sym (c ∷ s) [] = refl
list_eq_sym (b ∷ s) (c ∷ t) = ground (arith, list_eq_sym s t)

is_module_loaded-append :
    (name : List ℕ) (ms : List Module) (m : Module)
    → is_module_loaded name (ms ++ m ∷ []) ≡ (is_module_loaded name ms || list_eq m.name name)
unfolding is_module_loaded
is_module_loaded-append name [] m = ground arith
is_module_loaded-append name (n ∷ ms) m = ground (arith, is_module_loaded-append name ms m)

AreLoaded-append :
    (ms : List Module) (m : Module)
    → AreLoaded ms
    → is_module_sane m ≡ true
    → is_module_loaded m.name ms ≡ false
    → AreLoaded (ms ++ m ∷ [])
unfolding is_module_loaded
AreLoaded-append [] m h s l = (s, (refl, tt))
AreLoaded-append (n ∷ ms) m h s l = (
  h.0,
  (
    ground (arith, is_module_loaded-append n.name ms m, h.1.0, list_eq_sym m.name n.name, l),
    AreLoaded-append ms m h.1.1 s (ground (arith, l)),
  ),
)

-- On success the module is added, and stays open. On an error nothing is, and it is closed.
abbrev pub Inserted : List Module → Answers → ModuleError × (List Module × Bool) → Type 0
Inserted loaded a (success, (after, stays)) =
    (stays ≡ true)
    × ((m : Module) × ((n : ℕ) × ((a.get_struct ≡ some m)
            × ((a.stat ≡ some n) × (after ≡ loaded ++ record m { size = n % 2 ^ 32 } ∷ [])))))
Inserted loaded a (dl_error, (after, stays)) = (stays ≡ false) × (after ≡ loaded)
Inserted loaded a (no_struct, (after, stays)) = (stays ≡ false) × (after ≡ loaded)
Inserted loaded a (not_sane, (after, stays)) = (stays ≡ false) × (after ≡ loaded)
Inserted loaded a (already_loaded, (after, stays)) = (stays ≡ false) × (after ≡ loaded)
Inserted loaded a (failed_stat, (after, stays)) = (stays ≡ false) × (after ≡ loaded)
Inserted loaded a (failed_init, (after, stays)) = (stays ≡ false) × (after ≡ loaded)

unless :
    {X : Type 0} (P : X → Type 0) (b : Bool) (x y : X)
    → P x
    → (b ≡ true → P y)
    → P (if not b then x else y)
unless P true x y h k = k refl
unless P false x y h k = h

unless_loaded :
    {X : Type 0} (P : X → Type 0) (b : Bool) (x y : X)
    → P x
    → (b ≡ false → P y)
    → P (if b then x else y)
unless_loaded P true x y h k = h
unless_loaded P false x y h k = k refl

unless_none :
    {A X : Type 0} (P : X → Type 0) (o : Option A) (x : X) (f : A → X)
    → P x
    → ((a : A) → o ≡ some a → P (f a))
    → P (elim o [ none ↦ x | some a ↦ f a ])
unless_none P none x f h k = h
unless_none P (some a) x f h k = k a refl

-- Where the loaded modules are sane and no two have one name, module_insert keeps that so. If it
-- returns success the module that was found, with its size in the low 32 bits, is added at the end
-- and its object stays open. If it returns an error, nothing is added and the object is not left
-- open.
pub module_insert-Inserted :
    (a : Answers) (loaded : List Module)
    → AreLoaded loaded
    → Inserted loaded a (module_insert a loaded) × AreLoaded (module_insert a loaded).1.0
unfolding module_insert
module_insert-Inserted a loaded h = unless Kept a.dlopen _ _ nothing (λ _.
    unless Kept a.dlsym _ _ nothing (λ _. unless_none Kept a.get_struct _ _ nothing (λ m e.
      unless Kept (is_module_sane m) _ _ nothing (λ sane.
        unless_loaded Kept (is_module_loaded m.name loaded) _ _ nothing (λ new.
          unless_none Kept a.stat _ _ nothing (λ n k. unless Kept a.init _ _ nothing (λ _. (
            (refl, (m, (n, (e, (k, refl))))),
            AreLoaded-append loaded (record m { size = n % 2 ^ 32 }) h sane new,
          ))))))))
  where
    Kept : ModuleError × (List Module × Bool) → Type 0
    Kept r = Inserted loaded a r × AreLoaded r.1.0

    nothing : ((false ≡ false) × (loaded ≡ loaded)) × AreLoaded loaded
    nothing = ((refl, refl), h)
