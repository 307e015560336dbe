-- ===== src/Civ/Tests.antt =====
-- Two civilizations among three systems.
use yastg.Universe.Tests.{sqrt, next, place, three, three-Ascending, next-IsNext, sqrt-IsRoot}
use yastg.Civ.Growth.{Charted}
use yastg.Civ.Homes.{Peopled}
use yastg.Civ.Ops.{Galaxy, Realm, civ_grow_step_ly, civ_spawncivs}
use yastg.Civ.Rounds.{civ_spawncivs-Peopled}
use yastg.Civ.Settled.{Settled}
use yastg.Prelude.{
  In, Returns, [], arith, inl, inr, length, none, refl, subst, sym, true, ℕ, ◌*◌, ◌+◌, ◌/◌, ◌∷◌,
  ◌≡◌, ◌≢◌, ◌≤◌,
}
use yastg.Prelude.Int.{pos, ◌+ℤ◌, ◌-ℤ◌}
use yastg.Ptrlist.Ops.{Ptrlist, ptrlist_init}
use yastg.Universe.Ops.{is_near, system_distance}
use yastg.Civ.Ops.{
  all_free, annex, border_from, choose_home, first_free, grow_all_civs, grow_civ, grow_round,
  grow_rounds, is_border_system, remove_civs_without_homes, search, set_civ, set_owner, settle_home,
  spawn_civilizations, to_ulong, total_power,
}
use yastg.Mtrandom.{mtrandom_ulong}
use yastg.Prelude.{Bool, List, Option, Run, fault, map, ok, some}
use yastg.Ptrlist.Ops.{
  get_from, ptrlist_entry, ptrlist_get, ptrlist_len, ptrlist_push, ptrlist_random, ptrlist_rm,
  remove_at,
}
use yastg.Universe.Links.{link, linksystems}
use yastg.Universe.Ops.{first_after, get_first_system_after_x, get_neighbouring_systems, near_from}
use yastg.Mtrandom.{mtrandom_uint64}
use yastg.PortUpdate.Rounds.{Apart}

abbrev systems : Ptrlist ℕ
systems = record { list = 0 ∷ 1 ∷ 2 ∷ []; len = 3 }

abbrev empty : Realm
empty = record { home = none; power = pos 3; systems = ptrlist_init; border_systems = ptrlist_init }

abbrev galaxy : Galaxy
galaxy = record { owner = λ s. none; links = λ s. []; civ = λ c. empty; inhabited_systems = 0 }

abbrev count : ℕ → ℕ × ℕ
count g = (g, g + 1)

each_of_three : (Q : ℕ → Type 0) → Q 0 → Q 1 → Q 2 → (q : ℕ) → In q (0 ∷ 1 ∷ 2 ∷ []) → Q q
each_of_three Q a b c q (inl e) = subst Q (sym e) a
each_of_three Q a b c q (inr (inl e)) = subst Q (sym e) b
each_of_three Q a b c q (inr (inr (inl e))) = subst Q (sym e) c
each_of_three Q a b c q (inr (inr (inr k))) = absurd k

abbrev Close : ℕ → ℕ → Type 0
Close t q = is_near sqrt (place t) (civ_grow_step_ly + 0 * civ_grow_step_ly) (place q) ≡ true

-- System 3 is of the universe and no longer in the tree.
abbrev with_evicted : Ptrlist ℕ
with_evicted = record { list = 3 ∷ 0 ∷ 1 ∷ 2 ∷ []; len = 4 }

three-Close : (t q : ℕ) → In t with_evicted.list → In q (0 ∷ 1 ∷ 2 ∷ []) → Close t q
unfolding is_near system_distance ◌-ℤ◌ ◌+ℤ◌
three-Close t q (inl e) i =
    subst (λ t. Close t q) (sym e) (each_of_three (Close 3) refl refl refl q i)
three-Close t q (inr k) i =
    each_of_three (λ t. In q (0 ∷ 1 ∷ 2 ∷ []) → Close t q)
      (each_of_three (Close 0) refl refl refl q) (each_of_three (Close 1) refl refl refl q)
      (each_of_three (Close 2) refl refl refl q) t k i

different : (p q : ℕ) → p ≢ q → ¬ In p (q ∷ [])
different p q h (inl e) = h e
different p q h (inr k) = k

three-Apart : Apart (0 ∷ 1 ∷ 2 ∷ [])
three-Apart = (
  elim [ inl e ↦ absurd (cc e) | inr k ↦ different 0 2 (λ e. cc e) k ],
  (different 1 2 (λ e. cc e), ((λ k. k), tt)),
)

three-Charted : Charted sqrt next three with_evicted.list 0
three-Charted = record {
  is_root = sqrt-IsRoot;
  is_next = next-IsNext;
  ascending = three-Ascending;
  once = (
    λ h. elim h [
      | inl e ↦ cc e
      | inr (inl e) ↦ cc e
      | inr (inr (inl e)) ↦ cc e
      | inr (inr (inr k)) ↦ k
    ],
    three-Apart,
  );
  apart = three-Apart;
  inside = λ s h. inr h;
  near = three-Close;
}

galaxy-Settled : Settled with_evicted.list galaxy
unfolding ptrlist_init
galaxy-Settled = record {
  rules = λ c. record {
    own = λ s. (λ k. absurd k, λ e. absurd (cc e));
    once = tt;
    border = λ s k. absurd k;
    border_len = refl;
    home_own = λ s e. absurd (cc e);
  };
  known = λ s c e. absurd (cc e);
}

-- One system is to be inhabited.
civ_spawncivs-Peopled_example :
    Returns
      (λ q. Peopled with_evicted.list q.2 × (length q.1 ≤ q.2.inhabited_systems))
      (civ_spawncivs sqrt next three count with_evicted 5 1 (λ n. 2 * n / 5) (0 ∷ 1 ∷ []) galaxy 7)
civ_spawncivs-Peopled_example =
    civ_spawncivs-Peopled sqrt next three count with_evicted 0 three-Charted 5 (λ n. 2 * n / 5)
      (0 ∷ 1 ∷ []) galaxy 7 refl (omega arith) (omega arith)
      (different 0 1 (λ e. cc e), ((λ k. k), tt)) (λ c i. refl) (galaxy-Settled, refl)

abbrev outcome : Run (Bool × List ℕ × Galaxy) → Option (List ℕ × (ℕ × (List (Option ℕ))))
outcome (fault stop) = none
outcome (ok (done, left, l)) = some (left, (l.inhabited_systems, map l.owner (0 ∷ 1 ∷ 2 ∷ [])))

-- The second civilization finds no home so close to the first, which grows into the other systems.
one_civilization :
    outcome (civ_spawncivs sqrt next three count systems 5 1 (λ n. n) (0 ∷ 1 ∷ []) galaxy 7)
    ≡ some (0 ∷ [], (3, some 0 ∷ some 0 ∷ some 0 ∷ []))
unfolding civ_spawncivs spawn_civilizations choose_home grow_all_civs grow_rounds grow_round
    grow_civ annex search is_border_system get_neighbouring_systems near_from is_near
    system_distance get_first_system_after_x first_after ◌-ℤ◌ ◌+ℤ◌ mtrandom_ulong mtrandom_uint64
    ptrlist_random ptrlist_entry ptrlist_get get_from ptrlist_len ptrlist_init ptrlist_push
    ptrlist_rm remove_at first_free all_free border_from set_owner set_civ settle_home total_power
    to_ulong remove_civs_without_homes linksystems link
one_civilization = refl
