-- ===== src/Civ/Rounds.antt =====
-- civ.c: `grow_all_civs` and `civ_spawncivs`.
use mathlib.Core.List.{reverse-cons}
use yastg.Civ.Ops.{
  Galaxy, grow_civ, grow_round, grow_rounds, grow_all_civs, civ_spawncivs, to_ulong,
  remove_civs_without_homes, total_power,
}
use yastg.Civ.Growth.{Charted, Grown, grow_civ-Grown}
use yastg.Civ.Homes.{Peopled, Homeless, Spawned, spawn_civilizations-Spawned}
use yastg.Ptrlist.Ops.{Ptrlist, ptrlist_len}
use yastg.Mtrandom.{mtrandom_ulong}
use yastg.PortUpdate.Rounds.{Apart}
use yastg.Universe.Ops.{Space, Tree}
use yastg.Prelude.{List, Option, Returns, Run, [], arith, length, ok, suc, ℕ, ◌+◌, ◌>>=◌, ◌∷◌, ◌≤◌}
use yastg.Prelude.Int.{ℤ}
use yastg.Buffer.Ops.{room}
use yastg.Prelude.{Bool, Returns-bind, Returns-weaken, false, if◌then◌else◌, leb, none, some, true}
use yastg.Ptrlist.Merge.{count}
use yastg.Prelude.{Bool-cases, inl, inr, ltb, ltb→lt, zero, ◌*◌, ◌<◌, ◌≡◌}
use yastg.Prelude.{ap, length-append, refl, reverse, ◌∙◌}
use yastg.Universe.Ops.{in_order}

length-reverse : (xs : List ℕ) → length (reverse xs) ≡ length xs
length-reverse [] = refl
length-reverse (x ∷ xs) =
    ap length (reverse-cons x xs)
    ∙ omega (arith, length-append (reverse xs) (x ∷ []), length-reverse xs)

-- The systems of the universe and its chart.
module _ (sqrt : ℤ → ℤ → ℕ) (rb_next : ℕ → Tree → Option ℕ) (u : Space) {G : Type 0}
    (mt_genrand_int32 : G → ℕ × G) (systems : Ptrlist ℕ) (fuel : ℕ)
    (charted : Charted sqrt rb_next u systems.list fuel) where
  -- After a round from `l` with `n` civilizations that grow.
  abbrev After : ℕ → Galaxy → List ℕ × Galaxy × G → Type 0
  After n l q =
      Peopled systems.list q.1 × (l.inhabited_systems ≤ q.1.inhabited_systems) × (length q.0 ≤ n)

  later :
      (c n : ℕ) (l l' : Galaxy) (r : Run (List ℕ × Galaxy × G))
      → l.inhabited_systems ≤ l'.inhabited_systems
      → Returns (After n l') r
      → Returns (After (suc n) l) (r >>= λ q. ok (c ∷ q.0, q.1, q.2))
  later c n l l' r le h =
      Returns-bind (After n l') (After (suc n) l) r _ h
        (λ q k. (k.0, omega (arith, k.1, le), omega (arith, k.2)))

  -- Which branch is taken is up to the random generator.
  drawn_or :
      (Q : List ℕ × Galaxy × G → Type 0) (b : Bool) (x y : Run (List ℕ × Galaxy × G))
      → Returns Q x
      → Returns Q y
      → Returns Q (if b then x else y)
  drawn_or Q true x y h k = h
  drawn_or Q false x y h k = k

  grow_round-After :
      (total : ℕ) (growing : List ℕ) (l : Galaxy) (g : G)
      → Peopled systems.list l
      → l.inhabited_systems + length growing ≤ length (in_order u.x_rbtree)
      → Returns
          (After (length growing) l)
          (grow_round sqrt rb_next u mt_genrand_int32 systems (suc fuel) total growing l g)
  unfolding grow_round
  grow_round-After total [] l g p room = (p, omega arith, omega arith)
  grow_round-After total (c ∷ growing) l g (h, e) room =
      let g' = (mtrandom_ulong mt_genrand_int32 total g).1 in
      let n = length growing in
      let left = grow_round-After total growing l g' (h, e) (omega arith) in
      drawn_or (After (suc n) l)
        (leb (to_ulong (l.civ c).power) (mtrandom_ulong mt_genrand_int32 total g).0) _ _
        (later c n l l _ (omega arith) left)
        (Returns-bind (Grown sqrt rb_next u systems.list fuel charted l) (After (suc n) l)
          (grow_civ sqrt rb_next u (suc fuel) c l) _
          (grow_civ-Grown sqrt rb_next u systems.list fuel charted c l h (omega (arith, e, room)))
          (go left (λ l' p' room'. grow_round-After total growing l' g' p' room')))
    where
      go :
          Returns (After (length growing) l) (
            grow_round sqrt rb_next u mt_genrand_int32 systems
              (suc fuel)
              total
              growing
              l
              (mtrandom_ulong mt_genrand_int32 total g).1)
          → ((l' : Galaxy)
              → Peopled systems.list l'
              → l'.inhabited_systems + length growing ≤ length (in_order u.x_rbtree)
              → Returns (After (length growing) l') (
                  grow_round sqrt rb_next u mt_genrand_int32 systems
                    (suc fuel)
                    total
                    growing
                    l'
                    (mtrandom_ulong mt_genrand_int32 total g).1))
          → (grown : Option Galaxy) → Grown sqrt rb_next u systems.list fuel charted l grown
          → Returns (After (suc (length growing)) l) (elim grown [
            | none ↦
                grow_round sqrt rb_next u mt_genrand_int32 systems
                  (suc fuel)
                  total
                  growing
                  l
                  (mtrandom_ulong mt_genrand_int32 total g).1
            | some l' ↦
                grow_round sqrt rb_next u mt_genrand_int32 systems
                  (suc fuel)
                  total
                  growing
                  (record l' { inhabited_systems = l'.inhabited_systems + 1 })
                  (mtrandom_ulong mt_genrand_int32 total g).1
                >>= λ q. ok (c ∷ q.0, q.1, q.2)
          ])
      go left rest none k =
          Returns-weaken (After (length growing) l) (After (suc (length growing)) l) _
            (λ q w. (w.0, w.1, omega (arith, w.2))) left
      go left rest (some l') ((settled, count), same) =
          let l'' = record l' { inhabited_systems = l'.inhabited_systems + 1 } in
          later c (length growing) l l'' _ (omega (arith, same)) (
            rest l''
              (
                record { rules = settled.rules; known = settled.known },
                omega (arith, count, same, e),
              )
              (omega (arith, same, room)))

  -- The galaxy at the end of the rounds, with no fewer inhabited systems.
  abbrev Ended : Galaxy → Bool × Galaxy × G → Type 0
  Ended l q = Peopled systems.list q.1 × (l.inhabited_systems ≤ q.1.inhabited_systems)

  grow_rounds-Ended :
      (rounds goal_hab total : ℕ) (growing : List ℕ) (l : Galaxy) (g : G)
      → Peopled systems.list l
      → length growing ≤ l.inhabited_systems
      → 2 * goal_hab ≤ length (in_order u.x_rbtree)
      → Returns (Ended l) (
          grow_rounds sqrt rb_next u mt_genrand_int32 systems rounds
            (suc fuel)
            goal_hab
            total
            growing
            l
            g)
  unfolding grow_rounds
  grow_rounds-Ended zero goal_hab total growing l g p few goal = (p, omega arith)
  grow_rounds-Ended (suc rounds) goal_hab total growing l g p few goal =
      elim (Bool-cases (ltb l.inhabited_systems goal_hab)) [
        | inr e ↦ rw e (p, omega arith)
        | inl e ↦ elim (Bool-cases (ltb 0 (length growing))) [
          | inr k ↦ rw (e, k) (p, omega arith)
          | inl k ↦
              rw (e, k)
                (Returns-bind (After (length growing) l) (Ended l)
                  (grow_round sqrt rb_next u mt_genrand_int32 systems (suc fuel) total growing l g)
                  _ (grow_round-After total growing l g p (omega (arith, ltb→lt _ _ e)))
                  (λ q w.
                    Returns-weaken (Ended q.1) (Ended l) _ (λ r v. (v.0, omega (arith, v.1, w.1)))
                      (grow_rounds-Ended rounds goal_hab total q.0 q.1 q.2 w.0
                        (omega (arith, w.1, w.2)) goal)))
        ]
      ]

  -- Where the systems of the tree, in ascending order of x, are of the universe, each of them is
  -- near any system of the universe within the last circle of a search, no system is twice in the
  -- universe or the tree, the tree has at least twice as many systems as goal, there are systems,
  -- no civilization is twice in the list or has a home, and the galaxy is peopled, civ_spawncivs
  -- ends by any random generator and for any number of rounds without a fault or an endless search.
  -- The galaxy stays peopled: each civilization has just the systems that it owns, each once, its
  -- border and home are among them, and as many systems are counted as have an owner. No more
  -- civilizations are left than systems are counted.
  pub civ_spawncivs-Peopled :
      (rounds : ℕ) (goal : ℕ → ℕ) (civs : List ℕ) (l : Galaxy) (g : G)
      → systems.len ≡ length systems.list
      → 0 < length systems.list
      → 2 * goal systems.len ≤ length (in_order u.x_rbtree)
      → Apart civs
      → Homeless l civs
      → Peopled systems.list l
      → Returns
          (λ q. Peopled systems.list q.2 × (length q.1 ≤ q.2.inhabited_systems))
          (civ_spawncivs sqrt rb_next u mt_genrand_int32 systems rounds (suc fuel) goal civs l g)
  unfolding civ_spawncivs grow_all_civs ptrlist_len
  civ_spawncivs-Peopled rounds goal civs l g len some_system half apart homeless p =
      Returns-bind (Spawned sqrt rb_next u mt_genrand_int32 systems len some_system civs l) _ _ _
        (spawn_civilizations-Spawned sqrt rb_next u mt_genrand_int32 systems len some_system civs l
          g charted.once apart homeless p)
        (λ q w.
          let left = remove_civs_without_homes q.0.civ civs in
          Returns-bind (Ended q.0) _ _ _
            (grow_rounds-Ended rounds (goal systems.len) (total_power q.0.civ left) (reverse left)
              q.0 q.1 w.0 (omega (arith, w.1, length-reverse left)) half)
            (λ r v. (v.0, omega (arith, v.1, w.1))))
