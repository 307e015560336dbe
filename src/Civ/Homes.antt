-- ===== src/Civ/Homes.antt =====
-- civ.c: `spawn_civilizations`.
use yastg.Civ.Ops.{
  Realm, Galaxy, settle_home, all_free, choose_home, spawn_civilizations, remove_civs_without_homes,
}
use yastg.Civ.Settled.{Settled, owned, owned-set_owner, set_civ-other}
use yastg.Civ.Claims.{Settled-Gains}
use yastg.Ptrlist.Ops.{
  Ptrlist, ptrlist_push, ptrlist_entry, ptrlist_get, get_from, ptrlist_len, ptrlist_random,
}
use yastg.Mtrandom.{mtrandom_ulong, mtrandom_ulong-lt}
use yastg.PortUpdate.Rounds.{Apart}
use yastg.Universe.Ops.{Space, Tree}
use yastg.Prelude.{
  In, In-append_cases, List, Option, Option-cases, [], ap, arith, false, inl, inr, length,
  length-append, none, ok, refl, some, some-injective, subst, suc, sym, true, zero, ℕ, ◌+◌, ◌<◌,
  ◌==◌, ◌∙◌, ◌∷◌, ◌≡◌, ◌≤◌,
}
use yastg.Prelude.{Returns, fault, null_deref}
use yastg.Prelude.Int.{ℤ}
use yastg.Prelude.{Bool, Bool-cases, Returns-bind, Returns-some, Run, if◌then◌else◌, ◌&&◌}
use yastg.Prelude.{Returns-weaken}

-- A settled galaxy that has counted its inhabited systems.
abbrev pub Peopled : List ℕ → Galaxy → Type 0
Peopled systems l = Settled systems l × (owned l.owner systems ≡ l.inhabited_systems)

get_from_lem :
    (xs : List ℕ) (i r : ℕ) → r < length xs → (s : ℕ) × (get_from i xs (i + r) ≡ some s) × In s xs
unfolding get_from
get_from_lem [] i r h = absurd (omega arith)
get_from_lem (x ∷ xs) i zero h = (x, rw (ends i) refl, inl refl)
  where
    ends : (i : ℕ) → (i == i + 0) ≡ true
    ends i = ground arith
get_from_lem (x ∷ xs) i (suc r) h =
    let (s, e, k) = get_from_lem xs (i + 1) r (omega arith) in
    (s, rw (goes_on i r) (ap (get_from (i + 1) xs) (next i r) ∙ e), inr k)
  where
    goes_on : (i r : ℕ) → (i == i + suc r) ≡ false
    goes_on i r = ground arith

    next : (i r : ℕ) → i + suc r ≡ i + 1 + r
    next i r = omega arith

ptrlist_entry_lem :
    (l : Ptrlist ℕ) (r : ℕ) → r < length l.list → (s : ℕ) × (ptrlist_entry l r ≡ ok s) × In s l.list
unfolding ptrlist_entry ptrlist_get
ptrlist_entry_lem l r h =
    let (s, k, i) = get_from_lem l.list 0 r h in
    let k' : get_from 0 l.list r ≡ some s = ap (get_from 0 l.list) (zero_add r) ∙ k in
    (s, ap (λ (o : Option ℕ). elim o [ none ↦ fault null_deref | some e ↦ ok e ]) k', i)
  where
    zero_add : (r : ℕ) → r ≡ 0 + r
    zero_add r = omega arith

ptrlist_random_lem :
    (l : Ptrlist ℕ) (r : ℕ)
    → l.len ≡ length l.list
    → r < length l.list
    → (s : ℕ) × (ptrlist_random l r ≡ ok (some s)) × In s l.list
unfolding ptrlist_random ptrlist_len
ptrlist_random_lem l r e h =
    let (s, k, i) = ptrlist_entry_lem l r h in (s, rw (not_empty l.len (omega arith), k) refl, i)
  where
    not_empty : (n : ℕ) → 0 < n → (n == 0) ≡ false
    not_empty n h = ground arith

all_free-one : (owner : ℕ → Option ℕ) (s : ℕ) → all_free owner (s ∷ []) ≡ true → owner s ≡ none
unfolding all_free
all_free-one owner s h = elim (Option-cases (owner s)) [
  | inl e ↦ e
  | inr (c, e) ↦ absurd (cc (h, ap (λ (o : Option ℕ). elim o [ none ↦ true | some d ↦ false ]) e))
]

settle_home-Peopled :
    (systems : List ℕ) (c s : ℕ) (l : Galaxy)
    → Apart systems
    → Peopled systems l
    → In s systems
    → l.owner s ≡ none
    → Peopled systems (settle_home c s l)
unfolding settle_home ptrlist_push
settle_home-Peopled systems c s l once (h, e) i free = (
  Settled-Gains systems l s c
      (record (l.civ c) {
        home = some s;
        systems = ptrlist_push (l.civ c).systems s;
        border_systems = ptrlist_push (l.civ c).border_systems s;
      })
      l.links (l.inhabited_systems + 1) h free i
      (record {
        systems = refl;
        border = λ q k. elim (In-append_cases (l.civ c).border_systems.list (s ∷ []) q k) [
          | inl j ↦ inr j
          | inr (inl j) ↦ inl j
          | inr (inr j) ↦ absurd j
        ];
        border_len =
            omega
              (arith, (h.rules c).border_len, length-append (l.civ c).border_systems.list (s ∷ []));
        home = λ q k. inl (sym (some-injective _ _ k));
      }),
  owned-set_owner l.owner s c systems once i free ∙ omega (arith, e),
)

-- None of them has a home.
abbrev pub Homeless : Galaxy → List ℕ → Type 0
Homeless l cs = (c : ℕ) → In c cs → (l.civ c).home ≡ none

Homeless-settle_home :
    (c s : ℕ) (l : Galaxy) (cs : List ℕ)
    → ¬ In c cs
    → Homeless l cs
    → Homeless (settle_home c s l) cs
unfolding settle_home
Homeless-settle_home c s l cs out h d i =
    ap (λ (r : Realm). r.home)
      (set_civ-other l.civ c d _ (λ e. out (subst (λ n. In n cs) (sym e) i)))
    ∙ h d i

length-remove_civs :
    (civ : ℕ → Realm) (c : ℕ) (cs : List ℕ)
    → length (remove_civs_without_homes civ (c ∷ cs))
      ≤ suc (length (remove_civs_without_homes civ cs))
unfolding remove_civs_without_homes
length-remove_civs civ c cs = go ((civ c).home)
  where
    go :
        (home : Option ℕ)
        → length (elim home [
          | none ↦ remove_civs_without_homes civ cs
          | some s ↦ c ∷ remove_civs_without_homes civ cs
        ])
          ≤ suc (length (remove_civs_without_homes civ cs))
    go none = omega arith
    go (some s) = omega arith

remove_civs-Homeless :
    (l : Galaxy) (cs : List ℕ) → Homeless l cs → remove_civs_without_homes l.civ cs ≡ []
unfolding remove_civs_without_homes
remove_civs-Homeless l [] h = refl
remove_civs-Homeless l (c ∷ cs) h =
    ap
      (λ (home : Option ℕ). elim home [
        | none ↦ remove_civs_without_homes l.civ cs
        | some s ↦ c ∷ remove_civs_without_homes l.civ cs
      ])
      (h c (inl refl))
    ∙ remove_civs-Homeless l cs (λ d i. h d (inr i))

no_homes :
    (l : Galaxy) (cs : List ℕ)
    → Homeless l cs
    → length (remove_civs_without_homes l.civ cs) + l.inhabited_systems ≤ l.inhabited_systems
no_homes l cs h =
    subst (λ (xs : List ℕ). length xs + l.inhabited_systems ≤ l.inhabited_systems)
      (sym (remove_civs-Homeless l cs h)) (omega arith)

module _ (sqrt : ℤ → ℤ → ℕ) (rb_next : ℕ → Tree → Option ℕ) (u : Space) {G : Type 0}
    (mt_genrand_int32 : G → ℕ × G) (systems : Ptrlist ℕ) (len : systems.len ≡ length systems.list)
    (some_system : 0 < length systems.list) where
  -- A home is a system without an owner.
  abbrev Chosen : (ℕ → Option ℕ) → Option ℕ × G → Type 0
  Chosen owner (none, g) = Unit
  Chosen owner (some s, g) = In s systems.list × (owner s ≡ none)

  tested :
      (last : Bool) (s : ℕ) (g : G) (owner : ℕ → Option ℕ) (neigh : List ℕ)
      (again : Run (Option ℕ × G))
      → In s systems.list
      → Returns (Chosen owner) again
      → Returns (Chosen owner) (
          if last
          then ok (none, g)
          else if all_free owner (s ∷ []) && all_free owner neigh
          then ok (some s, g)
          else again)
  tested true s g owner neigh again i h = tt
  tested false s g owner neigh again i h = elim (Bool-cases (all_free owner (s ∷ []))) [
    | inr e ↦ rw e h
    | inl e ↦ elim (Bool-cases (all_free owner neigh)) [
      | inl k ↦ rw (e, k) (i, all_free-one owner s e)
      | inr k ↦ rw (e, k) h
    ]
  ]

  choose_home-Chosen :
      (tries : ℕ) (owner : ℕ → Option ℕ) (g : G)
      → Returns (Chosen owner) (choose_home sqrt rb_next u mt_genrand_int32 systems tries owner g)
  unfolding choose_home ptrlist_len
  choose_home-Chosen zero owner g = tt
  choose_home-Chosen (suc tries) owner g =
      let drawn = mtrandom_ulong mt_genrand_int32 systems.len g in
      let (s, e, i) = ptrlist_random_lem systems drawn.0 len (
        subst (λ n. drawn.0 < n) len
          (mtrandom_ulong-lt mt_genrand_int32 systems.len g (omega arith))) in
      Returns-bind (λ o. o ≡ some s) (Chosen owner) (ptrlist_random systems drawn.0) _
        (subst (Returns (λ o. o ≡ some s)) (sym e) refl)
        (λ o k.
          Returns-some (Chosen owner) o s (fault null_deref) _ k
            (tested (tries == 0) s drawn.1 owner _ _ i (choose_home-Chosen tries owner drawn.1)))

  -- The galaxy is peopled, and as many systems are counted as civilizations have got a home.
  abbrev pub Spawned : List ℕ → Galaxy → Galaxy × G → Type 0
  Spawned cs l q =
      Peopled systems.list q.0
      × (length (remove_civs_without_homes q.0.civ cs) + l.inhabited_systems
          ≤ q.0.inhabited_systems)

  pub spawn_civilizations-Spawned :
      (cs : List ℕ) (l : Galaxy) (g : G)
      → Apart systems.list
      → Apart cs
      → Homeless l cs
      → Peopled systems.list l
      → Returns (Spawned cs l) (spawn_civilizations sqrt rb_next u mt_genrand_int32 systems cs l g)
  unfolding spawn_civilizations settle_home
  spawn_civilizations-Spawned [] l g once a h p = (p, no_homes l [] h)
  spawn_civilizations-Spawned (c ∷ cs) l g once (out, a) h p =
      Returns-bind (Chosen l.owner) (Spawned (c ∷ cs) l)
        (choose_home sqrt rb_next u mt_genrand_int32 systems 100 l.owner g) _
        (choose_home-Chosen 100 l.owner g)
        (go (λ s g' i free.
          spawn_civilizations-Spawned cs (settle_home c s l) g' once a
            (Homeless-settle_home c s l cs out (λ d j. h d (inr j)))
            (settle_home-Peopled systems.list c s l once p i free)))
    where
      go :
          ((s : ℕ) (g' : G)
            → In s systems.list
            → l.owner s ≡ none
            → Returns (Spawned cs (settle_home c s l)) (
                spawn_civilizations sqrt rb_next u mt_genrand_int32 systems cs
                  (settle_home c s l)
                  g'))
          → (x : Option ℕ × G) → Chosen l.owner x
          → Returns (Spawned (c ∷ cs) l) (elim x.0 [
            | none ↦ ok (l, x.1)
            | some s ↦
                spawn_civilizations sqrt rb_next u mt_genrand_int32 systems cs
                  (settle_home c s l)
                  x.1
          ])
      go rest (none, g') k = (p, no_homes l (c ∷ cs) h)
      go rest (some s, g') (i, free) =
          Returns-weaken (Spawned cs (settle_home c s l)) (Spawned (c ∷ cs) l) _
            (λ q w. (w.0, omega (arith, w.1, length-remove_civs q.0.civ c cs))) (rest s g' i free)
