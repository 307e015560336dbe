-- ===== src/Civ/Growth.antt =====
-- civ.c: `grow_civ`.
use yastg.Civ.Ops.{
  Realm, Galaxy, set_owner, search, annex, grow_civ, is_border_system, civ_grow_step_ly,
}
use yastg.Civ.Settled.{Settled, owned, owned-set_owner, free_system}
use yastg.Civ.Claims.{Gains, Settled-Gains}
use yastg.Civ.Search.{search-Finds}
use yastg.Ptrlist.Ops.{
  Ptrlist, ptrlist_push, ptrlist_entry, ptrlist_rm, ptrlist_get, get_from, remove_at, ptrlist_len,
}
use yastg.PortUpdate.Rounds.{Apart}
use yastg.Universe.Ops.{Space, Tree, in_order, is_near}
use yastg.Universe.Ascending.{Ascending}
use yastg.Universe.Neighbours.{IsNext, IsRoot}
use yastg.Prelude.{
  Bool, In, In-append_cases, List, Returns, [], arith, false, if◌then◌else◌, inl, inr, length,
  length-append, ok, refl, subst, sym, true, ℕ, ◌++◌, ◌+◌, ◌<◌, ◌∷◌, ◌≡◌,
}
use yastg.Prelude.{Option, Returns-bind, none, suc, ◌*◌, ◌⊎◌}
use yastg.Prelude.Int.{ℤ}
use yastg.Prelude.{Bool-cases, Returns-some, assert_failed, fault, some, ◌==◌, ◌>>=◌}
use yastg.Universe.Links.{linksystems}

-- A list of a part of these, with its length.
abbrev Within : (ℕ → Type 0) → Ptrlist ℕ → Type 0
Within P l = (l.len ≡ length l.list) × ((q : ℕ) → In q l.list → P q)

first_entry :
    (xs : List ℕ) (n : ℕ)
    → 0 < length xs
    → (t : ℕ) × In t xs × (ptrlist_entry (record { list = xs; len = n }) 0 ≡ ok t)
unfolding ptrlist_entry ptrlist_get get_from
first_entry [] n h = absurd (omega arith)
first_entry (x ∷ xs) n h = (x, inl refl, refl)

rm-Within :
    (P : ℕ → Type 0) (xs : List ℕ) (n : ℕ)
    → 0 < length xs
    → Within P (record { list = xs; len = n })
    → Returns (Within P) (ptrlist_rm (record { list = xs; len = n }) 0)
unfolding ptrlist_rm ptrlist_get get_from remove_at
rm-Within P [] n h w = absurd (omega arith)
rm-Within P (x ∷ xs) n h (e, all) = (omega arith, λ q i. all q (inr i))

push-Within :
    (P : ℕ → Type 0) (l : Ptrlist ℕ) (s : ℕ) → P s → Within P l → Within P (ptrlist_push l s)
unfolding ptrlist_push
push-Within P l s p (e, all) = (
  omega (arith, length-append l.list (s ∷ [])),
  λ q i. elim (In-append_cases l.list (s ∷ []) q i) [
    | inl j ↦ all q j
    | inr (inl k) ↦ subst P (sym k) p
    | inr (inr j) ↦ absurd j
  ],
)

-- What the two tests of a border leave of it.
border-Within :
    (P : ℕ → Type 0) (l : Ptrlist ℕ) (s : ℕ) (new old : Bool)
    → 0 < length l.list
    → P s
    → Within P l
    → Returns (Within P) (
        let border = if new then ptrlist_push l s else l in
        if old then ok border else ptrlist_rm border 0)
unfolding ptrlist_push
border-Within P l s true true h p w = push-Within P l s p w
border-Within P l s false true h p w = w
border-Within P l s true false h p w =
    rm-Within P (l.list ++ s ∷ []) (l.len + 1) (omega (arith, length-append l.list (s ∷ [])))
      (push-Within P l s p w)
border-Within P l s false false h p w = rm-Within P l.list l.len h w

-- The tree is in order, `sqrt` and `rb_next` are what is relied on, the systems in the tree are of the
-- universe, neither has one twice, and each of the tree is near any of the universe at the last circle of a
-- search. A system of the universe need not be in the tree: `system_move` takes the one at x = 0 out.
pub record Charted (sqrt : ℤ → ℤ → ℕ) (rb_next : ℕ → Tree → Option ℕ) (u : Space) (systems : List ℕ)
    (fuel : ℕ) : Type 0 where
  pub is_root : IsRoot sqrt
  pub is_next : IsNext rb_next
  pub ascending : Ascending u.system (in_order u.x_rbtree)
  pub once : Apart systems
  pub apart : Apart (in_order u.x_rbtree)
  pub inside : (s : ℕ) → In s (in_order u.x_rbtree) → In s systems
  pub near :
      (t q : ℕ)
      → In t systems
      → In q (in_order u.x_rbtree)
      → is_near sqrt (u.system t) (civ_grow_step_ly + fuel * civ_grow_step_ly) (u.system q) ≡ true

gains :
    (r : Realm) (s : ℕ) (border : Ptrlist ℕ)
    → border.len ≡ length border.list
    → ((q : ℕ) → In q border.list → (q ≡ s) ⊎ In q r.border_systems.list)
    → Gains s r (record r { systems = ptrlist_push r.systems s; border_systems = border })
unfolding ptrlist_push
gains r s border e all = record {
  systems = refl;
  border = all;
  border_len = e;
  home = λ q i. inr i;
}

-- A settled galaxy with this many systems that have an owner.
abbrev Counted : List ℕ → ℕ → Galaxy → Type 0
Counted systems n g = Settled systems g × (owned g.owner systems ≡ n)

module _ (sqrt : ℤ → ℤ → ℕ) (rb_next : ℕ → Tree → Option ℕ) (u : Space) (systems : List ℕ)
    (fuel : ℕ) (charted : Charted sqrt rb_next u systems fuel) where
  -- One more system has an owner, and no more are counted yet.
  abbrev Annexed : Galaxy → Galaxy → Type 0
  Annexed g g' =
      Counted systems (suc (owned g.owner systems)) g'
      × (g'.inhabited_systems ≡ g.inhabited_systems)

  annex-Annexed :
      (c t s : ℕ) (g : Galaxy)
      → Settled systems g
      → In s systems
      → g.owner s ≡ none
      → 0 < length (g.civ c).border_systems.list
      → Returns (Annexed g) (annex sqrt rb_next u c t s g)
  unfolding annex
  annex-Annexed c t s g h i free some_border =
      let r = g.civ c in
      let rules = h.rules c in
      let owner = set_owner g.owner s c in
      let P : ℕ → Type 0 = λ q. (q ≡ s) ⊎ In q r.border_systems.list in
      Returns-bind (Within P) (Annexed g) _ _
        (border-Within P r.border_systems s (is_border_system sqrt rb_next u owner s c)
          (is_border_system sqrt rb_next u owner t c) some_border (inl refl)
          (rules.border_len, λ q j. inr j))
        (λ border' w. (
          (
            Settled-Gains systems g s c
                (record r { systems = ptrlist_push r.systems s; border_systems = border' })
                (linksystems s t g.links) g.inhabited_systems h free i (gains r s border' w.0 w.1),
            owned-set_owner g.owner s c systems charted.once i free,
          ),
          refl,
        ))

  abbrev pub Grown : Galaxy → Option Galaxy → Type 0
  Grown g none = Unit
  Grown g (some g') = Annexed g g'

  found-Grown :
      (c t s : ℕ) (g : Galaxy)
      → Returns (Annexed g) (annex sqrt rb_next u c t s g)
      → search sqrt rb_next u (suc fuel) g.owner t civ_grow_step_ly ≡ some s
      → Returns (Grown g) (elim (search sqrt rb_next u (suc fuel) g.owner t civ_grow_step_ly) [
        | none ↦ fault assert_failed
        | some s ↦ do g' ← annex sqrt rb_next u c t s g; ok (some g')
      ])
  found-Grown c t s g h e =
      Returns-some (Grown g) (search sqrt rb_next u (suc fuel) g.owner t civ_grow_step_ly) s _ _ e
        (Returns-bind (Annexed g) (Grown g) (annex sqrt rb_next u c t s g) _ h (λ g' k. k))

  -- Where fewer systems have an owner than there are in the tree, grow_civ ends, and the civilization has one system more
  -- or it had no border.
  pub grow_civ-Grown :
      (c : ℕ) (g : Galaxy)
      → Settled systems g
      → owned g.owner systems < length (in_order u.x_rbtree)
      → Returns (Grown g) (grow_civ sqrt rb_next u (suc fuel) c g)
  unfolding grow_civ ptrlist_len
  grow_civ-Grown c g h fewer =
      let r = g.civ c in
      let rules = h.rules c in
      elim (Bool-cases (r.border_systems.len == 0)) [
        | inl e ↦ rw e tt
        | inr e ↦
            let some_border : 0 < length r.border_systems.list =
              ground (arith, e, rules.border_len) in
            let (t, i, k) = first_entry r.border_systems.list r.border_systems.len some_border in
            let (q, j, free) =
              free_system g.owner (in_order u.x_rbtree) systems charted.apart charted.once
                charted.inside fewer in
            let (s, found, is_known, f) =
              search-Finds sqrt rb_next charted.is_root charted.is_next u charted.ascending fuel
                g.owner t civ_grow_step_ly q j free
                (charted.near t q (h.known t c (rules.border t i)) j) in
            rw (e, k)
              (found-Grown c t s g
                (annex-Annexed c t s g h (charted.inside s is_known) f some_border) found)
      ]
