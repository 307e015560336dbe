-- ===== src/Port/Requires.antt =====
-- port.c: what the cargo of a new port requires.
use yastg.Port.Ops.{Floats, copy_requires, copy_all_requires, stock_port, copy_items}
use yastg.Port.Stock.{IsType, Stocked, Stocked-init, Copied, copy_items-Copied, write_cases}
use yastg.Trade.Ops.{Store, Cargo, Hold, write}
use yastg.PortUpdate.Rounds.{Full}
use yastg.Prelude.{
  In, In-append_cases, List, Option, Returns, Returns-bind, Run, [], ap, append-nil, arith, fault,
  inl, inr, none, null_deref, ok, refl, some, subst, sym, ℕ, ◌++◌, ◌<◌, ◌>>=◌, ◌∙◌, ◌∷◌, ◌≡◌, ◌≢◌,
  ◌≤◌,
}
use yastg.Stringtrie.Live.{IsLive}
use yastg.Stringtrie.Lookup.{Outcome, st_lookup_string-IsLive}
use yastg.Stringtrie.Node.{Root}
use yastg.Stringtrie.Ops.{st_lookup_string}
use yastg.Stringtrie.Values.{value}
use yastg.Prelude.{Bool, false, if◌then◌else◌, true}
use yastg.Stringtrie.Ops.{st_init}
use yastg.Port.Amounts.{IsFloat}

lookup_exact :
    (names : Root ℕ) (name : List ℕ) (q : ℕ)
    → IsLive names
    → name ≢ []
    → value names name ≡ some q
    → st_lookup_string names (some name) ≡ ok (some q)
lookup_exact names [] q live full v = absurd (full refl)
lookup_exact names (c ∷ cs) q live full v =
    exact (st_lookup_string names (some (c ∷ cs))) (st_lookup_string-IsLive names c cs live)
  where
    here : value names ((c ∷ cs) ++ []) ≡ some q
    here = ap (value names) (append-nil (c ∷ cs)) ∙ v

    exact : (r : Run (Option ℕ)) → Outcome (λ t. value names ((c ∷ cs) ++ t)) r → r ≡ ok (some q)
    exact (ok none) (e, k) = absurd (cc (e, here))
    exact (ok (some x)) (inl e) = ap ok (sym e ∙ here)
    exact (ok (some x)) (inr (e, k)) = absurd (cc (e, here))
    exact (fault stop) k = absurd k

Stocked-push :
    (s0 : Store) (all : List ℕ) (s : Store) (names : Root ℕ) (p q : ℕ)
    → Stocked s0 all s names
    → s0.next ≤ p
    → (s0.next ≤ q) × (q < s.next)
    → Stocked s0 all
        (write s p (record (s.cargo p) { requires = (s.cargo p).requires ++ q ∷ [] }))
        names
unfolding write
Stocked-push s0 all s names p q h low own =
    let x : Cargo = record (s.cargo p) { requires = (s.cargo p).requires ++ q ∷ [] } in
    record {
      live = h.live;
      grown = h.grown;
      full = λ r l k.
          write_cases (λ c. Full c c.amount) s p r x
            (λ e. subst (λ n. Full (s.cargo n) (s.cargo n).amount) (sym e) (h.full r l k))
            (λ n. h.full r l k);
      needs = λ r l k m.
          write_cases (λ c. In m c.requires → (s0.next ≤ m) × (m < s.next)) s p r x
            (λ e i. elim (In-append_cases (s.cargo p).requires (q ∷ []) m i) [
              | inl j ↦ h.needs r l k m (subst (λ n. In m (s.cargo n).requires) e j)
              | inr (inl j) ↦ subst (λ n. (s0.next ≤ n) × (n < s.next)) (sym j) own
              | inr (inr j) ↦ absurd j
            ])
            (λ n. h.needs r l k m);
      own = h.own;
      found = h.found;
      old = λ c l.
          write_cases (λ y. y ≡ s0.cargo c) s p c x (λ e. absurd (omega arith)) (λ n. h.old c l);
    }

module _ {G : Type 0} (mt_genrand_int32 : G → ℕ × G) (f : Floats) (s0 : Store) (type all : List ℕ)
    (is_type : IsType s0 type) (has_all : (c : ℕ) → In c type → In c all) (names : Root ℕ) where
  -- The lookup of the name of an item.
  found_item :
      (s : Store) (c : ℕ)
      → Stocked s0 all s names
      → In c type
      → (p : ℕ) × (st_lookup_string names (some (s.cargo c).item.name) ≡ ok (some p))
        × (s0.next ≤ p)
        × (p < s.next)
  found_item s c h i =
      let (p, v) = h.found c (has_all c i) in
      let (lo, hi) = h.own (s0.cargo c).item.name p v in
      (
        p,
        ap (λ (x : Cargo). st_lookup_string names (some x.item.name)) (h.old c (is_type.older c i))
            ∙ lookup_exact names (s0.cargo c).item.name p h.live (is_type.has_name c i) v,
        lo,
        hi,
      )

  copy_requires-Stocked :
      (p : ℕ) (requires : List ℕ) (s : Store)
      → Stocked s0 all s names
      → s0.next ≤ p
      → ((r : ℕ) → In r requires → In r type)
      → Returns
          (λ s'. Stocked s0 all s' names)
          (copy_requires mt_genrand_int32 f names (some p) requires s)
  unfolding copy_requires
  copy_requires-Stocked p [] s h low sub = h
  copy_requires-Stocked p (r ∷ requires) s h low sub =
      let (q, e, own_low, own_high) = found_item s r h (sub r (inl refl)) in
      subst
        (λ (o : Run (Option ℕ)).
          Returns (λ s'. Stocked s0 all s' names)
            (o >>= λ found. elim found [
              | none ↦ fault null_deref
              | some q ↦
                  copy_requires mt_genrand_int32 f names (some p) requires
                    (write s p (record (s.cargo p) { requires = (s.cargo p).requires ++ q ∷ [] }))
            ]))
        (sym e)
        (copy_requires-Stocked p requires _
          (Stocked-push s0 all s names p q h low (own_low, own_high)) low (λ m k. sub m (inr k)))

  copy_all_requires-Stocked :
      (items : List ℕ) (s : Store)
      → Stocked s0 all s names
      → ((c : ℕ) → In c items → In c type)
      → Returns (λ s'. Stocked s0 all s' names) (copy_all_requires mt_genrand_int32 f names items s)
  unfolding copy_all_requires
  copy_all_requires-Stocked [] s h sub = h
  copy_all_requires-Stocked (c ∷ items) s h sub =
      let i = sub c (inl refl) in
      let (p, e, lo, hi) = found_item s c h i in
      let closed : (r : ℕ) → In r (s.cargo c).requires → In r type = λ r k.
        is_type.closed c i r
          (subst (λ (x : Cargo). In r x.requires) (h.old c (is_type.older c i)) k) in
      subst
        (λ (o : Run (Option ℕ)).
          Returns (λ s'. Stocked s0 all s' names)
            (o >>= λ cargo.
              copy_requires mt_genrand_int32 f names cargo (s.cargo c).requires s >>= λ s'.
              copy_all_requires mt_genrand_int32 f names items s'))
        (sym e)
        (Returns-bind (λ s'. Stocked s0 all s' names) (λ s'. Stocked s0 all s' names)
          (copy_requires mt_genrand_int32 f names (some p) (s.cargo c).requires s) _
          (copy_requires-Stocked p (s.cargo c).requires s h lo closed)
          (λ s' k. copy_all_requires-Stocked items s' k (λ d j. sub d (inr j))))

-- The store and the items of a port that has been stocked.
abbrev pub StockedPort : {G : Type 0} → Store → List ℕ → Bool × Store × Hold × G → Type 0
StockedPort s0 type q =
    (q.0 ≡ true) × (all : List ℕ) × ((c : ℕ) → In c type → In c all) × Stocked s0 all q.1 q.2.names

-- Where each item of a type has a name and a maximum from 0 to 2 ^ 62 and requires items of the
-- type only, and the floating point is in range, the two loops of port_genesis end without a fault
-- and without an error by any random generator. Each new cargo is from 0 to its maximum and
-- requires new cargo only, the tree of the port finds a new cargo for each item and no old one, and
-- the old cargo is as it was.
pub stock_port-StockedPort :
    {G : Type 0} (mt_genrand_int32 : G → ℕ × G) (f : Floats) (type : List ℕ) (s : Store) (g : G)
    → IsFloat f
    → IsType s type
    → Returns (StockedPort s type) (stock_port mt_genrand_int32 f type s g)
unfolding stock_port
stock_port-StockedPort {G} mt_genrand_int32 f type s g is_float is_type =
    go (copy_items mt_genrand_int32 f type s (record { list = []; names = st_init }) g) (
      copy_items-Copied mt_genrand_int32 f is_float s type [] type s
        (record { list = []; names = st_init }) g is_type (λ c k. k) (Stocked-init s))
  where
    go :
        (q : Bool × Store × Hold × G)
        → Copied mt_genrand_int32 f is_float s [] type q
        → Returns (StockedPort s type) (
            if q.0
            then (do
              s'' ← copy_all_requires mt_genrand_int32 f q.2.names type q.1
              ok (true, s'', q.2, q.3))
            else ok (false, q.1, q.2, q.3))
    go (false, s', port, g') (e, all, old, has_all, h) = absurd (cc e)
    go (true, s', port, g') (e, all, old, has_all, h) =
        Returns-bind (λ s''. Stocked s all s'' port.names) (StockedPort s type)
          (copy_all_requires mt_genrand_int32 f port.names type s') _
          (copy_all_requires-Stocked mt_genrand_int32 f s type all is_type has_all port.names type
            s' h (λ c k. k))
          (λ s'' k. (refl, all, has_all, k))
