-- ===== src/Port/Stock.antt =====
-- port.c: the cargo of a new port.
-- The items of a type: their cargo is older than `base`, has a name and a maximum in range, and requires
-- cargo of the type only.
use yastg.Config.Lookups.{st_add_string-IsLive, st_init-IsLive, value-st_add_string}
use yastg.Port.Amounts.{IsFloat, new_cargo-Full}
use yastg.Port.Ops.{Floats, copy_items, new_cargo}
use yastg.PortUpdate.Rounds.{Full}
use yastg.Prelude.{
  ==_iff, Bool, Bool-cases, In, List, [], ap, arith, false, if◌then◌else◌, inl, inr, refl, some,
  subst, sym, true, ℕ, ◌+◌, ◌<◌, ◌==◌, ◌^◌, ◌∙◌, ◌∷◌, ◌≡◌, ◌≢◌, ◌≤◌,
}
use yastg.Prelude.Int.{eqb_ℤ, pos, ℤ, ◌≤ℤ◌}
use yastg.Stringtrie.Keys.{same_key, same_key_refl}
use yastg.Stringtrie.Live.{IsLive}
use yastg.Stringtrie.Node.{Root}
use yastg.Stringtrie.Ops.{st_add_string, st_init}
use yastg.Stringtrie.Values.{value, value-add_path, value-empty_root}
use yastg.Trade.Ops.{Cargo, Hold, Item, Store, write}

pub record IsType (s0 : Store) (type : List ℕ) : Type 0 where
  pub older : (c : ℕ) → In c type → c < s0.next
  pub has_name : (c : ℕ) → In c type → (s0.cargo c).item.name ≢ []
  pub has_max :
      (c : ℕ) → In c type → (pos 0 ≤ℤ (s0.cargo c).max) × ((s0.cargo c).max ≤ℤ pos (2 ^ 62))
  pub closed : (c : ℕ) → In c type → (r : ℕ) → In r (s0.cargo c).requires → In r type

-- The cargo of the port that is made, from `s0` on: it is within its bounds and requires its own, the tree
-- finds no other, and it finds a cargo for each item that is `done`. The older cargo is as it was.
pub record Stocked (s0 : Store) (done : List ℕ) (s : Store) (names : Root ℕ) : Type 0 where
  pub live : IsLive names
  pub grown : s0.next ≤ s.next
  pub full : (p : ℕ) → s0.next ≤ p → p < s.next → Full (s.cargo p) (s.cargo p).amount
  pub needs :
      (p : ℕ)
      → s0.next ≤ p
      → p < s.next
      → (r : ℕ) → In r (s.cargo p).requires
      → (s0.next ≤ r) × (r < s.next)
  pub own : (t : List ℕ) (p : ℕ) → value names t ≡ some p → (s0.next ≤ p) × (p < s.next)
  pub found : (c : ℕ) → In c done → (p : ℕ) × (value names (s0.cargo c).item.name ≡ some p)
  pub old : (c : ℕ) → c < s0.next → s.cargo c ≡ s0.cargo c

-- A write at one place.
pub write_cases :
    (Q : Cargo → Type 0) (s : Store) (p q : ℕ) (x : Cargo)
    → (p ≡ q → Q x)
    → (p ≢ q → Q (s.cargo q))
    → Q ((write s p x).cargo q)
unfolding write
write_cases Q s p q x h k = elim (Bool-cases (p == q)) [
  | inl e ↦ rw e (h ((==_iff p q).0 e))
  | inr e ↦ rw e (k (λ i. absurd (cc (e, (==_iff p q).1 i))))
]

pub Stocked-init : (s0 : Store) → Stocked s0 [] s0 st_init
unfolding st_init
Stocked-init s0 = record {
  live = st_init-IsLive ℕ;
  grown = omega arith;
  full = λ p l h. absurd (omega arith);
  needs = λ p l h. absurd (omega arith);
  own = λ t p e. absurd (cc (value-empty_root {A = ℕ} t, e));
  found = λ c k. absurd k;
  old = λ c l. refl;
}

st_add_string_lem :
    (names : Root ℕ) (name : List ℕ) (x : ℕ)
    → name ≢ []
    → ((st_add_string names (some name) (some x)).0 ≡ pos 0)
      × ((t : List ℕ)
          → value (st_add_string names (some name) (some x)).1 t
            ≡ (if same_key name t then some x else value names t))
unfolding st_add_string
st_add_string_lem names [] x h = absurd (h refl)
st_add_string_lem names (c ∷ cs) x h = (refl, λ t. value-add_path names (c ∷ cs) (some x) t)

-- A new cargo under a name that is not empty.
Stocked-add :
    (s0 : Store) (done : List ℕ) (s : Store) (names : Root ℕ) (c : ℕ) (new : Cargo)
    → Stocked s0 done s names
    → new.item ≡ (s0.cargo c).item
    → new.requires ≡ []
    → Full new new.amount
    → (s0.cargo c).item.name ≢ []
    → let added = st_add_string names (some new.item.name) (some s.next) in
      (added.0 ≡ pos 0)
      × Stocked s0 (c ∷ done) (write (record s { next = s.next + 1 }) s.next new) added.1
unfolding write
Stocked-add s0 done s names c new h same none_required full has_name =
    let name = new.item.name in
    let e : name ≡ (s0.cargo c).item.name = ap (λ (i : Item). i.name) same in
    let p = s.next in
    let names' : Root ℕ = (st_add_string names (some name) (some p)).1 in
    let (zero_returned, values) = st_add_string_lem names name p (λ k. has_name (sym e ∙ k)) in
    let s' : Store = record s { next = p + 1 } in
    (
      zero_returned,
      record {
        live = st_add_string-IsLive names (some name) p h.live;
        grown = omega (arith, h.grown);
        full = λ q l k.
            write_cases (λ x. Full x x.amount) s' p q new (λ i. full)
              (λ n. h.full q l (omega arith));
        needs = λ q l k r.
            write_cases (λ x. In r x.requires → (s0.next ≤ r) × (r < p + 1)) s' p q new
              (λ i j. absurd (subst (In r) none_required j))
              (λ n j. let (lo, hi) = h.needs q l (omega arith) r j in (lo, omega arith));
        own = λ t q v. elim (value-st_add_string names name t p q v) [
          | inl i ↦ (subst (λ n. s0.next ≤ n) i h.grown, omega (arith, i))
          | inr k ↦ let (lo, hi) = h.own t q k in (lo, omega arith)
        ];
        found = λ d. elim [
          | inl i ↦ (
            p,
            ap (λ n. value names' (s0.cargo n).item.name) i
                ∙ ap (value names') (sym e)
                ∙ values name
                ∙ rw (same_key_refl name) refl,
          )
          | inr k ↦ let (q, v) = h.found d k in either_found (s0.cargo d).item.name q v values
        ];
        old = λ d l.
            write_cases (λ x. x ≡ s0.cargo d) s' p d new (λ i. absurd (omega (arith, h.grown)))
              (λ n. h.old d l);
      },
    )
  where
    either_found :
        (t : List ℕ) (q : ℕ)
        → value names t ≡ some q
        → ((t : List ℕ)
            → value (st_add_string names (some new.item.name) (some s.next)).1 t
              ≡ (if same_key new.item.name t then some s.next else value names t))
        → (r : ℕ) × (value (st_add_string names (some new.item.name) (some s.next)).1 t ≡ some r)
    either_found t q v values = elim (Bool-cases (same_key new.item.name t)) [
      | inl i ↦ (s.next, values t ∙ rw i refl)
      | inr i ↦ (q, values t ∙ rw i v)
    ]

module _ {G : Type 0} (mt_genrand_int32 : G → ℕ × G) (f : Floats) (is_float : IsFloat f) where
  -- After the first loop there is a cargo for each item that was copied or was there.
  abbrev pub Copied : Store → List ℕ → List ℕ → Bool × Store × Hold × G → Type 0
  Copied s0 done items q =
      (q.0 ≡ true)
      × (all : List ℕ) × ((c : ℕ) → In c done → In c all)
      × ((c : ℕ) → In c items → In c all)
      × Stocked s0 all q.1 q.2.names

  pub copy_items-Copied :
      (s0 : Store) (type : List ℕ) (done items : List ℕ) (s : Store) (port : Hold) (g : G)
      → IsType s0 type
      → ((c : ℕ) → In c items → In c type)
      → Stocked s0 done s port.names
      → Copied s0 done items (copy_items mt_genrand_int32 f items s port g)
  unfolding copy_items
  copy_items-Copied s0 type done [] s port g t sub h =
      (refl, done, (λ c k. k), (λ c k. absurd k), h)
  copy_items-Copied s0 type done (c ∷ items) s port g t sub h =
      let in_type = sub c (inl refl) in
      let same : s.cargo c ≡ s0.cargo c = h.old c (t.older c in_type) in
      let (lo, hi) = t.has_max c in_type in
      let made = new_cargo mt_genrand_int32 f (s.cargo c) g in
      let new = made.0 in
      let (full, item, none_required) =
        new_cargo-Full mt_genrand_int32 f is_float (s.cargo c) g
          (subst (λ (x : Cargo). pos 0 ≤ℤ x.max) (sym same) lo)
          (subst (λ (x : Cargo). x.max ≤ℤ pos (2 ^ 62)) (sym same) hi) in
      let (added, stocked) =
        Stocked-add s0 done s port.names c new h (item ∙ ap (λ (x : Cargo). x.item) same)
          none_required full (t.has_name c in_type) in
      let s' = write (record s { next = s.next + 1 }) s.next new in
      let names = (st_add_string port.names (some new.item.name) (some s.next)).1 in
      let port' : Hold = record { list = s.next ∷ port.list; names = names } in
      let (ended, all, old, rest, result) =
        copy_items-Copied s0 type (c ∷ done) items s' port' made.1 t (λ d k. sub d (inr k))
          stocked in
      subst
        (λ (r : ℤ). Copied s0 done (c ∷ items) (
          if eqb_ℤ r (pos 0)
          then copy_items mt_genrand_int32 f items s' port' made.1
          else (false, s', port, made.1)))
        (sym added)
        (
          ended,
          all,
          (λ d k. old d (inr k)),
          (λ d. elim [ inl e ↦ old d (inl e) | inr k ↦ rest d k ]),
          result,
        )
