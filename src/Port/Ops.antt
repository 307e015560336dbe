-- ===== src/Port/Ops.antt =====
-- port.c: the cargo and the name of a new port, over the store of Trade. Floating point is a parameter.
use yastg.Trade.Ops.{Store, Cargo, Hold, write}
use yastg.Mtrandom.{mtrandom_ulong, mtrandom_long, mtrandom_uint, to_int64}
use yastg.Civ.Ops.{to_ulong}
use yastg.Names.Ops.{NameList, Draw, create_unique_name}
use yastg.Ptrlist.Ops.{Ptrlist, ptrlist_random, ptrlist_len}
use yastg.Stringtrie.Ops.{st_add_string, st_init, st_lookup_string}
use yastg.Prelude.{
  Bool, List, Option, Run, [], false, fault, if◌then◌else◌, ltb, none, null_deref, ok, some, suc,
  true, zero, ℕ, ◌++◌, ◌+◌, ◌-◌, ◌/◌, ◌>>=◌, ◌^◌, ◌∷◌,
}
use yastg.Prelude.Int.{eqb_ℤ, ltb_ℤ, pos, ℤ}
use yastg.Stringtrie.Node.{Root}

-- What `port_genesis` computes in floating point: the ranges of two draws, from half of a number to
-- half more than it, and the amount 5 to the power of a logarithm.
pub record Floats : Type 0 where
  pub max_range : ℤ → ℕ
  pub new_max : ℤ → ℕ → ℤ
  pub change_range : ℤ → ℤ
  pub new_change : ℤ → ℤ → ℤ
  pub pow_log : ℤ → ℤ

-- `struct port`, as far as it is made; `type` is the cargo of the type.
pub record Port : Type 0 where
  pub type : List ℕ
  pub items : Hold
  pub name : Option (List ℕ)

module _ {G : Type 0} (mt_genrand_int32 : G → ℕ × G) (f : Floats) where
  -- The fields of a new cargo, from those of the type's.
  unfoldable pub new_cargo : Cargo → G → Cargo × G
  unfolding to_ulong to_int64
  new_cargo port_cargo g =
      let (r, g1) = mtrandom_ulong mt_genrand_int32 (f.max_range port_cargo.max) g in
      let max = f.new_max port_cargo.max r in
      let (d, g2) = mtrandom_long mt_genrand_int32 (f.change_range port_cargo.daily_change) g1 in
      let (a, g3) = mtrandom_ulong mt_genrand_int32 (to_ulong max) g2 in
      let amount = to_int64 a in
      (
        record {
          item = port_cargo.item;
          min = pos 0;
          max = max;
          amount = if ltb_ℤ (pos 10) amount then f.pow_log amount else amount;
          daily_change = f.new_change port_cargo.daily_change d;
          price = port_cargo.item.base_price;
          requires = [];
        },
        g3,
      )

  -- The first loop; the Boolean is false at the jump to `err`.
  unfoldable pub copy_items : List ℕ → Store → Hold → G → Bool × Store × Hold × G
  unfolding new_cargo write
  copy_items [] s port g = (true, s, port, g)
  copy_items (c ∷ items) s port g =
      let p = s.next in
      let (cargo, g') = new_cargo (s.cargo c) g in
      let s' = write (record s { next = p + 1 }) p cargo in
      let (r, names) = st_add_string port.names (some cargo.item.name) (some p) in
      if eqb_ℤ r (pos 0)
      then copy_items items s' (record { list = p ∷ port.list; names = names }) g'
      else (false, s', port, g')

  -- The loop over what a cargo requires. To push what is not found is a fault here, while the source
  -- pushes NULL.
  unfoldable pub copy_requires : Root ℕ → Option ℕ → List ℕ → Store → Run Store
  unfolding write
  copy_requires names cargo [] s = ok s
  copy_requires names cargo (req ∷ requires) s = do
    found ← st_lookup_string names (some (s.cargo req).item.name)
    elim cargo [
      | none ↦ fault null_deref
      | some p ↦ elim found [
        | none ↦ fault null_deref
        | some q ↦
            copy_requires names cargo requires
              (write s p (record (s.cargo p) { requires = (s.cargo p).requires ++ q ∷ [] }))
      ]
    ]

  -- The second loop.
  unfoldable pub copy_all_requires : Root ℕ → List ℕ → Store → Run Store
  unfolding copy_requires
  copy_all_requires names [] s = ok s
  copy_all_requires names (c ∷ items) s = do
    cargo ← st_lookup_string names (some (s.cargo c).item.name)
    s' ← copy_requires names cargo (s.cargo c).requires s
    copy_all_requires names items s'

  -- `port_genesis` from the type on, without the name.
  unfoldable pub stock_port : List ℕ → Store → G → Run (Bool × Store × Hold × G)
  unfolding copy_items copy_all_requires st_init
  stock_port type s g =
      let (done, s', port, g') = copy_items type s (record { list = []; names = st_init }) g in
      if done
      then (do s'' ← copy_all_requires port.names type s'; ok (true, s'', port, g'))
      else ok (false, s', port, g')

  -- `port_genesis`; `none` is -1. A port without a type reads NULL.
  unfoldable port_genesis :
      Ptrlist (List ℕ) → NameList → List Draw → Store → G → Run (Option Port × Store × NameList × G)
  unfolding stock_port create_unique_name ptrlist_random ptrlist_len
  port_genesis port_types avail_port_names draws s g =
      let (r, g') = mtrandom_ulong mt_genrand_int32 (ptrlist_len port_types) g in
      do
        chosen ← ptrlist_random port_types r
        elim chosen [
          | none ↦ fault null_deref
          | some type ↦ do
            (done, s', items, g'') ← stock_port type s g'
            elim done [
              | false ↦ ok (none, s', avail_port_names, g'')
              | true ↦ do
                (name, names) ← create_unique_name avail_port_names draws
                ok (some (record { type = type; items = items; name = name }), s', names, g'')
            ]
        ]

  -- The loop that counts the ports of a planet, by the number that is left of `PORT_MAXNUM`.
  unfoldable count_ports : ℕ → G → ℕ × G
  unfolding mtrandom_uint
  count_ports zero g = (0, g)
  count_ports (suc left) g =
      let (r, g') = mtrandom_uint mt_genrand_int32 (2 ^ 32 - 1) g in
      if ltb r ((2 ^ 32 - 1) / 2)
      then (let (num, g'') = count_ports left g' in (num + 1, g''))
      else (0, g')
