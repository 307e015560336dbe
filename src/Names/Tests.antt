-- ===== src/Names/Tests.antt =====
-- A made name.
use yastg.Prelude.{ℕ, List, [], ◌∷◌, ok, ◌≡◌, refl, ◌+◌, ◌≤◌, length}
use yastg.Stringtrie.Ops.{st_init}
use yastg.Ptrlist.Ops.{Ptrarray}
use yastg.Names.Ops.{NameList, Draw, picked, words_len, written, create_name, create_unique_name}
use yastg.Names.Unique.{length-written, Fresh, create_unique_name-Fresh}

abbrev one_word : List ℕ → Ptrarray (List ℕ)
one_word w = record { array = w ∷ []; alloc = 16 }

abbrev names : NameList
names = record {
  taken = st_init;
  prefix = one_word (b'M' ∷ b't' ∷ []);
  first = one_word (b'F' ∷ b'u' ∷ []);
  second = one_word (b'j' ∷ b'i' ∷ []);
  suffix = one_word (b'I' ∷ []);
}

abbrev draw : Draw
draw = record { choice = 0; outer = 0; first = 0; second = 0 }

name : create_name names draw ≡ ok (b'M' ∷ b't' ∷ 32 ∷ b'F' ∷ b'u' ∷ 32 ∷ b'j' ∷ b'i' ∷ [])
unfolding create_name
name = refl

length-written_example :
    length (written (picked names draw)) + 1 ≤ words_len (picked names draw) + 4
length-written_example = length-written names draw

create_unique_name-Fresh_example : Fresh names (create_unique_name names (draw ∷ []))
create_unique_name-Fresh_example = create_unique_name-Fresh names (draw ∷ [])
