-- ===== src/Server/Reading.antt =====
-- server.c: what `server_msg_cb` reads of a message.
use yastg.Prelude.{
  ==_iff, Bool-cases, In, List, [], ap, ap₂, arith, drop, if◌then◌else◌, inl, inr, length, lt→ltb,
  not, ok, refl, some, sym, take, ℕ, ◌++◌, ◌<◌, ◌==◌, ◌>>=◌, ◌^◌, ◌∷◌, ◌≡◌,
}
use yastg.Server.Ops.{
  Server, c_string, packed, read_message, server_handlesignal, server_msg_cb, unpacked,
}

unpacked-packed :
    (cnt type : ℕ)
    → cnt < 2 ^ 16
    → type < 2 ^ 32
    → unpacked (packed (record { cnt = cnt; type = type })) ≡ record { cnt = cnt; type = type }
unfolding packed unpacked
unpacked-packed cnt type h k =
    ap₂ (λ (c t : ℕ). record { cnt = c; type = t }) (omega arith) (omega arith)

pub c_string_lem : (s : List ℕ) → ¬ In 0 s → c_string (s ++ 0 ∷ []) ≡ ok s
unfolding c_string
c_string_lem [] h = refl
c_string_lem (b ∷ s) h = elim (Bool-cases (b == 0)) [
  | inl e ↦ absurd (h (inl (sym ((==_iff b 0).0 e))))
  | inr e ↦ rw (e, c_string_lem s (λ k. h (inr k))) refl
]

take-length : {A : Type 0} (xs ys : List A) → take (length xs) (xs ++ ys) ≡ xs
take-length [] ys = refl
take-length (x ∷ xs) ys = ap (λ l. x ∷ l) (take-length xs ys)

drop-length : {A : Type 0} (xs ys : List A) → drop (length xs) (xs ++ ys) ≡ ys
drop-length [] ys = refl
drop-length (x ∷ xs) ys = drop-length xs ys

pub server_msg_cb-packed :
    (cnt type : ℕ) (pipe : List ℕ) (s : Server)
    → cnt < 2 ^ 16
    → type < 2 ^ 32
    → server_msg_cb (packed (record { cnt = cnt; type = type }) ++ pipe) s
      ≡ read_message (record { cnt = cnt; type = type }) pipe s
unfolding server_msg_cb packed
server_msg_cb-packed cnt type pipe s h k =
    ap (λ msg. read_message msg pipe s) (unpacked-packed cnt type h k)

-- What has six bytes is handled.
pub read_message-append :
    (type : ℕ) (bytes rest : List ℕ) (s : Server)
    → 0 < length bytes
    → read_message (record { cnt = length bytes; type = type }) (bytes ++ rest) s ≡ (
        if not (length bytes == 6) then ok (rest, s) else (do
          s' ← server_handlesignal (record { cnt = length bytes; type = type }) (some bytes) s
          ok (rest, s')))
unfolding read_message
read_message-append type bytes rest s l =
    rw (lt→ltb 0 (length bytes) l, take-length bytes rest, drop-length bytes rest) refl
