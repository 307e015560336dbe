-- ===== src/Buffer/Tests.antt =====
-- A read into a fresh buffer.
use yastg.Prelude.{[], ◌∷◌, arith}
use yastg.Buffer.Ops.{buffer_init, read_into_buffer, room}
use yastg.Buffer.Bounds.{IsBuffer, Read, read_into_buffer-Read}

buffer_init-IsBuffer : IsBuffer buffer_init
unfolding buffer_init
buffer_init-IsBuffer = record { fits = omega arith; bounded = omega arith }

read_into_buffer-Read_example :
    Read buffer_init (b'g' ∷ b'o' ∷ 10 ∷ []) (read_into_buffer buffer_init (b'g' ∷ b'o' ∷ 10 ∷ []))
unfolding buffer_init room
read_into_buffer-Read_example =
    read_into_buffer-Read buffer_init (b'g' ∷ b'o' ∷ 10 ∷ []) buffer_init-IsBuffer (omega arith)
