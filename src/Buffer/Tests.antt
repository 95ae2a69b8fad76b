-- ===== src/Buffer/Tests.antt =====
-- Runs of the functions of src/buffer.cc, and the theorems about them at concrete buffers.
use v8h.Base.{◌≡◌, refl, [], ◌∷◌, arith}
use v8h.Base.Memory.{peek, poke}
use v8h.Base.Outcome.{ok}
use v8h.Algorithm
use v8h.Buffer.{
  Buffer, outside, grow_loop, commit, realloc, prepare, write, read_source, write_uint32, consume,
  read, read_uint32, partial_find,
}
use v8h.Buffer.Queue
use v8h.Buffer.Queue.{run_refines}
use v8h.Buffer.Samples.{
  zeros, sample, token, empty_buffer, sample-IsValid, token-IsValid, empty_buffer-IsValid,
}
use v8h.Buffer.Valid.{IsValid, contents, IsPrepared, prepare-IsPrepared}
use v8h.Buffer.Write.{IsAppended, write-IsAppended}
use v8h.Buffer.Consume.{consume-drop}
use v8h.Buffer.Read.{read_uint32-repeats, read_uint32-write_uint32}
use v8h.Buffer.Search.{partial_find-IsAppended}

-- Three bytes do not fit behind the six in use, so that the capacity becomes 24.
abbrev longer : Buffer
longer = record sample {
  block =
      1 ∷ 2 ∷ 97 ∷ 98 ∷ 99 ∷ 100 ∷ 101 ∷ 102 ∷ 103 ∷ 0 ∷ 0 ∷ 0 ∷ 0 ∷ 0 ∷ 0 ∷ 0 ∷ 0 ∷ 0 ∷ 0 ∷ 0 ∷ 0
      ∷ 0 ∷ 0 ∷ 0 ∷ [];
  size = 7;
  used = 9;
  reserve = 24;
  reported = 200;
}

write_runs : write zeros sample (outside (101 ∷ 102 ∷ 103 ∷ [])) 3 ≡ ok longer
unfolding write prepare grow_loop realloc read_source commit peek poke
write_runs = refl

-- "cde" is not in "abcd", but its beginning is at its end.
partial_find_positions :
    (partial_find sample token 0 ≡ ok 2)
    × (partial_find longer token 2 ≡ ok 2)
    × (partial_find sample empty_buffer 3 ≡ ok 3)
    × (partial_find sample token 9 ≡ ok 4)
unfolding partial_find Algorithm.partial_find peek
partial_find_positions = (refl, refl, refl, refl)

read_twice :
    (b : Buffer) × (read_uint32 sample (0 ∷ 0 ∷ 0 ∷ 0 ∷ []) ≡ ok (b, 1684234849)) × (b.cursor ≡ 2)
unfolding read_uint32 read commit Algorithm.min_of peek poke
read_twice = (commit sample 4, refl, refl)

write-IsAppended_example :
    (b' : Buffer) × (write zeros sample (outside (101 ∷ 102 ∷ 103 ∷ 104 ∷ [])) 3 ≡ ok b')
    × IsAppended sample (101 ∷ 102 ∷ 103 ∷ []) b'
write-IsAppended_example =
    write-IsAppended zeros sample (101 ∷ 102 ∷ 103 ∷ 104 ∷ []) 3 sample-IsValid (omega arith)
      (omega arith)

prepare-IsPrepared_example :
    (b' : Buffer) × (prepare zeros sample 30 ≡ ok (b', 6)) × IsPrepared sample 30 b'
prepare-IsPrepared_example = prepare-IsPrepared zeros sample 30 sample-IsValid (omega arith)

consume-drop_example :
    IsValid (consume sample 3)
    × (contents (consume sample 3) ≡ 100 ∷ [])
    × ((consume sample 3).reserve ≡ 8)
    × ((consume sample 3).used ≡ 6)
consume-drop_example = consume-drop 3 sample-IsValid

read_uint32-repeats_example :
    (read_uint32 sample (0 ∷ 0 ∷ 0 ∷ 0 ∷ []) ≡ ok (commit sample 4, 1684234849))
    × (read_uint32 (commit sample 4) (5 ∷ 5 ∷ 5 ∷ 5 ∷ [])
        ≡ ok (commit (commit sample 4) 4, 1684234849))
    × ((commit sample 4).size ≡ 8)
    × ((commit sample 4).cursor ≡ 2)
read_uint32-repeats_example =
    read_uint32-repeats (0 ∷ 0 ∷ 0 ∷ 0 ∷ []) (5 ∷ 5 ∷ 5 ∷ 5 ∷ []) sample-IsValid (omega arith)
      (omega arith) refl refl

read_uint32-write_uint32_example :
    (b' : Buffer) × (write_uint32 zeros empty_buffer 305419896 ≡ ok b')
    × (read_uint32 b' (1 ∷ 2 ∷ 3 ∷ 4 ∷ []) ≡ ok (commit b' 4, 305419896))
read_uint32-write_uint32_example =
    read_uint32-write_uint32 zeros empty_buffer 305419896 (1 ∷ 2 ∷ 3 ∷ 4 ∷ []) empty_buffer-IsValid
      (omega arith) refl (omega arith) refl

longer-IsAppended : IsAppended sample (101 ∷ 102 ∷ 103 ∷ []) longer
longer-IsAppended = record {
  valid = omega arith;
  appended = refl;
  same_cursor = refl;
  grown_size = refl;
  grown_used = refl;
  larger = omega arith;
}

partial_find-IsAppended_example : partial_find longer token 2 ≡ partial_find longer token 0
partial_find-IsAppended_example =
    partial_find-IsAppended sample longer token (101 ∷ 102 ∷ 103 ∷ []) 0 2 sample-IsValid
      token-IsValid (omega arith) longer-IsAppended (omega arith) (omega arith)
      partial_find_positions.0

run_refines_example :
    (b' : Buffer) × (Queue.run zeros sample
        (Queue.write (101 ∷ 102 ∷ 103 ∷ []) ∷ Queue.consume 2 ∷ Queue.sweep ∷ [])
      ≡ ok b')
    × IsValid b'
    × (contents b' ≡ 99 ∷ 100 ∷ 101 ∷ 102 ∷ 103 ∷ [])
run_refines_example =
    run_refines zeros (Queue.write (101 ∷ 102 ∷ 103 ∷ []) ∷ Queue.consume 2 ∷ Queue.sweep ∷ [])
      sample sample-IsValid (omega arith)
