-- ===== src/Bindings/Tests.antt =====
-- The theorems about src/c.h over a small engine and a C library that is a list of files.
use v8h.Base.{
  ℕ, suc, ◌+◌, ◌≤◌, ◌<◌, ◌≡◌, refl, ap, List, [], ◌∷◌, ◌++◌, Bool, true, false, Option, none, some,
  arith, ◌==◌, if◌then◌else◌, length, take, take_all, tabulate,
}
use v8h.Base.Outcome.{ok, fault}
use v8h.Engine.Samples.{Js, undefined, number, pointer, text, bytes_of_text, engine}
use v8h.Heap.{IsHeap, store, free, block_at, c_string}
use v8h.Helper.{
  World, to_char_pointer, smart_string, destroy, SmartString, pointer_or_null, to_pchar, to_int,
  to_ptr,
}
use v8h.Helper.SmartText.{WritesUtf8}
use v8h.Forward.{with_arg}
use v8h.Forward.Functions.{c_function_1_1, c_function_1_0}
use v8h.Bindings
use v8h.Bindings.{Library}
use v8h.Bindings.Tidy.{Tidy}
use v8h.Bindings.Calls.{calls-Tidy}
use v8h.Bindings.Texts.{realpath_lem}

engine-WritesUtf8 : WritesUtf8 engine
engine-WritesUtf8 v =
    omega (arith, ap length (take_all (length (bytes_of_text v)) (bytes_of_text v) (omega arith)))

abbrev zeros : ℕ → ℕ
zeros i = 0

-- `fopen` returns the address 1000; the system is what has been printed. `realpath` finds "/a".
abbrev library : Library
library = record {
  System = List ℕ;
  errno = λ s. 2;
  perror = λ s l. s ++ l;
  access = λ s path mode. (0, s);
  fread = λ s file size n. (2, 104 ∷ 105 ∷ [], s);
  fwrite = λ s file bytes size. (length bytes, s ++ bytes);
  feof = λ s file. 1;
  ferror = λ s file. 0;
  fclose = λ s file. (0, s);
  fopen = λ s path mode. (1000, s ++ (path ++ mode));
  puts = λ s l. (1, s ++ l);
  realpath = λ s path. (some (47 ∷ 97 ∷ []), s);
  strerror = λ s n. 2000;
}

-- one block, at address 1
abbrev process : World (List ℕ)
process = record { heap = record { next = 2; blocks = (1, 0 ∷ 0 ∷ 0 ∷ 0 ∷ []) ∷ [] }; system = [] }

process-IsHeap : IsHeap process.heap
process-IsHeap = record { positive = omega arith; old = (omega arith, tt) }

abbrev path : Js
path = text (47 ∷ 98 ∷ [])

abbrev mode : Js
mode = text (114 ∷ [])

realpath_lem_example :
    (Bindings.realpath engine zeros library undefined (path ∷ path ∷ []) process
      ≡ ok (pointer 3, record process { heap = record process.heap { next = 4 } }))
    × (block_at 3 (record process.heap { next = 4 }) ≡ fault)
realpath_lem_example =
    realpath_lem engine zeros library engine-WritesUtf8 process undefined path path [] (refl, refl)
      (refl, refl) (omega arith) (47 ∷ 97 ∷ []) process-IsHeap refl

abbrev args : List Js
args = path ∷ mode ∷ []

calls-Tidy_example :
    Tidy process (Bindings.perror engine zeros library undefined args process)
    × Tidy process (Bindings.access engine zeros library undefined args process)
    × Tidy process (Bindings.fread engine zeros library undefined args process)
    × Tidy process (Bindings.fwrite engine zeros library undefined args process)
    × Tidy process (Bindings.feof engine zeros library undefined args process)
    × Tidy process (Bindings.ferror engine zeros library undefined args process)
    × Tidy process (Bindings.fclose engine zeros library undefined args process)
    × Tidy process (Bindings.fopen engine zeros library undefined args process)
    × Tidy process (Bindings.puts engine zeros library undefined args process)
    × Tidy process (Bindings.strerror engine zeros library undefined args process)
    × Tidy process (Bindings.string engine zeros library undefined args process)
calls-Tidy_example = calls-Tidy engine zeros library undefined args process (omega arith)

-- Two bytes are read to a block, and the block is freed, by its address.
read_and_freed :
    (w : World (List ℕ)) × (Bindings.fread engine zeros library undefined
        (pointer 1 ∷ number 1 ∷ number 2 ∷ pointer 1000 ∷ [])
        process
      ≡ ok (number 2, w))
    × (c_string 1 w.heap ≡ ok (104 ∷ 105 ∷ []))
    × (Bindings.free engine zeros library undefined (pointer 1 ∷ []) w
        ≡ ok (undefined, record { heap = record { next = 2; blocks = [] }; system = [] }))
unfolding Bindings.fread c_string Bindings.free to_ptr to_pchar v8h.Helper.to_uint
    v8h.Bindings.call_fread c_function_1_0 v8h.Forward.Functions.c_function_4_1 with_arg free store
    block_at v8h.Base.Memory.poke to_char_pointer smart_string destroy
read_and_freed = (
  record process { heap = record { next = 2; blocks = (1, 104 ∷ 105 ∷ 0 ∷ 0 ∷ []) ∷ [] } },
  refl,
  refl,
  refl,
)
