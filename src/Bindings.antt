-- ===== src/Bindings.antt =====
-- src/c.h: the class `C`, with which JavaScript calls the C library. The library is a parameter but for
pub mod Tidy
pub mod Arguments
pub mod Calls
pub mod Texts
mod Tests
-- its memory; so is V8.
use v8h.Base.{
  ℕ, ◌+◌, ◌-◌, ◌*◌, ◌%◌, ◌^◌, List, [], ◌∷◌, ◌++◌, Bool, Option, none, some, ltb, ◌==◌,
  if◌then◌else◌, length, get_or, int_to_size, size_to_int, int_mod,
}
use v8h.Base.Outcome.{Outcome, ok, ◌>>=◌}
use v8h.Engine.{Engine}
use v8h.Heap
use v8h.Heap.{Heap, load, store, c_string}
use v8h.Forward.{Callback}
use v8h.Forward.Functions.{c_function_1_0, c_function_1_1, c_function_2_1, c_function_4_1}
use v8h.Helper.{World, to_pchar, to_int, to_uint, to_ptr, pointer_or_null}

-- What the C library does, texts being read. A `FILE *` is an address in memory of the library's own,
-- and so is the text of `strerror`; 0 is NULL.
pub record Library : Type 1 where
  pub System : Type 0
  pub errno : System → ℕ
  pub perror : System → List ℕ → System
  pub access : System → List ℕ → ℕ → ℕ × System
  -- the count, and the bytes that are stored
  pub fread : System → ℕ → ℕ → ℕ → ℕ × List ℕ × System
  pub fwrite : System → ℕ → List ℕ → ℕ → ℕ × System
  pub feof : System → ℕ → ℕ
  pub ferror : System → ℕ → ℕ
  pub fclose : System → ℕ → ℕ × System
  pub fopen : System → List ℕ → List ℕ → ℕ × System
  pub puts : System → List ℕ → ℕ × System
  pub realpath : System → List ℕ → Option (List ℕ) × System
  pub strerror : System → ℕ → ℕ

module _ (e : Engine) (fresh : ℕ → ℕ) (lib : Library) where
  open e use {Value, undefined, new_int, new_string, new_boolean, unwrap, int32_value}

  abbrev pub Process : Type 0
  Process = World lib.System

  abbrev pub Binding : Type 0
  Binding = Callback Process Value

  -- a result of the library with the system after it
  abbrev pub back : {R : Type 0} → Process → R × lib.System → Outcome (R × Process)
  back w (r, s) = ok (r, record w { system = s })

  unfoldable pub malloc : Binding
  malloc = c_function_1_1 undefined (to_int e fresh) (pointer_or_null e fresh) (λ n w.
      let (p, h) = Heap.malloc fresh (int_to_size n) w.heap in ok (p, record w { heap = h }))

  unfoldable pub free : Binding
  free =
      c_function_1_0 undefined (to_ptr e fresh)
        (λ p w. Heap.free p w.heap >>= λ h. ok (record w { heap = h }))

  -- `perror` takes NULL for no text.
  unfoldable pub call_perror : ℕ → Process → Outcome Process
  call_perror p w = (if p == 0 then ok [] else c_string p w.heap) >>= λ text.
      ok (record w { system = lib.perror w.system text })

  unfoldable pub perror : Binding
  unfolding call_perror
  perror = c_function_1_0 undefined (to_pchar e fresh) call_perror

  unfoldable pub access : Binding
  access =
      c_function_2_1 undefined (to_pchar e fresh) (to_int e fresh) new_int
        (λ p mode w. c_string p w.heap >>= λ path. back w (lib.access w.system path mode))

  unfoldable pub call_fread : ℕ → ℕ → ℕ → ℕ → Process → Outcome (ℕ × Process)
  call_fread p size n file w = do
    let (count, bytes, s) = lib.fread w.system file size n
    h ← store p 0 bytes w.heap
    ok (size_to_int count, record { heap = h; system = s })

  unfoldable pub fread : Binding
  unfolding call_fread
  fread =
      c_function_4_1 undefined (to_pchar e fresh) (to_uint e fresh) (to_uint e fresh)
        (to_ptr e fresh) new_int call_fread

  unfoldable pub call_fwrite : ℕ → ℕ → ℕ → ℕ → Process → Outcome (ℕ × Process)
  call_fwrite p size n file w = do
    bytes ← load p (size * n) w.heap
    (count, w') ← back w (lib.fwrite w.system file bytes size)
    ok (size_to_int count, w')

  unfoldable pub fwrite : Binding
  unfolding call_fwrite
  fwrite =
      c_function_4_1 undefined (to_pchar e fresh) (to_uint e fresh) (to_uint e fresh)
        (to_ptr e fresh) new_int call_fwrite

  unfoldable pub feof : Binding
  feof =
      c_function_1_1 undefined (to_ptr e fresh) new_int (λ file w. ok (lib.feof w.system file, w))

  unfoldable pub ferror : Binding
  ferror =
      c_function_1_1 undefined (to_ptr e fresh) new_int (λ file w. ok (lib.ferror w.system file, w))

  unfoldable pub fclose : Binding
  fclose =
      c_function_1_1 undefined (to_ptr e fresh) new_int
        (λ file w. back w (lib.fclose w.system file))

  unfoldable pub call_fopen : ℕ → ℕ → Process → Outcome (ℕ × Process)
  call_fopen p q w = do
    path ← c_string p w.heap
    mode ← c_string q w.heap
    back w (lib.fopen w.system path mode)

  unfoldable pub fopen : Binding
  unfolding call_fopen
  fopen =
      c_function_2_1 undefined (to_pchar e fresh) (to_pchar e fresh) (pointer_or_null e fresh)
        call_fopen

  unfoldable pub puts : Binding
  puts =
      c_function_1_1 undefined (to_pchar e fresh) new_int
        (λ p w. c_string p w.heap >>= λ text. back w (lib.puts w.system text))

  -- The result is written to the second pointer, or to new memory where that is NULL.
  unfoldable pub call_realpath : ℕ → ℕ → Process → Outcome (ℕ × Process)
  call_realpath p q w = do
    path ← c_string p w.heap
    (found, w') ← back w (lib.realpath w.system path)
    elim found [
      | none ↦ ok (0, w')
      | some text ↦
          let (new, roomy) = Heap.malloc fresh (length text + 1) w'.heap in
          let (to, heap) : ℕ × Heap = if q == 0 then (new, roomy) else (q, w'.heap) in
          store to 0 (text ++ (0 ∷ [])) heap >>= λ h. ok (to, record w' { heap = h })
    ]

  unfoldable pub realpath : Binding
  unfolding call_realpath
  realpath =
      c_function_2_1 undefined (to_pchar e fresh) (to_pchar e fresh) (pointer_or_null e fresh)
        call_realpath

  unfoldable pub strerror : Binding
  strerror =
      c_function_1_1 undefined (to_int e fresh) (pointer_or_null e fresh)
        (λ n w. ok (lib.strerror w.system n, w))

  -- `string`: the text that an address points to, or so many bytes of it. V8 takes a length of -1 for
  -- none; any other negative one is more than there can be.
  unfoldable pub text_at : ℕ → List Value → Process → Outcome (List ℕ)
  text_at p args w =
      let n = int32_value (get_or args 1 undefined) in
      if ltb 1 (length args)
      then (if n == int_mod - 1 then c_string p w.heap else load p n w.heap)
      else c_string p w.heap

  unfoldable pub string : Binding
  unfolding text_at
  string this args w =
      text_at (unwrap (get_or args 0 undefined)) args w >>= λ text. ok (new_string text, w)

  unfoldable pub get_errno : Process → Value
  get_errno w = new_int (lib.errno w.system)

  unfoldable pub is_null : Binding
  is_null this args w = ok (new_boolean (unwrap (get_or args 0 undefined) == 0), w)
