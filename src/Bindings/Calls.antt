-- ===== src/Bindings/Calls.antt =====
-- The functions of src/c.h that leave the live memory as it is.
use v8h.Base.{ℕ, ◌<◌, ◌*◌, refl, List, [], ◌==◌, if◌then◌else◌, size_to_int, get_or}
use v8h.Base.Outcome.{Outcome, ok, fault, spin, ◌>>=◌}
use v8h.Engine.{Engine}
use v8h.Heap.{Heap, load, store, c_string}
use v8h.Forward.{Conversion, plain}
use v8h.Helper.{World, to_pchar, to_int, to_uint, to_ptr, pointer_or_null}
use v8h.Bindings.{
  Library, back, call_perror, perror, access, call_fread, fread, call_fwrite, fwrite, feof, ferror,
  fclose, call_fopen, fopen, puts, strerror, text_at, string,
}
use v8h.Bindings.Arguments.{
  TidyVoid, c_function_1_0-Tidy, c_function_1_1-Tidy, c_function_2_1-Tidy, c_function_4_1-Tidy,
}
use v8h.Bindings.Tidy.{Tidy, IsScoped, plain-IsScoped, to_pchar-IsScoped, store-Stored, Stored}

module _ (e : Engine) (fresh : ℕ → ℕ) (lib : Library) where
  abbrev Process : Type 0
  Process = World lib.System

  module _ {R : Type 0} (w : Process) where
    -- A function of the library that reads a text, and one that reads two.
    text-Tidy :
        (k : List ℕ → R × lib.System) (m : Outcome (List ℕ))
        → Tidy w (m >>= λ t. back e fresh lib w (k t))
    text-Tidy k fault = tt
    text-Tidy k spin = tt
    text-Tidy k (ok t) = refl

    texts-Tidy :
        (k : List ℕ → List ℕ → R × lib.System) (m n : Outcome (List ℕ))
        → Tidy w (m >>= λ t. n >>= λ u. back e fresh lib w (k t u))
    texts-Tidy k fault n = tt
    texts-Tidy k spin n = tt
    texts-Tidy k (ok t) n = text-Tidy (k t) n

  perror-TidyVoid : (p : ℕ) (w : Process) → TidyVoid w (call_perror e fresh lib p w)
  unfolding call_perror
  perror-TidyVoid p w = go (if p == 0 then ok [] else c_string p w.heap)
    where
      go :
          (m : Outcome (List ℕ))
          → TidyVoid w (m >>= λ text. ok (record w { system = lib.perror w.system text }))
      go fault = tt
      go spin = tt
      go (ok text) = refl

  fread-Tidy : (p size n file : ℕ) (w : Process) → Tidy w (call_fread e fresh lib p size n file w)
  unfolding call_fread
  fread-Tidy p size n file w =
      let bytes = (lib.fread w.system file size n).1 in
      go (store p 0 bytes w.heap) (store-Stored w.heap p 0 bytes)
    where
      go :
          (m : Outcome Heap)
          → Stored w.heap m
          → Tidy w (
              m >>= λ h. ok (
                size_to_int (lib.fread w.system file size n).0,
                record { heap = h; system = (lib.fread w.system file size n).2 },
              ))
      go fault h = tt
      go spin h = tt
      go (ok heap) h = h.0

  fwrite-Tidy : (p size n file : ℕ) (w : Process) → Tidy w (call_fwrite e fresh lib p size n file w)
  unfolding call_fwrite
  fwrite-Tidy p size n file w =
      text-Tidy w
        (λ bytes. let (count, s) = lib.fwrite w.system file bytes size in (size_to_int count, s))
        (load p (size * n) w.heap)

  string-Tidy :
      (this : e.Value) (args : List e.Value) (w : Process) → Tidy w (string e fresh lib this args w)
  unfolding string
  string-Tidy this args w = go (text_at e fresh lib (e.unwrap (get_or args 0 e.undefined)) args w)
    where
      go : (m : Outcome (List ℕ)) → Tidy w (m >>= λ text. ok (e.new_string text, w))
      go fault = tt
      go spin = tt
      go (ok text) = refl

  -- Whatever values JavaScript passes to `perror`, `access`, `fread`, `fwrite`, `feof`, `ferror`,
  -- `fclose`, `fopen`, `puts`, `strerror` and `string` of the class `C`, and whatever the C library does:
  -- a call that returns leaves exactly those blocks of memory live that were live before. So the texts
  -- that are made for the arguments are all freed, and nothing else is.
  pub calls-Tidy :
      (this : e.Value) (args : List e.Value) (w : Process)
      → 0 < w.heap.next
      → Tidy w (perror e fresh lib this args w)
        × Tidy w (access e fresh lib this args w)
        × Tidy w (fread e fresh lib this args w)
        × Tidy w (fwrite e fresh lib this args w)
        × Tidy w (feof e fresh lib this args w)
        × Tidy w (ferror e fresh lib this args w)
        × Tidy w (fclose e fresh lib this args w)
        × Tidy w (fopen e fresh lib this args w)
        × Tidy w (puts e fresh lib this args w)
        × Tidy w (strerror e fresh lib this args w)
        × Tidy w (string e fresh lib this args w)
  unfolding perror access fread fwrite feof ferror fclose fopen puts strerror to_int to_uint to_ptr
      call_fopen
  calls-Tidy this args w pos = (
    c_function_1_0-Tidy pchar text this u args w pos (call_perror e fresh lib) perror-TidyVoid,
    c_function_2_1-Tidy pchar text this u args w pos e.new_int number (plain-IsScoped e.int32_value)
        _ (λ p mode w. text-Tidy w (λ path. lib.access w.system path mode) (c_string p w.heap)),
    c_function_4_1-Tidy pchar text this u args w pos e.new_int size (plain-IsScoped e.uint32_value)
        size (plain-IsScoped e.uint32_value) address (plain-IsScoped e.unwrap)
        (call_fread e fresh lib) fread-Tidy,
    c_function_4_1-Tidy pchar text this u args w pos e.new_int size (plain-IsScoped e.uint32_value)
        size (plain-IsScoped e.uint32_value) address (plain-IsScoped e.unwrap)
        (call_fwrite e fresh lib) fwrite-Tidy,
    c_function_1_1-Tidy address (plain-IsScoped e.unwrap) this u args w pos e.new_int _
        (λ file w. refl),
    c_function_1_1-Tidy address (plain-IsScoped e.unwrap) this u args w pos e.new_int _
        (λ file w. refl),
    c_function_1_1-Tidy address (plain-IsScoped e.unwrap) this u args w pos e.new_int _
        (λ file w. refl),
    c_function_2_1-Tidy pchar text this u args w pos (pointer_or_null e fresh) pchar text
        (call_fopen e fresh lib)
        (λ p q w. texts-Tidy w (lib.fopen w.system) (c_string p w.heap) (c_string q w.heap)),
    c_function_1_1-Tidy pchar text this u args w pos e.new_int _
        (λ p w. text-Tidy w (lib.puts w.system) (c_string p w.heap)),
    c_function_1_1-Tidy number (plain-IsScoped e.int32_value) this u args w pos
        (pointer_or_null e fresh) _ (λ n w. refl),
    string-Tidy this args w,
  )
    where
      u : e.Value
      u = e.undefined

      pchar : Conversion Process e.Value ℕ
      pchar = to_pchar e fresh

      text : IsScoped pchar
      text = to_pchar-IsScoped e fresh

      number : Conversion Process e.Value ℕ
      number = plain e.int32_value

      size : Conversion Process e.Value ℕ
      size = plain e.uint32_value

      address : Conversion Process e.Value ℕ
      address = plain e.unwrap
