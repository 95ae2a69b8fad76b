-- ===== src/Start/Shared.antt =====
-- The properties of the global object that `main` of src/v8h.cc sets for JavaScript.
use v8h.Base.{ℕ, ◌≡◌, List, [], ◌∷◌, All}
use v8h.Base.Outcome.{ok}
use v8h.Base.Text.{bytes_of}
use v8h.Realm.{Realm}
use v8h.Classes.{buffer_class, service_class, socket_class, file_class, console_class}
use v8h.Start.Setup.{array_of}
use v8h.Start.Shown.{shown, IsGlobal}
use v8h.Start.Begin.{FunctionOf, GlobalOf, Instance}

module _ (r : Realm) (callback : List ℕ → List ℕ → r.Callback) where
  open r use {Value, World}

  -- an array of these texts
  abbrev pub ArrayOf : List (List ℕ) → Value → Type 0
  ArrayOf texts a = (w : World) × ((array_of r texts w).0 ≡ a)

  module _ (object : Value) (Exists : World → Type 0) (g : IsGlobal r object Exists)
      (total : (w : World) (f : Value)
        → (o : Value) × (w' : World) × (r.instantiate w f ≡ ok (o, w'))) where
    -- the properties at the end, and where their values come from
    pub record Prepared (include : List (List ℕ)) (working : List ℕ) (arguments : List (List ℕ))
        (w' : World) : Type 0 where
      pub buffer : Value
      pub temp : Value
      pub c : Value
      pub include_path : Value
      pub argv : Value
      pub service : Value
      pub console : Value
      pub socket : Value
      pub file : Value
      pub properties :
          All
            (λ (p : List ℕ × Value). shown r object Exists w' p.0 ≡ p.1)
            ((bytes_of "global", object)
              ∷ (bytes_of "$workingDir", r.new_string working)
              ∷ (bytes_of "$includePath", include_path)
              ∷ (bytes_of "c", c)
              ∷ (bytes_of "$argv", argv)
              ∷ (bytes_of "$config", console)
              ∷ (bytes_of "service", service)
              ∷ (bytes_of "console", console)
              ∷ (bytes_of "Socket", socket)
              ∷ (bytes_of "File", file)
              ∷ (bytes_of "Buffer", buffer)
              ∷ (bytes_of "tempBuffer", temp)
              ∷ [])
      pub include_array : ArrayOf include include_path
      pub argv_array : ArrayOf arguments argv
      pub c_new : (w : World) × ((r.new_object w).0 ≡ c)
      pub buffer_function : FunctionOf r callback (buffer_class callback) buffer
      pub temp_global : GlobalOf r callback (buffer_class callback) temp
      pub temp_instance : Instance r callback buffer temp
      pub service_global : GlobalOf r callback (service_class callback) service
      pub console_global : GlobalOf r callback (console_class callback) console
      pub socket_function : FunctionOf r callback (socket_class callback) socket
      pub file_function : FunctionOf r callback (file_class callback) file
