-- ===== src/Stdio/Samples.antt =====
-- A concrete C library for the tests: a path is its file's bytes, and the empty path is no file.
use v8h.Base.{ℕ, List, [], ◌∷◌, false, Option, none, some, take, drop, refl}
use v8h.Stdio.{Stdio, IsReliable}

abbrev open_bytes : List ℕ → Option (List ℕ)
open_bytes [] = none
open_bytes (c ∷ path) = some (c ∷ path)

abbrev pub files : Stdio
files = record {
  Stream = List ℕ;
  fopen = open_bytes;
  fread = λ f room. (take room f, drop room f);
  ferror = λ f. false;
}

pub files-IsReliable : IsReliable files (λ f. f)
files-IsReliable = record { next = λ f room. refl; after = λ f room. refl; no_error = λ f. refl }
