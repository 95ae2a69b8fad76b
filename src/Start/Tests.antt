-- ===== src/Start/Tests.antt =====
-- src/v8h.cc on a small machine.
use v8h.Base.{ℕ, ◌<◌, ◌≡◌, refl, List, [], ◌∷◌, ◌++◌, true, none, some, arith, take}
use v8h.Base.Outcome.{Outcome, ok}
use v8h.Base.Text.{bytes_of}
use v8h.Start.{Machine, main}
use v8h.Start.Paths.{main_lem}
use v8h.Realm.Samples.{Js, object, World, Callback}

-- The program is "/b/v8h"; the state is what has been printed, and the first script prints its own
-- path and throws.
abbrev machine : Machine
machine = record {
  World = List ℕ;
  exe_link = λ w. some (bytes_of "/b/v8h");
  dirname = λ l. take 2 l;
  realpath = λ w l. (true, l);
  getcwd = λ w. none;
  puts = λ w l. w ++ l;
  require = λ w g l. (some (bytes_of "!"), w ++ l);
}

-- what stood in memory
abbrev clean : ℕ → ℕ
clean i = 0

main_lem_example :
    main machine clean (bytes_of "v8h" ∷ bytes_of "a.js" ∷ []) []
    ≡ ok (0, bytes_of "/b/../js/core/startup.js!")
main_lem_example =
    main_lem machine clean [] (bytes_of "/b/v8h") 0 refl (omega arith) (ground arith) tt refl
      (omega arith) (bytes_of "v8h" ∷ bytes_of "a.js" ∷ []) (λ h. omega (arith, h))

usage :
    main machine clean (bytes_of "v8h" ∷ []) [] ≡ ok (1, bytes_of "v8h [v8-options] script name")
unfolding main
usage = refl

abbrev callback : List ℕ → List ℕ → Callback
callback class function = (class, function)

-- The global object is the first object of the realm.
abbrev Exists : World → Type 0
Exists w = 0 < w.next

unfoldable number_in : Js → ℕ
number_in (object n) = n
number_in _ = 0
