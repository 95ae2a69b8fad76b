-- ===== src/Objects/Tests.antt =====
-- The life of two objects of src/buffer.cc.
use v8h.Base.{length, ◌%◌, size_mod, ◌≡◌, refl, [], ◌∷◌, arith}
use v8h.Base.Outcome.{ok}
use v8h.Buffer
use v8h.Buffer.Samples.{zeros}
use v8h.Objects.{
  Objects, no_objects, construct, close_object, collect, del_field, get_ptr, set_ptr, delete_buffer,
  Steps, here, next, step_construct, step_close,
}
use v8h.Objects.Pointers.{total}
use v8h.Objects.Owned.{leak_lem}

-- Objects 7 and 9, the second one closed.
abbrev one_object : Objects
one_object = record {
  fields = (7, 1) ∷ [];
  live = (1, Buffer.new zeros 8) ∷ [];
  next = 2;
  external = 184;
}

abbrev two_made : Objects
two_made = record {
  fields = (9, 2) ∷ (7, 1) ∷ [];
  live = (2, Buffer.new zeros 4) ∷ (1, Buffer.new zeros 8) ∷ [];
  next = 3;
  external = 364;
}

abbrev one_left : Objects
one_left = record two_made {
  fields = (9, 0) ∷ (7, 1) ∷ [];
  live = (1, Buffer.new zeros 8) ∷ [];
  external = 184;
}

abbrev none_left : Objects
none_left = record one_left { fields = (9, 0) ∷ []; live = []; external = 0 }

close_runs : close_object 9 two_made ≡ ok one_left
unfolding close_object del_field get_ptr set_ptr delete_buffer Buffer.new Buffer.destroy
close_runs = refl

collect_runs : collect 7 one_left ≡ ok none_left
unfolding collect del_field get_ptr set_ptr delete_buffer Buffer.new Buffer.destroy
collect_runs = refl

one_left-Steps : Steps zeros no_objects [] one_left
unfolding construct Buffer.new
one_left-Steps =
    next
      (next (next here (step_construct no_objects 8 7 (omega arith)))
        (step_construct one_object 4 9 (omega arith)))
      (step_close 9 close_runs)

-- The constructor is called once more on object 7, which is closed then.
abbrev overwritten_one : Objects
overwritten_one = record {
  fields = (7, 3) ∷ (9, 0) ∷ [];
  live = (3, Buffer.new zeros 4) ∷ (1, Buffer.new zeros 8) ∷ [];
  next = 4;
  external = 364;
}

abbrev one_lost : Objects
one_lost = record overwritten_one {
  fields = (7, 0) ∷ (9, 0) ∷ [];
  live = (1, Buffer.new zeros 8) ∷ [];
  external = 184;
}

close_again : close_object 7 overwritten_one ≡ ok one_lost
unfolding close_object del_field get_ptr set_ptr delete_buffer Buffer.new Buffer.destroy
close_again = refl

overwritten_one-Steps : Steps zeros no_objects (1 ∷ []) overwritten_one
unfolding construct Buffer.new
overwritten_one-Steps = next one_left-Steps (step_construct one_left 4 7 (omega arith))

leak_lem_example : (length one_lost.live ≡ 1) × (one_lost.external ≡ total one_lost.live % size_mod)
leak_lem_example = leak_lem zeros (next overwritten_one-Steps (step_close 7 close_again)) refl
