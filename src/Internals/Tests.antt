-- ===== src/Internals/Tests.antt =====
-- A buffer and a service, and functions called on either.
use v8h.Base.{◌≡◌, ◌≢◌, refl, [], ◌∷◌, some, none}
use v8h.Base.Outcome.{ok, fault}
use v8h.Internals.{
  buffer, service, Cell, Internals, no_internals, set_field, get_internal, call_member, construct,
  new_object, close, get_field, del_ptr, Steps, here, next, step_new, step_construct, step_close,
}
use v8h.Internals.Typed.{call_member-kind}

abbrev one_buffer : Internals
one_buffer = record {
  cells = (1, record { maker = buffer; field = some (record { kind = buffer; address = 1 }) }) ∷ [];
  next = 2;
}

abbrev behind_service : Cell
behind_service = record { maker = service; field = some (record { kind = service; address = 2 }) }

abbrev both : Internals
both = record { cells = (2, behind_service) ∷ one_buffer.cells; next = 3 }

-- The buffer is closed, and its constructor is called on it again.
abbrev closed : Internals
closed = record {
  cells = (2, behind_service) ∷ (1, record { maker = buffer; field = none }) ∷ [];
  next = 3;
}

abbrev again : Internals
again = record {
  cells =
      (2, behind_service)
      ∷ (1, record { maker = buffer; field = some (record { kind = buffer; address = 3 }) })
      ∷ [];
  next = 4;
}

again-Steps : Steps no_internals again
unfolding new_object construct set_field close get_internal get_field del_ptr
again-Steps =
    next
      (next
        (next (next here (step_new {o = no_internals} {o' = one_buffer} buffer 1 refl refl))
          (step_new {o = one_buffer} {o' = both} service 2 refl refl))
        (step_close {o = both} {o' = closed} buffer 1 refl))
      (step_construct {o = closed} {o' = again} 1 (record { maker = buffer; field = none }) refl
        refl)

call_member-kind_example :
    (service ≡ service)
    × (get_internal buffer 2 again ≡ ok (some (record { kind = service; address = 2 })))
    × (buffer ≡ service → call_member buffer 2 ok again ≡ ok 2)
    × (buffer ≢ service → call_member buffer 2 ok again ≡ fault)
call_member-kind_example =
    call_member-kind again 2 behind_service (record { kind = service; address = 2 }) buffer ok
      again-Steps refl refl
