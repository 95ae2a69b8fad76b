-- ===== src/Service/Consistent.antt =====
-- What the operations of src/service.cc keep: the calls of `epoll_ctl` make sense to the kernel, and
-- the callbacks and the counter agree with what is registered there.
use v8h.Base.{
  ℕ, ◌%◌, ◌≡◌, refl, ◌∙◌, List, [], ◌∷◌, Bool, true, false, arith, ◌==◌, Bool-cases, if◌then◌else◌,
  length, Option, some, none, int_mod, inl, inr,
}
use v8h.Service.{
  Ctl, ctl_add, ctl_mod, ctl_del, Service, has, get, new, register, unregister, error, epollin,
  epollout,
}
use v8h.Service.Keys.{
  Distinct, has-put, get-put, length-put, Distinct-put, has-remove, get_of_has, get-remove,
  length-remove, Distinct-remove,
}

-- What the kernel watches a descriptor for after these calls, the last one first.
abbrev pub interest : List Ctl → ℕ → Option ℕ
interest [] fd = none
interest (ctl_add k events ∷ calls) fd = if k == fd then some events else interest calls fd
interest (ctl_mod k events ∷ calls) fd = if k == fd then some events else interest calls fd
interest (ctl_del k ∷ calls) fd = if k == fd then none else interest calls fd

abbrev pub is_some {ℓ} : {A : Type ℓ} → Option A → Bool
is_some none = false
is_some (some a) = true

-- Each call is one that the kernel accepts: only what is not watched is added, and only what is
-- watched is changed or deleted.
abbrev pub IsLegal : List Ctl → Type 0
IsLegal [] = Unit
IsLegal (ctl_add k events ∷ calls) = (is_some (interest calls k) ≡ false) × IsLegal calls
IsLegal (ctl_mod k events ∷ calls) = (is_some (interest calls k) ≡ true) × IsLegal calls
IsLegal (ctl_del k ∷ calls) = (is_some (interest calls k) ≡ true) × IsLegal calls

none_of {ℓ} : {A : Type ℓ} (o : Option A) → is_some o ≡ false → o ≡ none
none_of none h = refl
none_of (some a) h = cc

module _ {Callback : Type 0} where
  pub record IsConsistent (s : Service Callback) : Type 0 where
    pub legal : IsLegal s.calls
    pub agrees : (fd : ℕ) → is_some (interest s.calls fd) ≡ has s.fds fd
    pub counted : s.fds_number ≡ length s.fds % int_mod
    pub distinct : Distinct s.fds
    pub distinct_error : Distinct s.fds_error

pub new-IsConsistent : (Callback : Type 0) (n : ℕ) → IsConsistent (new {Callback = Callback} n)
unfolding new
new-IsConsistent Callback n = record {
  legal = tt;
  agrees = λ fd. refl;
  counted = refl;
  distinct = tt;
  distinct_error = tt;
}

module _ {Callback : Type 0} (s : Service Callback) (c : IsConsistent s) where
  -- `in_or_out` keeps a service consistent, be it the first callback for the descriptor or not: of
  -- `epoll_ctl` it asks only to add what is not watched and to change what is watched, a descriptor
  -- is watched exactly if it has a callback, and the counter is the number of callbacks as an `int`.
  pub register-IsConsistent :
      (events fd : ℕ) (callback : Callback) → IsConsistent (register events s fd callback)
  unfolding register
  register-IsConsistent events fd callback = elim (Bool-cases (has s.fds fd)) [
    | inl old ↦ rw old (record {
      legal = (c.agrees fd ∙ old, c.legal);
      agrees = λ j. ground (arith, c.agrees j, has-put s.fds fd callback j);
      counted = ground (arith, c.counted, length-put s.fds fd callback);
      distinct = Distinct-put s.fds fd callback c.distinct;
      distinct_error = c.distinct_error;
    })
    | inr fresh ↦ rw fresh (record {
      legal = (c.agrees fd ∙ fresh, c.legal);
      agrees = λ j. ground (arith, c.agrees j, has-put s.fds fd callback j);
      counted = ground (arith, c.counted, length-put s.fds fd callback);
      distinct = Distinct-put s.fds fd callback c.distinct;
      distinct_error = c.distinct_error;
    })
  ]

  -- `del` keeps a service consistent in the same sense, whether the descriptor is there or not: the
  -- kernel is asked to delete only what it watches, and the counter goes down only then.
  pub unregister-IsConsistent : (fd : ℕ) → IsConsistent (unregister s fd)
  unfolding unregister
  unregister-IsConsistent fd = elim (Bool-cases (has s.fds fd)) [
    | inl there ↦ rw there (record {
      legal = (c.agrees fd ∙ there, c.legal);
      agrees = λ j. ground (arith, c.agrees j, has-remove s.fds fd j c.distinct);
      counted = ground (arith, c.counted, length-remove s.fds fd there);
      distinct = Distinct-remove s.fds fd c.distinct;
      distinct_error = Distinct-remove s.fds_error fd c.distinct_error;
    })
    | inr absent ↦ rw absent (record {
      legal = c.legal;
      agrees = c.agrees;
      counted = c.counted;
      distinct = c.distinct;
      distinct_error = Distinct-remove s.fds_error fd c.distinct_error;
    })
  ]

  pub error-IsConsistent : (fd : ℕ) (callback : Callback) → IsConsistent (error s fd callback)
  unfolding error
  error-IsConsistent fd callback = record {
    legal = c.legal;
    agrees = c.agrees;
    counted = c.counted;
    distinct = c.distinct;
    distinct_error = Distinct-put s.fds_error fd callback c.distinct_error;
  }

  -- What `in` and `out` do to a consistent service that is not closed: after `in` the kernel watches
  -- the descriptor for input only, after `out` for output only, and the callback for the descriptor
  -- is the last one given; the callback and the interest of every other descriptor are as before.
  pub register_lem :
      (fd : ℕ) (callback : Callback) (j : ℕ)
      → let s_in = register epollin s fd callback in
        let s_out = register epollout s fd callback in
        (get s_in.fds j ≡ (if fd == j then some callback else get s.fds j))
        × (get s_out.fds j ≡ (if fd == j then some callback else get s.fds j))
        × (interest s_in.calls j ≡ (if fd == j then some epollin else interest s.calls j))
        × (interest s_out.calls j ≡ (if fd == j then some epollout else interest s.calls j))
  unfolding register
  register_lem fd callback j = elim (Bool-cases (has s.fds fd)) [
    | inl old ↦ rw old (get-put s.fds fd callback j, get-put s.fds fd callback j, refl, refl)
    | inr fresh ↦ rw fresh (get-put s.fds fd callback j, get-put s.fds fd callback j, refl, refl)
  ]

  -- `del` on a consistent service that is not closed removes the callback, the error callback and the kernel's watch of
  -- the descriptor, and nothing of any other descriptor.
  pub unregister_lem :
      (fd j : ℕ)
      → let s' = unregister s fd in
        (get s'.fds j ≡ (if fd == j then none else get s.fds j))
        × (get s'.fds_error j ≡ (if fd == j then none else get s.fds_error j))
        × (interest s'.calls j ≡ (if fd == j then none else interest s.calls j))
  unfolding unregister
  unregister_lem fd j = elim (Bool-cases (has s.fds fd)) [
    | inl there ↦
        rw there
          (get-remove s.fds fd j c.distinct, get-remove s.fds_error fd j c.distinct_error, refl)
    | inr absent ↦ rw absent (
      ground (arith, get_of_has s.fds fd absent),
      get-remove s.fds_error fd j c.distinct_error,
      ground (arith, none_of (interest s.calls fd) (c.agrees fd ∙ absent)),
    )
  ]
