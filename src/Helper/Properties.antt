-- ===== src/Helper/Properties.antt =====
-- The functions of src/v8h_helper.h that read and set the properties of an object: `SET`, `GET`, `SET_INT`,
-- `GET_INT`, `GET_UINT`, `GET_OBJ` and `SET_ACC`, for a name that is a text of C and for one that is a
-- value.
use v8h.Base.{ℕ, List, Option}
use v8h.Realm.{Realm}

module _ (r : Realm) where
  open r use {
    Value, World, Callback, get, set, set_accessor, symbol, make_function, to_object, int32_value,
    uint32_value, new_int, set_index as store_index,
  }

  -- a value, and what it leaves behind
  abbrev then_value : {A : Type 0} → (Value → A) → Value × World → A × World
  then_value f (v, w) = (f v, w)

  abbrev pub set_symbol : World → Value → List ℕ → Value → Value × World
  set_symbol w object name value = (value, set w object (symbol name) value)

  abbrev pub set_value : World → Value → Value → Value → Value × World
  set_value w object name value = (value, set w object name value)

  abbrev pub set_index : World → Value → ℕ → Value → Value × World
  set_index w object name value = (value, store_index w object name value)

  -- `SET` of a function of C++
  abbrev pub set_callback : World → Value → List ℕ → Callback → Value × World
  set_callback w object name callback =
      let (function, w') = make_function w callback 0 in
      (function, set w' object (symbol name) function)

  abbrev pub get_int : World → Value → Value → ℕ × World
  get_int w object name = then_value int32_value (get w object name)

  abbrev pub get_uint : World → Value → Value → ℕ × World
  get_uint w object name = then_value uint32_value (get w object name)

  abbrev pub get_value : World → Value → Value → Value × World
  get_value w object name = get w object name

  abbrev pub get_symbol : World → Value → List ℕ → Value × World
  get_symbol w object name = get_value w object (symbol name)

  abbrev pub set_int : World → Value → Value → ℕ → World
  set_int w object name value = set w object name (new_int value)

  abbrev pub set_int_symbol : World → Value → List ℕ → ℕ → World
  set_int_symbol w object name value = set w object (symbol name) (new_int value)

  abbrev pub get_obj : World → Value → Value → Value × World
  get_obj w object name = then_value to_object (get w object name)

  abbrev pub get_obj_symbol : World → Value → List ℕ → Value × World
  get_obj_symbol w object name = then_value to_object (get w object (symbol name))

  abbrev pub set_acc : World → Value → Value → Callback → Option Callback → World
  set_acc w object name getter setter = set_accessor w object name getter setter

  -- The setter may be left out.
  abbrev pub set_acc_symbol : World → Value → List ℕ → Callback → Option Callback → World
  set_acc_symbol w object name getter setter = set_acc w object (symbol name) getter setter
