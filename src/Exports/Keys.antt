-- ===== src/Exports/Keys.antt =====
-- The names of every table of src/v8h.h's macros have room in the memory of `underline_to_camel`.
use v8h.Base.{refl, All}
use v8h.Algorithm.{underline_to_camel}
use v8h.Exports.{
  buffer_functions, service_functions, socket_functions, file_functions, system_functions,
  c_functions,
}
use v8h.Exports.Table.{IsConvertible}

pub buffer_functions-IsConvertible : All IsConvertible buffer_functions
unfolding underline_to_camel
buffer_functions-IsConvertible = (
  (_, refl),
  (
    (_, refl),
    (
      (_, refl),
      (
        (_, refl),
        (
          (_, refl),
          (
            (_, refl),
            (
              (_, refl),
              (
                (_, refl),
                (
                  (_, refl),
                  (
                    (_, refl),
                    (
                      (_, refl),
                      (
                        (_, refl),
                        (
                          (_, refl),
                          (
                            (_, refl),
                            (
                              (_, refl),
                              (
                                (_, refl),
                                (
                                  (_, refl),
                                  (
                                    (_, refl),
                                    (
                                      (_, refl),
                                      (
                                        (_, refl),
                                        (
                                          (_, refl),
                                          (
                                            (_, refl),
                                            (
                                              (_, refl),
                                              (
                                                (_, refl),
                                                ((_, refl), ((_, refl), ((_, refl), tt))),
                                              ),
                                            ),
                                          ),
                                        ),
                                      ),
                                    ),
                                  ),
                                ),
                              ),
                            ),
                          ),
                        ),
                      ),
                    ),
                  ),
                ),
              ),
            ),
          ),
        ),
      ),
    ),
  ),
)

pub service_functions-IsConvertible : All IsConvertible service_functions
unfolding underline_to_camel
service_functions-IsConvertible = (
  (_, refl),
  (
    (_, refl),
    (
      (_, refl),
      (
        (_, refl),
        (
          (_, refl),
          ((_, refl), ((_, refl), ((_, refl), ((_, refl), ((_, refl), ((_, refl), tt)))))),
        ),
      ),
    ),
  ),
)

pub socket_functions-IsConvertible : All IsConvertible socket_functions
unfolding underline_to_camel
socket_functions-IsConvertible = (
  (_, refl),
  (
    (_, refl),
    (
      (_, refl),
      (
        (_, refl),
        (
          (_, refl),
          (
            (_, refl),
            (
              (_, refl),
              ((_, refl), ((_, refl), ((_, refl), ((_, refl), ((_, refl), ((_, refl), tt)))))),
            ),
          ),
        ),
      ),
    ),
  ),
)

pub file_functions-IsConvertible : All IsConvertible file_functions
unfolding underline_to_camel
file_functions-IsConvertible =
    ((_, refl), ((_, refl), ((_, refl), ((_, refl), ((_, refl), ((_, refl), ((_, refl), tt)))))))

pub system_functions-IsConvertible : All IsConvertible system_functions
unfolding underline_to_camel
system_functions-IsConvertible = ((_, refl), ((_, refl), ((_, refl), ((_, refl), tt))))

pub c_functions-IsConvertible : All IsConvertible c_functions
unfolding underline_to_camel
c_functions-IsConvertible = (
  (_, refl),
  (
    (_, refl),
    (
      (_, refl),
      (
        (_, refl),
        (
          (_, refl),
          (
            (_, refl),
            (
              (_, refl),
              (
                (_, refl),
                (
                  (_, refl),
                  (
                    (_, refl),
                    (
                      (_, refl),
                      ((_, refl), ((_, refl), ((_, refl), ((_, refl), ((_, refl), tt))))),
                    ),
                  ),
                ),
              ),
            ),
          ),
        ),
      ),
    ),
  ),
)
