-- ===== src/Buffer/Samples.antt =====
-- Concrete buffers for the tests of the modules that model src/buffer.cc and src/socket.cc.
use v8h.Base.{ℕ, [], ◌∷◌, arith}
use v8h.Buffer.{Buffer}
use v8h.Buffer.Valid.{IsValid}

abbrev pub zeros : ℕ → ℕ
zeros i = 0

-- "abcd" behind two consumed bytes, in a block of eight
abbrev pub sample : Buffer
sample = record {
  block = 1 ∷ 2 ∷ 97 ∷ 98 ∷ 99 ∷ 100 ∷ 0 ∷ 0 ∷ [];
  cursor = 2;
  size = 4;
  used = 6;
  reserve = 8;
  reported = 184;
}

-- "cde", which is the whole block
abbrev pub token : Buffer
token = record {
  block = 99 ∷ 100 ∷ 101 ∷ [];
  cursor = 0;
  size = 3;
  used = 3;
  reserve = 3;
  reported = 179;
}

abbrev pub empty_buffer : Buffer
empty_buffer = record {
  block = 0 ∷ 0 ∷ [];
  cursor = 0;
  size = 0;
  used = 0;
  reserve = 2;
  reported = 178;
}

-- "abcd", with which the block is full
abbrev pub full_buffer : Buffer
full_buffer = record {
  block = 97 ∷ 98 ∷ 99 ∷ 100 ∷ [];
  cursor = 0;
  size = 4;
  used = 4;
  reserve = 4;
  reported = 180;
}

pub sample-IsValid : IsValid sample
sample-IsValid = omega arith

pub token-IsValid : IsValid token
token-IsValid = omega arith

pub empty_buffer-IsValid : IsValid empty_buffer
empty_buffer-IsValid = omega arith

pub full_buffer-IsValid : IsValid full_buffer
full_buffer-IsValid = omega arith
