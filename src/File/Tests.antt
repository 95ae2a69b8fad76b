-- ===== src/File/Tests.antt =====
-- Reading a small file and a large one with `File::read` of src/file.cc.
use v8h.Base.{◌≡◌, refl, [], some, none, take, tabulate}
use v8h.Base.Outcome.{ok}
use v8h.Buffer.Samples.{zeros}
use v8h.Stdio.Samples.{files, files-IsReliable}
use v8h.File.{read}
use v8h.File.Read.{read-take}

read_missing : read zeros files [] ≡ ok none
unfolding read
read_missing = refl

-- The last of 5000 bytes are not read.
read-take_example :
    read zeros files (tabulate zeros 0 5000) ≡ ok (some (take 4096 (tabulate zeros 0 5000)))
read-take_example =
    read-take zeros files (λ f. f) files-IsReliable (tabulate zeros 0 5000) (tabulate zeros 0 5000)
      refl
