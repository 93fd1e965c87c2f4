-- ===== src/Tests/Samples.antt =====
-- Test data that the tests of several parts share: a checksum in the place of zlib's.
use famfs.Prelude.{ℕ, ◌+◌, ◌*◌, ◌%◌, ◌^◌, List, [], ◌∷◌}
use famfs.Meta.{Checksum}

abbrev pub crc_of : ℕ → List ℕ → ℕ
crc_of c [] = c
crc_of c (b ∷ bs) = crc_of ((c * 31 + b) % 2 ^ 32) bs

abbrev pub sums : Checksum
sums = record { crc32 = crc_of; entry_bytes = λ seqnum payload. seqnum ∷ [] }
