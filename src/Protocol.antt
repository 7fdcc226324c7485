-- ===== src/Protocol.antt =====
-- The constants of the wire format: src/server/constants.h, src/server/server.h, and the same names
-- in src/client/constants.h.
use dnscache.Common.{ℕ, ◌+◌, List, [], ◌∷◌, ◌++◌}

abbrev pub total_length_length : ℕ
total_length_length = 4

abbrev pub magic_number_length : ℕ
magic_number_length = 4

abbrev pub magic_number : ℕ
magic_number = 0x12345678

abbrev pub request_number_length : ℕ
request_number_length = 4

abbrev pub reserved_byte_length : ℕ
reserved_byte_length = 1

abbrev pub head_length : ℕ
head_length =
    total_length_length + magic_number_length + request_number_length + reserved_byte_length

-- The last byte of the head in a reply.
abbrev pub first_with_error : ℕ
first_with_error = 0x3f

abbrev pub first_without_error : ℕ
first_without_error = 0x7f

abbrev pub second_with_error : ℕ
second_with_error = 0xbf

abbrev pub second_without_error : ℕ
second_without_error = 0xff

-- "127.0.0.1" and "127.0.0.2" as `inet_pton` stores them, read as a `uint32` of a little-endian host.
abbrev pub dns_error : ℕ
dns_error = 16777343

abbrev pub cache_miss : ℕ
cache_miss = 33554559

abbrev pub time_out : ℕ
time_out = 86400

-- The names of a request, each behind the other with its NUL.
abbrev pub encode : List (List ℕ) → List ℕ
encode [] = []
encode (name ∷ names) = name ++ 0 ∷ encode names
