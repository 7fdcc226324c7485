-- ===== src/Hash.antt =====
-- src/server/hash.c and src/server/hash.h: the slot of a domain name in the side table.
use dnscache.Common.{ℕ, ◌+◌, ◌*◌, ◌%◌, ◌^◌, ◌<◌, List, [], ◌∷◌, arith}

-- `HASHSIZE`, 2^25.
abbrev pub hash_size : ℕ
hash_size = 33554432

-- The loop of `BKDRHash` over the bytes before the NUL; `hash` is a `uint32`.
unfoldable pub hash_loop : ℕ → List ℕ → ℕ
hash_loop hash [] = hash
hash_loop hash (c ∷ str) = hash_loop ((hash * 131 + c) % 2 ^ 32) str

-- The mask `0x1ffffff` keeps the low 25 bits.
unfoldable pub bkdr_hash : List ℕ → ℕ
unfolding hash_loop
bkdr_hash str = hash_loop 0 str % 2 ^ 25

pub bkdr_hash-lt : (str : List ℕ) → bkdr_hash str < hash_size
unfolding bkdr_hash
bkdr_hash-lt str = omega arith
