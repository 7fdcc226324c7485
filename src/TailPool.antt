-- ===== src/TailPool.antt =====
-- src/client/datrie_tail_pool.c: strings one behind the other in a buffer that grows, and the file
-- that holds them. `fresh n` is what `realloc` leaves in the `n` bytes that it adds.
pub mod Push
pub mod Kept
pub mod File
mod Examples
use dnscache.Common.{
  ℕ, zero, suc, ◌+◌, ◌-◌, ◌*◌, ◌%◌, ◌^◌, Bool, true, false, Option, none, some, List, [], ◌∷◌, ◌++◌,
  ltb, if◌then◌else◌, length, take, drop,
}
use dnscache.Common.Bytes.{poke, string_at, le32, load32}

pub record TailPool : Type 0 where
  pub pool : List ℕ
  pub next_free : ℕ
  pub pool_size : ℕ

abbrev pub initial_size : ℕ
initial_size = 512

abbrev pub increasing_rate : ℕ
increasing_rate = 2

-- `dc_alloc` and `dc_realloc` of src/client/dc_mm.c.
abbrev pub resized : (ℕ → List ℕ) → List ℕ → ℕ → List ℕ
resized fresh pool size = take size pool ++ fresh (size - length pool)

unfoldable pub new_datrie_tail_pool : (ℕ → List ℕ) → TailPool
new_datrie_tail_pool fresh = record {
  pool = fresh initial_size;
  next_free = 1;
  pool_size = initial_size;
}

-- `pool->pool_size - pool->next_free`, of `uint32`s.
abbrev pub left_over : TailPool → ℕ
left_over p = (p.pool_size + 2 ^ 32 - p.next_free) % 2 ^ 32

abbrev pub grown : (ℕ → List ℕ) → TailPool → TailPool
grown fresh p =
    let size = (p.pool_size * increasing_rate) % 2 ^ 32 in
    record p { pool = resized fresh p.pool size; pool_size = size }

-- The loop of `dt_push_tail`, with the rounds that it may take.
unfoldable pub grow : ℕ → (ℕ → List ℕ) → (len : ℕ) → TailPool → Option TailPool
grow zero fresh len p = none
grow (suc rounds) fresh len p =
    let more = grow rounds fresh len (grown fresh p) in
    if ltb (left_over p) (len + 1) then more else some p

-- `dt_push_tail`, for the string `tail`; `none` is also a write outside the pool.
unfoldable pub dt_push_tail : ℕ → (ℕ → List ℕ) → List ℕ → TailPool → Option (ℕ × TailPool)
unfolding grow
dt_push_tail rounds fresh tail p = elim (grow rounds fresh (length tail) p) [
  | none ↦ none
  | some p' ↦ elim (poke p'.pool p'.next_free (tail ++ 0 ∷ [])) [
    | none ↦ none
    | some pool' ↦ some (
      p.next_free,
      record p' { pool = pool'; next_free = (p'.next_free + length tail + 1) % 2 ^ 32 },
    )
  ]
]

-- The string at `dt_get_tail(index, pool)`.
unfoldable pub dt_get_tail : ℕ → TailPool → Option (List ℕ)
dt_get_tail index p = string_at p.pool index

-- `write_datp_to_file`: the bytes that the file has from `offset` on.
unfoldable pub write_datp_to_file : TailPool → List ℕ
write_datp_to_file p = le32 p.next_free ++ take p.next_free p.pool

-- `read_datp_from_file` of the bytes from `offset` on; `none` is NULL. `fresh` is what `dc_alloc`
-- leaves, of which a short file does not replace the rest.
unfoldable pub read_datp_from_file : (ℕ → List ℕ) → List ℕ → Option TailPool
read_datp_from_file fresh bytes = elim (load32 bytes 0) [
  | none ↦ none
  | some next_free ↦
      let got = take next_free (drop 4 bytes) in
      elim got [
        | [] ↦ none
        | b ∷ bs ↦ elim (poke (fresh next_free) 0 (b ∷ bs)) [
          | none ↦ none
          | some pool ↦ some (record { pool = pool; next_free = next_free; pool_size = next_free })
        ]
      ]
]
