-- ===== src/Client/Request.antt =====
-- `is_in_set`, `pre_do` and `build_head` of src/client/dc_client.c. `total_length` is a `uint32`.
use mathlib.Core.Option
use dnscache.Common.{
  ℕ, zero, suc, ◌+◌, ◌-◌, ◌%◌, ◌^◌, true, false, ◌&&◌, ◌||◌, Option, none, some, List, [], ◌∷◌,
  ◌++◌, leb, ◌==◌, if◌then◌else◌, take,
}
use dnscache.Common.Bytes.{le32}
use dnscache.Protocol.{head_length, magic_number}

pub data Status : Type 0 where
  success not_in_set connect_wrong other_wrong : Status

-- `is_in_set(c)`: the byte that it leaves in `*c`, or `none` for a result of 0.
unfoldable pub is_in_set : ℕ → Option ℕ
is_in_set c =
    if (leb 97 c && leb c 122) || (c == 46)
    then some c
    else if c == 45
    then some c
    else if leb 48 c && leb c 57
    then some c
    else if leb 65 c && leb c 90
    then some (c + 32)
    else if c == b'_'
    then some c
    else none

-- What `pre_do` leaves: its result, `*total_length`, the buffer, and `index` from the next entry on.
pub record Walk : Type 0 where
  pub status : Status
  pub total_length : ℕ
  pub index : List ℕ
  pub buf : List ℕ

abbrev pub kept : ℕ → Walk → Walk
kept c w = record w { buf = c ∷ w.buf }

abbrev pub noted : (left total : ℕ) → Walk → Walk
noted left total w = record w {
  buf = 0 ∷ w.buf;
  index = if left == 0 then w.index else total ∷ w.index;
}

-- `(*total_length)++` of a `uint32`. The loops read at `buf[*total_length]`, so a count that wraps
-- would take them back to the start of the buffer: that is not followed, and is `none`.
abbrev pub next_length : ℕ → Option ℕ
next_length total = if leb (2 ^ 32 - 1) total then none else some (total + 1)

-- The loops of `pre_do`, with the rounds that are left; `none` is also a read outside the buffer.
unfoldable pub walk : ℕ → (total : ℕ) → List ℕ → Option Walk
walk zero total bs = some (record { status = success; total_length = total; index = []; buf = bs })
walk (suc left) total [] = none
walk (suc left) total (c ∷ bs) = elim (c == 0) [
  | true ↦ elim (next_length total) [
    | none ↦ none
    | some total' ↦ Option.map (noted left total') (walk left total' bs)
  ]
  | false ↦ elim (is_in_set c) [
    | none ↦ some (record { status = not_in_set; total_length = total; index = []; buf = c ∷ bs })
    | some c' ↦ elim (next_length total) [
      | none ↦ none
      | some total' ↦ Option.map (kept c') (walk (suc left) total' bs)
    ]
  ]
]

-- `pre_do`. The head is added to the length only on success.
abbrev pub headed : Walk → Walk
headed w = elim w.status [
  | success ↦ record w {
    total_length = (w.total_length + head_length) % 2 ^ 32;
    index = 0 ∷ w.index;
  }
  | other ↦ record w { index = 0 ∷ w.index }
]

unfoldable pub pre_do : List ℕ → (nbuf : ℕ) → Option Walk
unfolding walk
pre_do buf nbuf = Option.map headed (walk nbuf 0 buf)

-- `RESERVED_BYTE` is 'F'.
unfoldable pub build_head : ℕ → List ℕ
build_head total = le32 total ++ (le32 magic_number ++ (le32 1 ++ b'F' ∷ []))

-- The two parts that `writev` and `sendmsg` send.
unfoldable pub message : Walk → List ℕ
unfolding build_head
message w = build_head w.total_length ++ take (w.total_length - head_length) w.buf
