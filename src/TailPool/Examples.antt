-- ===== src/TailPool/Examples.antt =====
-- The theorems on the pool of strings at a concrete pool.
use dnscache.Common.{
  ℕ, ◌≡◌, refl, some, List, [], ◌∷◌, ◌++◌, length, take, arith, replicate, length-replicate,
}
use dnscache.Common.Text.{codes}
use dnscache.Common.Bytes.{string_at-append}
use dnscache.TailPool.{TailPool, dt_push_tail, dt_get_tail, write_datp_to_file, read_datp_from_file}
use dnscache.TailPool.Push.{IsValid, dt_push_tail_lem}
use dnscache.TailPool.Kept.{dt_get_tail-dt_push_tail}
use dnscache.TailPool.File.{read_datp_from_file-write_datp_to_file}

zeros : ℕ → List ℕ
zeros n = replicate n 0

length-zeros : (n : ℕ) → length (zeros n) ≡ n
unfolding zeros
length-zeros n = length-replicate n 0

-- A pool that holds "ab" at 1 and is full.
abbrev small_pool : TailPool
small_pool = record { pool = 0 ∷ codes "ab" ++ 0 ∷ []; next_free = 4; pool_size = 4 }

small_pool-IsValid : IsValid small_pool
small_pool-IsValid = record {
  sized = refl;
  used = omega arith;
  small = omega arith;
  one = omega arith;
}

dt_push_tail_lem_example :
    (q : TailPool) × (dt_push_tail 3 zeros (codes "xyz") small_pool ≡ some (4, q))
    × IsValid q
    × (dt_get_tail 4 q ≡ some (codes "xyz"))
    × (q.next_free ≡ 8)
    × (take 4 q.pool ≡ small_pool.pool)
dt_push_tail_lem_example =
    dt_push_tail_lem zeros length-zeros 2 (codes "xyz") small_pool small_pool-IsValid (omega arith)
      (omega arith) (omega arith)

read_datp_from_file-write_datp_to_file_example :
    read_datp_from_file zeros (write_datp_to_file small_pool) ≡ some small_pool
read_datp_from_file-write_datp_to_file_example =
    read_datp_from_file-write_datp_to_file zeros small_pool length-zeros small_pool-IsValid
      (omega arith)

dt_get_tail-dt_push_tail_example :
    (q : TailPool) × (dt_push_tail 3 zeros (codes "xyz") small_pool ≡ some (4, q))
    × (dt_get_tail 1 q ≡ some (codes "ab"))
unfolding dt_get_tail
dt_get_tail-dt_push_tail_example =
    dt_get_tail-dt_push_tail zeros 2 (codes "xyz") (codes "ab") 1 small_pool length-zeros
      small_pool-IsValid (omega arith) (omega arith) (omega arith)
      (string_at-append (0 ∷ []) (codes "ab") [] (omega arith)) (omega arith)
