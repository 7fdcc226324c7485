-- ===== src/TailPool/File.antt =====
-- `write_datp_to_file` and `read_datp_from_file` of datrie_tail_pool.c.
use dnscache.Common.{
  ℕ, ◌^◌, ◌≤◌, ◌<◌, ◌≡◌, refl, sym, ap, ◌∙◌, some, List, [], ◌∷◌, ◌++◌, length, take, arith,
  append-nil, take_all, drop-append_at, length-take_le,
}
use dnscache.Common.Bytes.{poke, poke_start, le32, load32-le32, length-le32}
use dnscache.TailPool.{TailPool, write_datp_to_file, read_datp_from_file}
use dnscache.TailPool.Push.{IsValid}

-- A block of as many bytes as there are to read holds what was read.
poke_whole : (buf vs : List ℕ) → length buf ≡ length vs → poke buf 0 vs ≡ some vs
poke_whole buf vs e =
    ap (λ l. poke l 0 vs) (sym (append-nil buf))
    ∙ (poke_start buf [] vs e ∙ ap some (append-nil vs))

read_bytes :
    (fresh : ℕ → List ℕ) (n : ℕ) (bytes : List ℕ)
    → ((m : ℕ) → length (fresh m) ≡ m)
    → length bytes ≡ n
    → 1 ≤ n
    → n < 2 ^ 32
    → read_datp_from_file fresh (le32 n ++ bytes)
      ≡ some (record { pool = bytes; next_free = n; pool_size = n })
unfolding read_datp_from_file
read_bytes fresh n [] room e one small = absurd (omega arith)
read_bytes fresh n (b ∷ bs) room e one small =
    let first = load32-le32 [] (b ∷ bs) n small in
    let behind = drop-append_at 4 (le32 n) (b ∷ bs) (length-le32 n) in
    let whole = take_all n (b ∷ bs) (omega arith) in
    rw (read_datp_from_file, first, behind, whole, poke_whole (fresh n) (b ∷ bs) (room n ∙ sym e))
      refl

-- What `write_datp_to_file` writes of a well-formed pool, `read_datp_from_file` reads back: the bytes
-- in use, in a pool that has no room left.
pub read_datp_from_file-write_datp_to_file :
    (fresh : ℕ → List ℕ) (p : TailPool)
    → ((m : ℕ) → length (fresh m) ≡ m)
    → IsValid p
    → 1 ≤ p.next_free
    → read_datp_from_file fresh (write_datp_to_file p)
      ≡ some (record {
        pool = take p.next_free p.pool;
        next_free = p.next_free;
        pool_size = p.next_free;
      })
unfolding write_datp_to_file
read_datp_from_file-write_datp_to_file fresh p room v one =
    read_bytes fresh p.next_free (take p.next_free p.pool) room
      (length-take_le p.next_free p.pool (omega (arith, v.used, v.sized))) one
      (omega (arith, v.used, v.small))
