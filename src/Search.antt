-- ===== src/Search.antt =====
-- The search loop of the two `do_search` functions (src/server/serv_thread_make.c and
-- src/server/udp_server.c): names are read from the request buffer and their addresses are written
-- over it from its start. The two loops differ in the test for a miss, in the index that a miss
-- keeps and in the end test, which are parameters here.
pub mod Buffer
pub mod InPlace
pub mod Expected
pub mod ShortName
use mathlib.Core.Option
use dnscache.Common.{
  ℕ, zero, suc, ◌+◌, ◌*◌, ◌%◌, ◌^◌, Bool, true, false, Option, none, some, List, [], ◌∷◌, ◌++◌, ltb,
  leb, ◌==◌, ◌||◌, if◌then◌else◌, length,
}
use dnscache.Common.Bytes.{string_at, poke, le32}
use dnscache.Protocol.{cache_miss, time_out}
use dnscache.Kache.{Data, Kache}
use dnscache.Kache.Laws.{lookup}

-- `dm_node`, a name that has to be resolved. `do_search` of the UDP server leaves `index` unset.
pub record Node : Type 0 where
  pub domain : List ℕ
  pub index : Option ℕ

-- The variables of the loop. `misses` is the list from `firstnode`, in order.
pub record Search : Type 0 where
  pub buf : List ℕ
  pub readcount : ℕ
  pub ipcount : ℕ
  pub misses : List Node

abbrev pub start : List ℕ → Search
start request = record { buf = request; readcount = 0; ipcount = 0; misses = [] }

-- What the loops differ in.
pub record Policy : Type 0 where
  pub missed : Option Data → ℕ → Bool
  pub node_index : ℕ → Option ℕ

-- `NULL == result || result->timestamp + TIME_OUT < time(NULL)`.
abbrev tcp_missed : Option Data → ℕ → Bool
tcp_missed none now = true
tcp_missed (some d) now = ltb (d.timestamp + time_out) now

-- The UDP server also resolves a name again whose address is the mark for a miss.
abbrev udp_missed : Option Data → ℕ → Bool
udp_missed none now = true
udp_missed (some d) now = ltb (d.timestamp + time_out) now || (d.ip == cache_miss)

abbrev pub tcp_policy : Policy
tcp_policy = record { missed = tcp_missed; node_index = λ ipcount. some ipcount }

abbrev pub udp_policy : Policy
udp_policy = record { missed = udp_missed; node_index = λ ipcount. none }

-- Other threads may store between two lookups: `kache_at i` is the table at the `i`-th lookup, and
-- `clock i` the time then.
module _ (trie_retrieve : List ℕ → Option ℕ) (kache_at : ℕ → Kache) (clock : ℕ → ℕ)
    (policy : Policy) where
  abbrev pub found : ℕ → List ℕ → Option Data
  found i name = lookup trie_retrieve (kache_at i) name

  abbrev pub is_missed : ℕ → List ℕ → Bool
  is_missed i name = policy.missed (found i name) (clock i)

  abbrev pub ip_of : Option Data → ℕ
  ip_of none = 0
  ip_of (some d) = d.ip

  -- The word that is written for the `i`-th name.
  abbrev pub answer : ℕ → List ℕ → ℕ
  answer i name = if is_missed i name then cache_miss else ip_of (found i name)

  abbrev pub miss_nodes : ℕ → List ℕ → List Node
  miss_nodes i name =
      if is_missed i name then record { domain = name; index = policy.node_index i } ∷ [] else []

  -- One round. `none` is an access outside the buffer.
  unfoldable pub visit : Search → Option Search
  visit s = elim (string_at s.buf s.readcount) [
    | none ↦ none
    | some name ↦
        Option.map
          (λ buf. record {
            buf = buf;
            readcount = s.readcount + (length name + 1);
            ipcount = s.ipcount + 1;
            misses = s.misses ++ miss_nodes s.ipcount name;
          })
          (poke s.buf (4 * s.ipcount) (le32 (answer s.ipcount name)))
  ]

  -- `for (;;)`, until the end test holds.
  unfoldable pub search_loop : (finished : ℕ → Bool) → ℕ → Search → Option Search
  search_loop finished zero s = none
  search_loop finished (suc fuel) s = elim (visit s) [
    | none ↦ none
    | some s' ↦ elim (finished s'.readcount) [
      | true ↦ some s'
      | false ↦ search_loop finished fuel s'
    ]
  ]
