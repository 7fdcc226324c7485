-- ===== src/Dns/Examples.antt =====
-- The theorems on the queue and the DNS threads at concrete states.
use dnscache.Common.{
  ℕ, ◌≡◌, refl, Option, none, some, List, [], ◌∷◌, ◌++◌, ◌==◌, if◌then◌else◌, arith, All, ◌⊎◌,
}
use dnscache.Common.Bytes.{le32}
use dnscache.Common.Text.{codes}
use dnscache.Kache.{Kache}
use dnscache.Kache.Init.{zeroed}
use dnscache.Search.{Node}
use dnscache.Dns.Queue.{
  Task, Request, Ring, stored, exited, put, get, put_udp, put_tcp, udp_task, tcp_task,
}
use dnscache.Dns.Queue.Contents.{IsValid, size, contents, put_lem, get_lem, tasks_from}
use dnscache.Dns.Queue.Batch.{Queued, put_udp_lem, put_tcp_lem}
use dnscache.Dns.Queue.Drain.{take_tasks, take_tasks_lem}
use dnscache.Dns.Worker.{
  Addrinfo, Job, new_job, second_message, second_flag, resolve_udp, resolve_tcp,
}
use dnscache.Dns.Worker.Expected.{ended_by}
use dnscache.Dns.Worker.Resolve.{Answers, resolve-Answers}
use dnscache.Dns.Worker.Second.{Turn, run_turns}
use dnscache.Dns.Worker.Message.{second_once}
use dnscache.Dns.Worker.Race.{settles, checks, run_events, settle_all, race_lem}
use dnscache.Dns.Worker.Sticky.{Work, run_thread, sticky_error}
use dnscache.Protocol.{second_with_error}

abbrev one_node : Node
one_node = record { domain = codes "abc.com"; index = some 0 }

abbrev other_node : Node
other_node = record { domain = codes "www.lloa"; index = some 4 }

abbrev blank : ℕ → Task
blank i = udp_task one_node

-- One task waits, and the next put comes round to the start of the array.
abbrev turning : Ring
turning = record { dns_array = blank; iput = 5023999; iget = 5023998 }

abbrev full : Ring
full = record { dns_array = blank; iput = 7; iget = 8 }

put_lem_example :
    (r' : Ring) × (put turning (udp_task other_node) ≡ stored r')
    × IsValid r'
    × (size r' ≡ 2)
    × (contents r' ≡ udp_task one_node ∷ udp_task other_node ∷ [])
unfolding tasks_from
put_lem_example = (put_lem turning (udp_task other_node) (omega arith)).0 (omega arith)

put-full : put full (udp_task other_node) ≡ exited
put-full = (put_lem full (udp_task other_node) (omega arith)).1 (omega arith)

get_lem_example :
    ((contents turning ≡ []) × (get turning ≡ none))
    ⊎ ((t : Task) × (r' : Ring) × (contents turning ≡ t ∷ contents r')
        × (get turning ≡ some (t, r'))
        × IsValid r')
get_lem_example = get_lem turning (omega arith)

take_tasks_lem_example :
    (r : Ring) × (take_tasks 1 turning ≡ some (udp_task one_node ∷ [], r))
    × IsValid r
    × (contents r ≡ [])
    × (get r ≡ none)
unfolding tasks_from
take_tasks_lem_example = take_tasks_lem turning (udp_task one_node ∷ []) (omega arith) refl

put_udp_lem_example :
    Queued turning
      (udp_task one_node ∷ udp_task other_node ∷ [])
      (put_udp turning (one_node ∷ other_node ∷ []))
put_udp_lem_example = put_udp_lem turning (one_node ∷ other_node ∷ []) (omega arith) (omega arith)

put_tcp_lem_example :
    Queued turning
      (tcp_task 9 5 2 0 one_node ∷ tcp_task 9 5 2 1 other_node ∷ [])
      (put_tcp 9 5 2 0 turning (one_node ∷ other_node ∷ []))
put_tcp_lem_example =
    put_tcp_lem 9 5 2 0 turning (one_node ∷ other_node ∷ []) (omega arith) (omega arith)

no_trie : List ℕ → Option ℕ
no_trie name = none

abbrev bare : Kache
bare = record { main_tr_data = λ _. record { ip = 0; timestamp = 0 }; hash_data = λ _. zeroed }

-- Names that begin with an `a` resolve to 1.2.3.4.
resolver : List ℕ → Addrinfo
resolver [] = record { retval = 2; res = none }
resolver (c ∷ s) =
    if c == b'a'
    then record { retval = 0; res = some 67305985 }
    else record { retval = 2; res = none }

abbrev request_of : ℕ → ℕ → Request
request_of index count = record { index = index; sockfd = 5; count = count; total = 2; job = 9 }

abbrev two_names : Job
two_names = new_job 2 (1 ∷ 2 ∷ 3 ∷ 4 ∷ 5 ∷ 6 ∷ 7 ∷ 8 ∷ 9 ∷ 10 ∷ 11 ∷ 12 ∷ 70 ∷ []) (λ _. 0)

-- A second more than a day later.
resolve-Answers_example :
    Answers no_trie resolver
      (resolve_udp no_trie resolver bare (udp_task one_node) 0 1000)
      (codes "abc.com")
      67305985
      1000
      87401
      0
    × Answers no_trie resolver
        (resolve_tcp no_trie resolver bare two_names 1 (udp_task one_node) (request_of 0 0) 1000).0
        (codes "abc.com")
        67305985
        1000
        87401
        0
unfolding resolver
resolve-Answers_example =
    resolve-Answers no_trie resolver bare two_names (udp_task one_node) (request_of 0 0) 0 1 1000
      87401 0

abbrev turn : ℕ → ℕ → Node → Turn
turn index count node = record {
  missindex = 1;
  task = tcp_task 9 5 2 count node;
  request = request_of index count;
  kache = bare;
  now = 1000;
}

-- The second name fails, and is resolved first.
second_once_example :
    (run_turns no_trie resolver 2 two_names (turn 4 1 other_node ∷ turn 0 0 one_node ∷ [])).1
    ≡ ended_by (
        some (
          (1 ∷ 2 ∷ 3 ∷ 4 ∷ 5 ∷ 6 ∷ 7 ∷ 8 ∷ 9 ∷ 10 ∷ 11 ∷ 12 ∷ 0xbf ∷ [])
          ++ 0 ∷ 0 ∷ 0 ∷ 0 ∷ 1 ∷ 2 ∷ 3 ∷ 4 ∷ 4 ∷ 0 ∷ 0 ∷ 0 ∷ 127 ∷ 0 ∷ 0 ∷ 1 ∷ []))
unfolding resolver le32
second_once_example =
    second_once no_trie resolver 2 two_names (turn 4 1 other_node ∷ turn 0 0 one_node ∷ [])
      (turn 0 0 one_node ∷ turn 4 1 other_node ∷ [])
      (1 ∷ 2 ∷ 3 ∷ 4 ∷ 5 ∷ 6 ∷ 7 ∷ 8 ∷ 9 ∷ 10 ∷ 11 ∷ 12 ∷ []) 70 refl refl (omega arith)
      (omega arith) refl (refl, (refl, tt))
      ((turn 4 1 other_node ∷ [], [], refl), (([], turn 0 0 one_node ∷ [], refl), tt)) refl refl
      refl

race_lem_example :
    run_events 2 two_names (settles 1 ∷ settles 1 ∷ checks ∷ checks ∷ [])
    ≡ ended_by (second_message (settle_all two_names (1 ∷ 1 ∷ [])) 2)
      ++ ended_by (second_message (settle_all two_names (1 ∷ 1 ∷ [])) 2)
race_lem_example = race_lem 2 two_names (1 ∷ 1 ∷ []) refl

abbrev work : ℕ → Node → Work
work count node = record {
  job = new_job 1 (1 ∷ 2 ∷ 3 ∷ 4 ∷ 5 ∷ 6 ∷ 7 ∷ 8 ∷ 9 ∷ 10 ∷ 11 ∷ 12 ∷ 70 ∷ []) (λ _. 0);
  task = tcp_task 9 5 1 count node;
  request = request_of 0 count;
  kache = bare;
  now = 1000;
}

-- The second request has one name, which resolves.
sticky_error_example :
    All
      (λ (j : Job). second_flag j.miss ≡ second_with_error)
      (run_thread no_trie resolver 1 (work 0 other_node ∷ work 0 one_node ∷ []))
unfolding resolver
sticky_error_example =
    sticky_error no_trie resolver 1 (work 0 other_node) (work 0 one_node ∷ []) 1 refl
