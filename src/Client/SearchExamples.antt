-- ===== src/Client/SearchExamples.antt =====
-- The theorems on the searches of the client at concrete replies.
use dnscache.Common.{
  ℕ, ◌≡◌, refl, true, none, some, List, [], ◌∷◌, ◌++◌, length, arith, replicate, length-replicate,
}
use dnscache.Common.Text.{codes}
use dnscache.Common.Bytes.{le32}
use dnscache.Server.Tcp.Receive.{request_front}
use dnscache.Client.Request.{success, not_in_set}
use dnscache.Client.Search.{tcp_dns_search, udp_dns_search, dns_search}
use dnscache.Client.Outcome.{tcp_dns_search_hit, tcp_dns_search_miss}
use dnscache.Client.UdpOutcome.{udp_dns_search_lem}
use dnscache.Client.Overread.{udp_overread}
use dnscache.Client.Refused.{dns_search-not_in_set}
use dnscache.Client.RoundTrip.{allows_all-AllAllowed}
use dnscache.Client.Examples.{zeros, length-zeros}

abbrev two_names : List ℕ
two_names = codes "aBc.com" ++ 0 ∷ (codes "x.org" ++ 0 ∷ [])

abbrev two_names_request : List ℕ
two_names_request =
    (request_front 27 (le32 1) ++ b'F' ∷ []) ++ (codes "abc.com" ++ 0 ∷ (codes "x.org" ++ 0 ∷ []))

-- A head but for its last byte.
abbrev twelve_ones : List ℕ
twelve_ones = 1 ∷ 1 ∷ 1 ∷ 1 ∷ 1 ∷ 1 ∷ 1 ∷ 1 ∷ 1 ∷ 1 ∷ 1 ∷ 1 ∷ []

tcp_dns_search_hit_example :
    tcp_dns_search two_names 2 true length
      (twelve_ones ∷ (0x7f ∷ 4 ∷ 3 ∷ 2 ∷ []) ∷ (1 ∷ 8 ∷ 0 ∷ 0 ∷ 0 ∷ []) ∷ [])
      zeros
    ≡ some (record {
      status = success;
      sent = two_names_request;
      calls =
          record { domain = codes "abc.com"; address = 16909060 }
          ∷ record { domain = codes "x.org"; address = 8 }
          ∷ [];
    })
unfolding le32
tcp_dns_search_hit_example =
    tcp_dns_search_hit (codes "aBc.com") (codes "x.org" ∷ []) []
      (
        allows_all-AllAllowed (codes "aBc.com") refl,
        (allows_all-AllAllowed (codes "x.org") refl, tt),
      )
      (omega arith) (16909060 ∷ 8 ∷ [])
      (twelve_ones ∷ (0x7f ∷ 4 ∷ 3 ∷ 2 ∷ []) ∷ (1 ∷ 8 ∷ 0 ∷ 0 ∷ 0 ∷ []) ∷ []) twelve_ones 0x7f
      length zeros refl refl (omega arith) (omega arith) refl refl length-zeros refl

tcp_dns_search_miss_example :
    tcp_dns_search two_names 2 true length
      ((twelve_ones ++ 0x3f ∷ 127 ∷ 0 ∷ [])
        ∷ (0 ∷ 2 ∷ 8 ∷ 0 ∷ 0 ∷ 0 ∷ [])
        ∷ (twelve_ones ++ 0xff ∷ 0 ∷ 0 ∷ [])
        ∷ (0 ∷ 0 ∷ 9 ∷ 0 ∷ 0 ∷ 0 ∷ [])
        ∷ [])
      zeros
    ≡ some (record {
      status = success;
      sent = two_names_request;
      calls =
          record { domain = codes "x.org"; address = 8 }
          ∷ record { domain = codes "abc.com"; address = 9 }
          ∷ [];
    })
unfolding le32
tcp_dns_search_miss_example =
    tcp_dns_search_miss (codes "aBc.com") (codes "x.org" ∷ []) []
      (
        allows_all-AllAllowed (codes "aBc.com") refl,
        (allows_all-AllAllowed (codes "x.org") refl, tt),
      )
      (omega arith) (33554559 ∷ 8 ∷ [])
      ((twelve_ones ++ 0x3f ∷ 127 ∷ 0 ∷ []) ∷ (0 ∷ 2 ∷ 8 ∷ 0 ∷ 0 ∷ 0 ∷ []) ∷ []) twelve_ones 0x3f
      length zeros refl refl (omega arith) (omega arith) refl refl length-zeros
      ((0, record { domain = codes "abc.com"; address = 9 }) ∷ [])
      ((twelve_ones ++ 0xff ∷ 0 ∷ 0 ∷ []) ∷ (0 ∷ 0 ∷ 9 ∷ 0 ∷ 0 ∷ 0 ∷ []) ∷ []) twelve_ones 0xff
      (λ e. absurd (omega arith)) refl ((omega arith, omega arith, refl), tt) refl (omega arith)
      refl

udp_dns_search_lem_example :
    udp_dns_search
      (two_names ++ replicate 10 0)
      2
      length
      ((twelve_ones ++ 0x7f ∷ []) ++ 4 ∷ 3 ∷ 2 ∷ 1 ∷ 8 ∷ 0 ∷ 0 ∷ 0 ∷ [])
      zeros
    ≡ some (record {
      status = success;
      sent = two_names_request;
      calls =
          record { domain = codes "abc.com"; address = 16909060 }
          ∷ record { domain = codes "x.org"; address = 8 }
          ∷ [];
    })
unfolding le32
udp_dns_search_lem_example =
    udp_dns_search_lem (codes "aBc.com") (codes "x.org" ∷ []) 10
      (
        allows_all-AllAllowed (codes "aBc.com") refl,
        (allows_all-AllAllowed (codes "x.org") refl, tt),
      )
      (twelve_ones ++ 0x7f ∷ []) (16909060 ∷ 8 ∷ []) length zeros (omega arith) refl refl
      (omega arith) refl length-zeros (omega arith) (omega arith)

udp_overread_example : udp_dns_search (codes "a" ++ 0 ∷ []) 1 length (replicate 17 7) zeros ≡ none
udp_overread_example =
    udp_overread (codes "a") [] [] (replicate 17 7) length zeros
      (allows_all-AllAllowed (codes "a") refl, tt) (omega arith) refl
      (omega (arith, length-replicate {A = ℕ} 17 7)) (omega arith)

dns_search-not_in_set_example :
    dns_search (codes "a" ++ 0 ∷ (codes "b*" ++ 0 ∷ [])) 2 true length [] [] zeros
    ≡ some (record { status = not_in_set; sent = []; calls = [] })
dns_search-not_in_set_example =
    dns_search-not_in_set (codes "a" ∷ []) (codes "b") (0 ∷ []) b'*' 2 true length [] [] zeros
      (allows_all-AllAllowed (codes "a") refl, tt) (allows_all-AllAllowed (codes "b") refl)
      (omega arith) refl (omega arith) (omega arith)
