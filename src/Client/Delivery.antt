-- ===== src/Client/Delivery.antt =====
-- The loops of `tcp_dns_search` that call `f`, against lists of names and addresses.
use dnscache.Common.{
  ℕ, zero, suc, ◌+◌, ◌*◌, ◌^◌, ◌<◌, ◌≡◌, refl, ◌∙◌, some, List, [], ◌∷◌, ◌++◌, length, All,
  get_elem?, arith, append_assoc, length-append,
}
use mathlib.Core.Option.{none-ne-some}
use dnscache.Common.Bytes.{IsString, le32, string_at, string_at-append, load32-le32, length-le32}
use dnscache.Protocol.{encode, head_length}
use dnscache.Client.RoundTrip.{starts}
use dnscache.Client.Replies.{Call, word, call_of, deliver_all}

-- Words as they stand in a message.
abbrev pub le32s : List ℕ → List ℕ
le32s [] = []
le32s (v ∷ vs) = le32 v ++ le32s vs

abbrev pub AllWords : List ℕ → Type 0
AllWords = All (λ v. v < 2 ^ 32)

-- Each name with its address.
abbrev pub zip_calls : List (List ℕ) → List ℕ → List Call
zip_calls [] ips = []
zip_calls (name ∷ names) [] = []
zip_calls (name ∷ names) (ip ∷ ips) = record { domain = name; address = ip } ∷ zip_calls names ips

word_lem :
    (front rest : List ℕ) (i v : ℕ)
    → length front ≡ head_length + 4 * i
    → v < 2 ^ 32
    → word (front ++ (le32 v ++ rest)) i ≡ some v
word_lem front rest i v l small = rw (← l) (load32-le32 front rest v small)

pub next_word :
    (front : List ℕ) (i v : ℕ)
    → length front ≡ head_length + 4 * i
    → length (front ++ le32 v) ≡ head_length + 4 * (i + 1)
next_word front i v l = omega (arith, length-append front (le32 v), length-le32 v, l)

pub le32s_assoc :
    (front rest vs : List ℕ) (v : ℕ)
    → front ++ (le32s (v ∷ vs) ++ rest) ≡ (front ++ le32 v) ++ (le32s vs ++ rest)
le32s_assoc front rest vs v =
    rw (append_assoc (le32 v) (le32s vs) rest, append_assoc front (le32 v) (le32s vs ++ rest)) refl

pub first_word :
    (front rest vs : List ℕ) (i v : ℕ)
    → length front ≡ head_length + 4 * i
    → v < 2 ^ 32
    → word (front ++ (le32s (v ∷ vs) ++ rest)) i ≡ some v
first_word front rest vs i v l small =
    rw (append_assoc (le32 v) (le32s vs) rest) (word_lem front (le32s vs ++ rest) i v l small)

deliver_all_step :
    (left i count ip : ℕ) (s buf retbuf : List ℕ) (calls : List Call)
    → word retbuf i ≡ some ip
    → string_at buf count ≡ some s
    → deliver_all left (i + 1) (count + (length s + 1)) buf retbuf ≡ some calls
    → deliver_all (suc left) i count buf retbuf ≡ some (record { domain = s; address = ip } ∷ calls)
unfolding deliver_all
deliver_all_step left i count ip s buf retbuf calls w e more = rw (deliver_all, w, e, more) refl

skip_name :
    (before tail name : List ℕ) (names : List (List ℕ))
    → before ++ (encode (name ∷ names) ++ tail)
      ≡ (before ++ (name ++ 0 ∷ [])) ++ (encode names ++ tail)
skip_name before tail name names =
    rw
      (
        append_assoc name (0 ∷ encode names) tail,
        append_assoc before (name ++ 0 ∷ []) (encode names ++ tail),
        append_assoc name (0 ∷ []) (encode names ++ tail),
      )
      refl

skip_length :
    (before name : List ℕ) → length before + (length name + 1) ≡ length (before ++ (name ++ 0 ∷ []))
skip_length before name =
    omega (arith, length-append before (name ++ 0 ∷ []), length-append name (0 ∷ []))

pub deliver_all_lem :
    (names : List (List ℕ)) (ips before tail front rest : List ℕ) (i : ℕ)
    → All IsString names
    → length ips ≡ length names
    → AllWords ips
    → length front ≡ head_length + 4 * i
    → deliver_all
        (length names)
        i
        (length before)
        (before ++ (encode names ++ tail))
        (front ++ (le32s ips ++ rest))
      ≡ some (zip_calls names ips)
unfolding deliver_all
deliver_all_lem [] ips before tail front rest i a e w l = refl
deliver_all_lem (name ∷ names) [] before tail front rest i a e w l = absurd (omega arith)
deliver_all_lem (name ∷ names) (ip ∷ ips) before tail front rest i a e w l =
    let before' = before ++ (name ++ 0 ∷ []) in
    let buf = skip_name before tail name names in
    let here : string_at (before ++ (encode (name ∷ names) ++ tail)) (length before) ≡ some name =
      rw (append_assoc name (0 ∷ encode names) tail)
        (string_at-append before name (encode names ++ tail) a.0) in
    let count = skip_length before name in
    let words = le32s_assoc front rest ips ip in
    let first = first_word front rest ips i ip l w.0 in
    let more =
      deliver_all_lem names ips before' tail (front ++ le32 ip) rest (i + 1) a.1 (omega arith) w.1
        (next_word front i ip l) in
    deliver_all_step (length names) i (length before) ip name _ _ (zip_calls names ips) first here
      (rw (count, buf, words) more)

pub call_of-starts :
    (names : List (List ℕ)) (before tail name : List ℕ) (i ip : ℕ)
    → All IsString names
    → get_elem? names i ≡ some name
    → call_of (starts (length before) names) i (before ++ (encode names ++ tail)) (some ip)
      ≡ some (record { domain = name; address = ip })
unfolding call_of
call_of-starts [] before tail name i ip a e = absurd (none-ne-some name e)
call_of-starts (first ∷ names) before tail name zero ip a e =
    let here : string_at (before ++ (encode (first ∷ names) ++ tail)) (length before) ≡ some name =
      rw (append_assoc first (0 ∷ encode names) tail)
        (string_at-append before first (encode names ++ tail) a.0 ∙ e) in
    rw here refl
call_of-starts (first ∷ names) before tail name (suc i) ip a e =
    let before' = before ++ (first ++ 0 ∷ []) in
    rw (skip_name before tail first names, skip_length before first)
      (call_of-starts names before' tail name i ip a.1 e)
