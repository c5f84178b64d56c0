-- ===== src/Net/ProxyProtocol.antt =====
-- net/proxy_protocol.hpp and proxy_protocol.cpp: the address of a miner behind a proxy, from the header
-- that the proxy sends first. `inet_pton` and `inet_ntop` are the system's, parameters here. What a
-- socket brings before the deadline is a list of bytes: a read of more fails.
pub mod Header
use erikslund_solo_pool.Prelude.{
  ℕ, zero, suc, ◌+◌, ◌-◌, ◌*◌, ◌/◌, ◌%◌, ◌^◌, Bool, true, false, not, ◌&&◌, ◌||◌, List, [], ◌∷◌,
  ◌++◌, Bytes, Option, none, some, length, get_or, take, drop, ltb, leb, ◌==◌, if◌then◌else◌,
  same_bytes, codes, bit_or, bit_and, reverse,
}
use erikslund_solo_pool.Stratum.Job.{to_string}
use erikslund_solo_pool.Util.Hex.{to_hex}

-- A run of spaces or of other characters, and what is left.
unfoldable pub take_word : Bytes → Bytes × Bytes
take_word [] = ([], [])
take_word (c ∷ s) =
    let (word, rest) = take_word s in if c == b' ' then ([], c ∷ s) else (c ∷ word, rest)

unfoldable pub skip_spaces : Bytes → Bytes
skip_spaces [] = []
skip_spaces (c ∷ s) = let rest = skip_spaces s in if c == b' ' then rest else c ∷ s

-- A round reads a word or the last spaces; there are no more rounds than characters.
split_loop : ℕ → Bytes → List Bytes
unfolding take_word skip_spaces
split_loop zero s = []
split_loop (suc fuel) s =
    let (word, rest) = take_word (skip_spaces s) in
    let words = split_loop fuel rest in if length word == 0 then [] else word ∷ words

unfoldable pub split_ws : Bytes → List Bytes
unfolding split_loop
split_ws s = split_loop (length s) s

is_digit : ℕ → Bool
is_digit c = leb b'0' c && leb c b'9'

-- The number that decimal digits write, and nothing when another character is among them. An `int`, of
-- which a prefix of ten digits or more may overflow in C++.
decimal : Bytes → ℕ → Option ℕ
unfolding is_digit
decimal [] value = some value
decimal (c ∷ text) value =
    let rest = decimal text (value * 10 + (c - b'0')) in if is_digit c then rest else none

unfoldable pub valid_port : Bytes → Bool
unfolding decimal
valid_port port =
    if length port == 0 || ltb 5 (length port)
    then false
    else elim (decimal port 0) [ none ↦ false | some value ↦ leb value 65535 ]

-- The system's conversions of addresses: 4 bytes and 16.
pub record Addresses : Type 0 where
  pub read_ipv4 : Bytes → Option Bytes
  pub read_ipv6 : Bytes → Option Bytes
  pub write_ipv4 : Bytes → Bytes
  pub write_ipv6 : Bytes → Bytes

pub data ProxyHeaderKind : Type 0 where
  real_address direct malformed : ProxyHeaderKind

pub record ProxyHeaderResult : Type 0 where
  pub kind : ProxyHeaderKind
  pub address : Bytes
  pub detail : Bytes

abbrev pub signature : Bytes
signature = 0x0d ∷ 0x0a ∷ 0x0d ∷ 0x0a ∷ 0x00 ∷ 0x0d ∷ 0x0a ∷ 0x51 ∷ 0x55 ∷ 0x49 ∷ 0x54 ∷ 0x0a ∷ []

is_valid : Option Bytes → Bool
is_valid none = false
is_valid (some address) = true

-- A number of 16 bits, the high byte first, at an offset.
word_at : Bytes → ℕ → ℕ
word_at bytes i = bit_or (get_or bytes i 0 * 2 ^ 8) (get_or bytes (i + 1) 0)

-- The bytes of an address as a number, the first highest.
ipv4_value : Bytes → ℕ
ipv4_value bytes =
    ((get_or bytes 0 0 * 256 + get_or bytes 1 0) * 256 + get_or bytes 2 0) * 256 + get_or bytes 3 0

-- What stands before the first slash, and what stands behind it when there is one.
before_slash : Bytes → Bytes
before_slash [] = []
before_slash (c ∷ entry) = let rest = before_slash entry in if c == b'/' then [] else c ∷ rest

after_slash : Bytes → Option Bytes
after_slash [] = none
after_slash (c ∷ entry) = let rest = after_slash entry in if c == b'/' then some entry else rest

module _ (N : Addresses) where
  host_and_port : Bytes → Bytes → Bytes
  host_and_port host port = host ++ (b':' ∷ port)

  -- A line of six words, of a protocol that is known.
  v1_address : Bool → List Bytes → Option Bytes
  unfolding is_valid host_and_port
  v1_address is_ipv4 (name ∷ (proto ∷ (src ∷ (dst ∷ (sport ∷ (dport ∷ [])))))) =
      if not (if is_ipv4 then is_valid (N.read_ipv4 src) else is_valid (N.read_ipv6 src))
        || not (valid_port sport)
      then none
      else some (host_and_port src sport)
  v1_address is_ipv4 words = none

  v1_words : List Bytes → Option Bytes
  unfolding v1_address
  v1_words (name ∷ (proto ∷ rest)) =
      if not (same_bytes name (codes "PROXY"))
      then none
      else if not (same_bytes proto (codes "TCP4")) && not (same_bytes proto (codes "TCP6"))
      then none
      else v1_address (same_bytes proto (codes "TCP4")) (name ∷ proto ∷ rest)
  v1_words words = none

  unfoldable pub parse_proxy_v1 : Bytes → Option Bytes
  unfolding v1_words
  parse_proxy_v1 line = v1_words (split_ws line)

  -- The address behind the 16 bytes of a header, of a family.
  v2_address : ℕ → ℕ → Bytes → Option Bytes
  unfolding word_at host_and_port
  v2_address family addr_len addr =
      if family == 1
      then (if ltb addr_len 12
          then none
          else some (host_and_port (N.write_ipv4 (take 4 addr)) (to_string (word_at addr 8))))
      else if family == 2
      then (if ltb addr_len 36
          then none
          else some (host_and_port (N.write_ipv6 (take 16 addr)) (to_string (word_at addr 32))))
      else none

  unfoldable pub parse_proxy_v2 : Bytes → Option Bytes
  unfolding v2_address word_at
  parse_proxy_v2 bytes =
      let versions = get_or bytes 12 0 in
      let families = get_or bytes 13 0 in
      let addr_len = word_at bytes 14 in
      if ltb (length bytes) 16 || not (same_bytes (take 12 bytes) signature)
      then none
      else if not (versions / 2 ^ 4 == 2)
      then none
      else if not (versions % 2 ^ 4 == 1)
      then none
      else if ltb (length bytes) (16 + addr_len) || not (families % 2 ^ 4 == 1)
      then none
      else v2_address (families / 2 ^ 4) addr_len (drop 16 bytes)

  -- `prefix == 0 ? 0 : 0xFFFFFFFF << (32 - prefix)`.
  unfoldable pub ipv4_in_cidr : Bytes → Bytes → ℕ → Bool
  unfolding ipv4_value
  ipv4_in_cidr ip net prefix =
      let mask = if prefix == 0 then 0 else (2 ^ 32 - 1) * 2 ^ (32 - prefix) % 2 ^ 32 in
      if ltb 32 prefix then false else elim (N.read_ipv4 ip) [
        | none ↦ false
        | some ip_addr ↦ elim (N.read_ipv4 net) [
          | none ↦ false
          | some net_addr ↦ bit_and (ipv4_value ip_addr) mask == bit_and (ipv4_value net_addr) mask
        ]
      ]

  -- Whether an entry takes the address in.
  entry_trusts : Bytes → Bytes → Bool
  unfolding before_slash after_slash decimal
  entry_trusts ip entry = elim (after_slash entry) [
    | none ↦ same_bytes entry ip
    | some digits ↦ if length digits == 0 then false else elim (decimal digits 0) [
      | none ↦ false
      | some prefix ↦ ipv4_in_cidr ip (before_slash entry) prefix
    ]
  ]

  unfoldable pub source_trusted : Bytes → List Bytes → Bool
  unfolding entry_trusts
  source_trusted ip [] = false
  source_trusted ip (entry ∷ trusted) = entry_trusts ip entry || source_trusted ip trusted

  unfoldable pub valid_trusted_source : Bytes → Bool
  unfolding before_slash after_slash decimal is_valid
  valid_trusted_source entry = elim (after_slash entry) [
    | none ↦ is_valid (N.read_ipv4 entry) || is_valid (N.read_ipv6 entry)
    | some digits ↦
        if not (is_valid (N.read_ipv4 (before_slash entry)))
        then false
        else if length digits == 0
        then false
        else elim (decimal digits 0) [ none ↦ false | some prefix ↦ leb prefix 32 ]
  ]

  -- `read_exact`: the bytes read and what the socket holds then.
  unfoldable pub read_exact : ℕ → Bytes → Option (Bytes × Bytes)
  read_exact n socket = if ltb (length socket) n then none else some (take n socket, drop n socket)

  is_direct : ProxyHeaderResult
  is_direct = record { kind = direct; address = []; detail = [] }

  is_malformed : Bytes → ProxyHeaderResult
  is_malformed detail = record { kind = malformed; address = []; detail = detail }

  is_real : Bytes → ProxyHeaderResult
  is_real address = record { kind = real_address; address = address; detail = [] }

  -- The whole header of version 2.
  v2_result : Bytes → ProxyHeaderResult
  unfolding is_direct is_malformed is_real
  v2_result full = if get_or full 12 0 % 2 ^ 4 == 0 then is_direct else elim (parse_proxy_v2 full) [
    | some address ↦ is_real address
    | none ↦ is_malformed (to_hex (take 32 full))
  ]

  read_v2 : Bytes → Bytes → ProxyHeaderResult × Bytes
  unfolding v2_result word_at is_malformed
  read_v2 peek_hex socket = elim (read_exact 16 socket) [
    | none ↦ (is_malformed peek_hex, [])
    | some (head, rest) ↦
        if not (same_bytes (take 12 head) signature) || not (get_or head 12 0 / 2 ^ 4 == 2)
        then (is_malformed peek_hex, rest)
        else elim (read_exact (word_at head 14) rest) [
          | none ↦ (is_malformed peek_hex, [])
          | some (body, left) ↦ (v2_result (head ++ body), left)
        ]
  ]

  -- `if (!line.empty() && line.back() == '\r') line.pop_back()`, of the line in reverse.
  drop_return : Bytes → Bytes
  drop_return [] = []
  drop_return (c ∷ line) = if c == 13 then line else c ∷ line

  v1_result : Bytes → ProxyHeaderResult
  unfolding is_direct is_real
  v1_result line = elim (parse_proxy_v1 line) [ some address ↦ is_real address | none ↦ is_direct ]

  -- With so many characters left, of a line of which the last comes first.
  read_v1 : ℕ → Bytes → Bytes → Bytes → ProxyHeaderResult × Bytes
  unfolding v1_result drop_return is_malformed
  read_v1 zero peek_hex line socket = (is_malformed peek_hex, socket)
  read_v1 (suc n) peek_hex line [] = (is_malformed peek_hex, [])
  read_v1 (suc n) peek_hex line (c ∷ socket) =
      let rest = read_v1 n peek_hex (c ∷ line) socket in
      if c == 10 then (v1_result (reverse (drop_return line)), socket) else rest

  -- The result, and what is left in the socket for the session.
  unfoldable pub read_proxy_header : Bytes → ProxyHeaderResult × Bytes
  unfolding read_v1 read_v2 is_direct
  read_proxy_header [] = (is_direct, [])
  read_proxy_header (first ∷ socket) =
      let peek_hex = to_hex (take 16 (first ∷ socket)) in
      if first == 0x0d
      then read_v2 peek_hex (first ∷ socket)
      else if first == b'P'
      then read_v1 107 peek_hex [] (first ∷ socket)
      else (is_direct, first ∷ socket)
