-- ===== src/Net/ProxyProtocol/Header.antt =====
-- A header is read to its end and no further.
use erikslund_solo_pool.Prelude.{
  ℕ, ◌+◌, ◌<◌, ◌≡◌, refl, false, [], ◌∷◌, ◌++◌, Bytes, some, length, take-append, drop-append, ltb,
  arith, same_bytes, length-append, ◌∙◌, bit_or, ◌*◌, ◌^◌,
}
use erikslund_solo_pool.Prelude.Bits.{shift-bit_or}
use erikslund_solo_pool.Stratum.Job.{to_string}
use erikslund_solo_pool.Net.ProxyProtocol.{
  Addresses, real_address, signature, parse_proxy_v2, read_exact, read_v2, v2_result, v2_address,
  word_at, read_proxy_header, is_real, host_and_port,
}

-- The twelve bytes of the addresses and ports of a connection over IPv4.
abbrev pub v2_body : ℕ → ℕ → ℕ → ℕ → ℕ → ℕ → ℕ → ℕ → ℕ → ℕ → ℕ → ℕ → Bytes
v2_body a b c d a' b' c' d' high low high' low' =
    a ∷ b ∷ c ∷ d ∷ a' ∷ b' ∷ c' ∷ d' ∷ high ∷ low ∷ high' ∷ low' ∷ []

-- The sixteen before them, with two bytes for the length of what follows: the command PROXY, TCP over
-- IPv4.
abbrev pub v2_head : ℕ → ℕ → Bytes
v2_head high low = signature ++ (0x21 ∷ 0x11 ∷ high ∷ low ∷ [])

module _ (N : Addresses) where
  read_exact-append :
      (n : ℕ) (xs ys : Bytes) → n ≡ length xs → read_exact N n (xs ++ ys) ≡ some (xs, ys)
  unfolding read_exact
  read_exact-append n xs ys e =
      let enough : ltb (length (xs ++ ys)) (length xs) ≡ false =
        ground (arith, length-append xs ys) in
      rw (e, read_exact, enough, take-append xs ys, drop-append xs ys) refl

  parse_proxy_v2-body :
      (len_high len_low a b c d a' b' c' d' high low high' low' : ℕ) (more : Bytes)
      → len_low < 256
      → low < 256
      → len_high * 256 + len_low ≡ 12 + length more
      → parse_proxy_v2 N
          (v2_head len_high len_low ++ (v2_body a b c d a' b' c' d' high low high' low' ++ more))
        ≡ some (N.write_ipv4 (a ∷ b ∷ c ∷ d ∷ []) ++ (b':' ∷ to_string (high * 2 ^ 8 + low)))
  unfolding parse_proxy_v2 v2_address word_at host_and_port same_bytes
  parse_proxy_v2-body len_high len_low a b c d a' b' c' d' high low high' low' more len small fits =
      let size = bit_or (len_high * 2 ^ 8) len_low in
      let whole : size ≡ 12 + length more =
        shift-bit_or 8 len_high len_low (omega (arith, len)) ∙ fits in
      let bytes =
        v2_head len_high len_low ++ (v2_body a b c d a' b' c' d' high low high' low' ++ more) in
      let long : ltb (length bytes) 16 ≡ false = ground arith in
      let there : ltb (length bytes) (16 + size) ≡ false = ground (arith, whole) in
      let enough : ltb size 12 ≡ false = ground (arith, whole) in
      rw
        (
          parse_proxy_v2,
          long,
          there,
          v2_address,
          enough,
          shift-bit_or 8 high low (omega (arith, small)),
        )
        refl

  -- The header of version 2 of a connection over IPv4, with any further bytes that its length field
  -- takes in, is read to its end, whatever follows it: the address is the source's with the port that
  -- its two bytes write, and what follows is left in the socket as it is.
  pub read_proxy_header-v2_body :
      (len_high len_low a b c d a' b' c' d' high low high' low' : ℕ) (more rest : Bytes)
      → len_low < 256
      → low < 256
      → len_high * 256 + len_low ≡ 12 + length more
      → read_proxy_header N (
          v2_head len_high len_low
          ++ ((v2_body a b c d a' b' c' d' high low high' low' ++ more) ++ rest))
        ≡ (
          record {
            kind = real_address;
            address = N.write_ipv4 (a ∷ b ∷ c ∷ d ∷ []) ++ (b':' ∷ to_string (high * 2 ^ 8 + low));
            detail = [];
          },
          rest,
        )
  unfolding read_proxy_header read_v2 v2_result word_at same_bytes is_real
  read_proxy_header-v2_body len_high len_low a b c d a' b' c' d' high low high' low' more rest len
        small fits =
      let body = v2_body a b c d a' b' c' d' high low high' low' ++ more in
      let whole : bit_or (len_high * 2 ^ 8) len_low ≡ length body =
        shift-bit_or 8 len_high len_low (omega (arith, len)) ∙ fits ∙ omega arith in
      rw
        (
          read_proxy_header,
          read_v2,
          read_exact-append 16 (v2_head len_high len_low) (body ++ rest) refl,
          read_exact-append (bit_or (len_high * 2 ^ 8) len_low) body rest whole,
          v2_result,
          parse_proxy_v2-body len_high len_low a b c d a' b' c' d' high low high' low' more len
              small fits,
        )
        refl
