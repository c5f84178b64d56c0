-- ===== src/Tests/Net.antt =====
-- net/ and stats/: a header of a proxy, and the accounting of a worker.
use erikslund_solo_pool.Prelude.{◌≡◌, refl, ◌^◌, [], ◌∷◌, ◌++◌, some, none, codes, arith}
use erikslund_solo_pool.Prelude.Int.{pos}
use erikslund_solo_pool.Stratum.Job.{to_string}
use erikslund_solo_pool.Net.ProxyProtocol.{Addresses, real_address, read_proxy_header}
use erikslund_solo_pool.Net.ProxyProtocol.Header.{v2_head, v2_body, read_proxy_header-v2_body}
use erikslund_solo_pool.Stats.ShareAccounting.{new_accounting}
use erikslund_solo_pool.Stats.ShareAccounting.Runs.{
  touched, noted_accepted, noted_rejected, recovered, IsBefore, run, run-new_accounting,
}
use erikslund_solo_pool.Tests.Stratum.{numbers}

abbrev addresses : Addresses
addresses = record {
  read_ipv4 = λ text. some text;
  read_ipv6 = λ text. none;
  write_ipv4 = λ bytes. bytes;
  write_ipv6 = λ bytes. bytes;
}

-- 10.0.0.1 with port 6324 and three bytes more in the header, then the first bytes of the session.
read_proxy_header-v2_body_example :
    read_proxy_header addresses
      (v2_head 0 15 ++ ((v2_body 10 0 0 1 10 0 0 2 24 180 13 5 ++ (4 ∷ 0 ∷ 0 ∷ [])) ++ codes "{}"))
    ≡ (
      record {
        kind = real_address;
        address = (10 ∷ 0 ∷ 0 ∷ 1 ∷ []) ++ (b':' ∷ to_string 6324);
        detail = [];
      },
      codes "{}",
    )
read_proxy_header-v2_body_example =
    read_proxy_header-v2_body addresses 0 15 10 0 0 1 10 0 0 2 24 180 13 5 (4 ∷ 0 ∷ 0 ∷ [])
      (codes "{}") (omega arith) (omega arith) refl

run-new_accounting_example :
    let a = run numbers (new_accounting numbers 5) (
      noted_accepted 8 9 (pos 100) 6
      ∷ noted_rejected (pos 90)
      ∷ touched (pos 120)
      ∷ recovered 0 (2 ^ 64) 7 (pos 80) [] 9 4
      ∷ []) in
    IsBefore a.last_share_ts a.last_activity_ts × (a.shares_accepted ≡ 1) × (a.shares_rejected ≡ 1)
run-new_accounting_example = run-new_accounting numbers 5 (
    noted_accepted 8 9 (pos 100) 6
    ∷ noted_rejected (pos 90)
    ∷ touched (pos 120)
    ∷ recovered 0 (2 ^ 64) 7 (pos 80) [] 9 4
    ∷ [])
