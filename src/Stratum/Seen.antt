-- ===== src/Stratum/Seen.antt =====
-- stratum/session.cpp: the shares that a session has seen, by which it refuses a share sent twice. The
-- two sets are lists of keys, into which a key is inserted only when it is absent.
pub mod Lookback
use erikslund_solo_pool.Prelude.{
  ℕ, suc, ◌+◌, Bool, true, false, not, ◌&&◌, ◌||◌, List, [], ◌∷◌, ◌++◌, map, Bytes, Option, none,
  some, length, leb, ◌==◌, if◌then◌else◌, same_bytes,
}
use erikslund_solo_pool.Util.Hex.Laws.{to_lower}
use erikslund_solo_pool.Util.Hex.Words.{canonical, format_08x}

abbrev pub max_seen_shares : ℕ
max_seen_shares = 16384

pub record SeenShares : Type 0 where
  pub current : List Bytes
  pub previous : List Bytes

-- `unordered_set::contains`.
unfoldable pub contains : List Bytes → Bytes → Bool
contains [] key = false
contains (k ∷ keys) key = same_bytes k key || contains keys key

unfoldable pub rotate_seen_shares : SeenShares → SeenShares
rotate_seen_shares seen = record { current = []; previous = seen.current }

-- The new state, and whether the key was not there yet.
unfoldable pub remember : SeenShares → Bytes → SeenShares × Bool
unfolding rotate_seen_shares
remember seen key =
    if contains seen.current key || contains seen.previous key
    then (seen, false)
    else let room : SeenShares =
        if leb max_seen_shares (length seen.current) then rotate_seen_shares seen else seen in
      (record { current = key ∷ room.current; previous = room.previous }, true)

-- What a notification of a job does to the sets.
unfoldable pub rotate_on_notify : SeenShares → Bool → SeenShares
rotate_on_notify seen clean =
    if clean && not (length seen.current == 0) then rotate_seen_shares seen else seen

version_part : Option Bytes → Bytes
version_part none = []
version_part (some version_bits) = canonical version_bits

unfoldable pub make_dedup_key : Bytes → Bytes → Bytes → Bytes → Option Bytes → ℕ → Bytes
unfolding version_part
make_dedup_key job_id extranonce2 ntime nonce version_bits version_mask =
    map to_lower job_id
    ++ (b'|'
        ∷ (map to_lower extranonce2
            ++ (b'|'
                ∷ (canonical ntime
                    ++ (b'|'
                        ∷ (canonical nonce
                            ++ (b'|'
                                ∷ (version_part version_bits
                                    ++ (b'|' ∷ format_08x version_mask)))))))))
