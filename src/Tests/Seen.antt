-- ===== src/Tests/Seen.antt =====
-- stratum/session.cpp: shares sent twice.
use erikslund_solo_pool.Prelude.{
  ◌≤◌, ◌≡◌, refl, true, false, List, [], ◌∷◌, map, Bytes, same_bytes, arith,
}
use erikslund_solo_pool.Stratum.Seen.{
  SeenShares, contains, remember, rotate_seen_shares, rotate_on_notify,
}
use erikslund_solo_pool.Stratum.Seen.Lookback.{
  Event, submitted, notified, after, after_all, rotates, rotations, IsBounded, after_all-IsBounded,
  remember-after_all, remember_within,
}

abbrev empty : SeenShares
empty = record { current = []; previous = [] }

empty-IsBounded : IsBounded empty
unfolding IsBounded
empty-IsBounded = (omega arith, omega arith)

abbrev first_key : Bytes
first_key = b'1' ∷ []

abbrev second_key : Bytes
second_key = b'2' ∷ []

abbrev events : List Event
events = submitted second_key ∷ notified true ∷ submitted second_key ∷ []

is_new : (remember empty first_key).1 ≡ true
unfolding remember contains
is_new = refl

one_rotation : rotations (remember empty first_key).0 events ≤ 1
unfolding remember contains same_bytes rotations rotates after rotate_on_notify rotate_seen_shares
one_rotation = omega arith

after_all-IsBounded_example : IsBounded (after_all empty events)
after_all-IsBounded_example = after_all-IsBounded empty events empty-IsBounded

remember-after_all_example :
    remember (after_all (remember empty first_key).0 events) first_key
    ≡ (after_all (remember empty first_key).0 events, false)
remember-after_all_example = remember-after_all empty first_key events is_new one_rotation

abbrev others : List Bytes
others = second_key ∷ (b'3' ∷ []) ∷ []

remember_within_example :
    (remember (after_all (remember empty first_key).0 (map submitted others)) first_key).1 ≡ false
remember_within_example =
    remember_within empty first_key others empty-IsBounded is_new (omega arith)
