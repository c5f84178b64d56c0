-- ===== src/Stratum/Seen/Lookback.antt =====
-- stratum/session.cpp: how long a share stays known, and how much a session keeps.
use erikslund_solo_pool.Prelude.{
  ℕ, ◌+◌, ◌≤◌, ◌<◌, ◌≡◌, refl, ap, inl, inr, Bool, true, false, not, ◌&&◌, ◌||◌, List, [], ◌∷◌, map,
  ◌*◌, Bytes, length, leb, ◌==◌, if◌then◌else◌, same_bytes_refl, Bool-cases, arith,
}
use erikslund_solo_pool.Stratum.Seen.{
  SeenShares, max_seen_shares, contains, rotate_seen_shares, remember, rotate_on_notify,
}

-- What happens to the sets of a session: a share that comes in, a job that goes out.
pub data Event : Type 0 where
  submitted : Bytes → Event
  notified : Bool → Event

unfoldable pub after : SeenShares → Event → SeenShares
after seen (submitted key) = (remember seen key).0
after seen (notified clean) = rotate_on_notify seen clean

unfoldable pub after_all : SeenShares → List Event → SeenShares
after_all seen [] = seen
after_all seen (event ∷ events) = after_all (after seen event) events

-- Whether an event rotates the sets.
unfoldable pub rotates : SeenShares → Event → Bool
rotates seen (submitted key) =
    not (contains seen.current key || contains seen.previous key)
    && leb max_seen_shares (length seen.current)
rotates seen (notified clean) = clean && not (length seen.current == 0)

unfoldable pub rotations : SeenShares → List Event → ℕ
rotations seen [] = 0
rotations seen (event ∷ events) =
    (if rotates seen event then 1 else 0) + rotations (after seen event) events

-- No more than the bound in either set.
unfoldable pub IsBounded : SeenShares → Type 0
IsBounded seen = (length seen.current ≤ max_seen_shares) × (length seen.previous ≤ max_seen_shares)

after-IsBounded :
    (seen : SeenShares) (event : Event) → IsBounded seen → IsBounded (after seen event)
unfolding after remember rotate_seen_shares rotate_on_notify IsBounded
after-IsBounded seen (submitted key) h = ground arith
after-IsBounded seen (notified clean) h = ground arith

-- Whatever happens to sets that are within the bound, neither ever has more than 16384 keys.
pub after_all-IsBounded :
    (seen : SeenShares) (events : List Event) → IsBounded seen → IsBounded (after_all seen events)
unfolding after_all
after_all-IsBounded seen [] h = h
after_all-IsBounded seen (event ∷ events) h =
    after_all-IsBounded (after seen event) events (after-IsBounded seen event h)

-- Without a rotation, what is known stays known; a rotation moves the live set back.
stays :
    (seen : SeenShares) (event : Event) (key : Bytes)
    → rotates seen event ≡ false
    → (contains seen.current key ≡ true → contains (after seen event).current key ≡ true)
      × (contains seen.previous key ≡ true → contains (after seen event).previous key ≡ true)
unfolding after remember rotate_seen_shares rotate_on_notify rotates contains
stays seen (submitted k) key h = (λ live. ground arith, λ old. ground arith)
stays seen (notified clean) key h = (λ live. ground arith, λ old. ground arith)

moves_back :
    (seen : SeenShares) (event : Event) (key : Bytes)
    → rotates seen event ≡ true
    → contains seen.current key ≡ true
    → contains (after seen event).previous key ≡ true
unfolding after remember rotate_seen_shares rotate_on_notify rotates contains
moves_back seen (submitted k) key h live = ground arith
moves_back seen (notified clean) key h live = ground arith

old-stays :
    (seen : SeenShares) (events : List Event) (key : Bytes)
    → contains seen.previous key ≡ true
    → rotations seen events ≡ 0
    → contains (after_all seen events).previous key ≡ true
unfolding after_all rotations
old-stays seen [] key old none = old
old-stays seen (event ∷ events) key old none = elim (Bool-cases (rotates seen event)) [
  | inl turned ↦ absurd (ground arith)
  | inr kept ↦
      old-stays (after seen event) events key ((stays seen event key kept).1 old)
        (omega (arith, rw kept at none))
]

live-stays :
    (seen : SeenShares) (events : List Event) (key : Bytes)
    → contains seen.current key ≡ true
    → rotations seen events ≤ 1
    → (contains (after_all seen events).current key
        || contains (after_all seen events).previous key)
      ≡ true
unfolding after_all rotations
live-stays seen [] key live few = ground arith
live-stays seen (event ∷ events) key live few = elim (Bool-cases (rotates seen event)) [
  | inl turned ↦
      let old =
        old-stays (after seen event) events key (moves_back seen event key turned live)
          (omega (arith, rw turned at few)) in
      ground arith
  | inr kept ↦
      live-stays (after seen event) events key ((stays seen event key kept).0 live)
        (omega (arith, rw kept at few))
]

new-live :
    (seen : SeenShares) (key : Bytes)
    → (remember seen key).1 ≡ true
    → contains (remember seen key).0.current key ≡ true
unfolding remember contains
new-live seen key new = ground (arith, same_bytes_refl key)

-- A share that was new is refused, and changes nothing, when it comes again after any shares and
-- notifications between which the sets rotate at most once.
pub remember-after_all :
    (seen : SeenShares) (key : Bytes) (events : List Event)
    → (remember seen key).1 ≡ true
    → rotations (remember seen key).0 events ≤ 1
    → remember (after_all (remember seen key).0 events) key
      ≡ (after_all (remember seen key).0 events, false)
unfolding remember
remember-after_all seen key events new few =
    rw (live-stays (remember seen key).0 events key (new-live seen key new) few) refl

-- A rotation takes 16384 keys from the live set, and a share adds at most one.
spent :
    (seen : SeenShares) (key : Bytes)
    → (if rotates seen (submitted key) then 1 else 0) * max_seen_shares
        + length (after seen (submitted key)).current
      ≤ length seen.current + 1
unfolding after remember rotate_seen_shares rotates
spent seen key = ground arith

rotations_bound :
    (seen : SeenShares) (keys : List Bytes)
    → rotations seen (map submitted keys) * max_seen_shares ≤ length seen.current + length keys
unfolding rotations
rotations_bound seen [] = omega arith
rotations_bound seen (key ∷ keys) =
    omega (arith, spent seen key, rotations_bound (after seen (submitted key)) keys)

-- A share that was new, to a session within its bounds, is refused when it comes again with fewer than
-- 16384 shares, and no notification, in between.
pub remember_within :
    (seen : SeenShares) (key : Bytes) (keys : List Bytes)
    → IsBounded seen
    → (remember seen key).1 ≡ true
    → length keys < max_seen_shares
    → (remember (after_all (remember seen key).0 (map submitted keys)) key).1 ≡ false
unfolding after IsBounded
remember_within seen key keys bounded new few =
    ap (λ (r : SeenShares × Bool). r.1)
      (remember-after_all seen key (map submitted keys) new (
        omega (
          arith,
          rotations_bound (remember seen key).0 keys,
          after-IsBounded seen (submitted key) bounded,
        )))
