-- ===== src/Util/Merkle/Branch.antt =====
-- util/merkle.cpp: the branch of the coinbase leads to the root of the whole tree.
use erikslund_solo_pool.Prelude.{
  ℕ, zero, suc, ◌+◌, ◌*◌, ◌%◌, ◌≤◌, ◌<◌, ◌≡◌, refl, sym, ap, ◌∙◌, false, List, [], ◌∷◌, ◌++◌, Bytes,
  length, get_or, ◌==◌, not, if◌then◌else◌, length-append, lt→ltb, arith,
}
use erikslund_solo_pool.Util.Merkle.{
  Hash256, zero_hash, back, pad_odd, hash_pair, collapse_level, root_loop, merkle_root, branch_loop,
  merkle_branch, merkle_root_from_branch,
}

-- What the padding adds behind the first two hashes does not depend on the first.
padding : Hash256 → List Hash256 → List Hash256
padding y u = if not (length u % 2 == 0) then u ++ (back (y ∷ u) ∷ []) else u

pad_odd-padding : (x y : Hash256) (u : List Hash256) → pad_odd (x ∷ (y ∷ u)) ≡ x ∷ (y ∷ padding y u)
unfolding pad_odd padding back
pad_odd-padding x y u =
    let even : suc (suc (length u)) % 2 ≡ length u % 2 = omega arith in rw even (ground arith)

length-padding :
    (y : Hash256) (u : List Hash256) → length (padding y u) * 1 ≤ length u + length u % 2
unfolding padding
length-padding y u = ground (arith, length-append u (back (y ∷ u) ∷ []))

module _ (sha256d64 : Bytes → Hash256) where
  length-collapse_level :
      (level : List Hash256) → length (collapse_level sha256d64 level) * 2 ≤ length level
  unfolding collapse_level
  length-collapse_level [] = omega arith
  length-collapse_level (h ∷ []) = omega arith
  length-collapse_level (h ∷ (k ∷ level)) = omega (arith, length-collapse_level level)

  path :
      (n : ℕ) (x z : Hash256) (t : List Hash256)
      → length (x ∷ t) ≤ n
      → root_loop sha256d64 n (x ∷ t)
        ≡ merkle_root_from_branch sha256d64 x (branch_loop sha256d64 n (z ∷ t)) ∷ []
  unfolding root_loop branch_loop merkle_root_from_branch
  path zero x z t h = absurd (omega arith)
  path (suc n) x z [] h = refl
  path (suc n) x z (y ∷ u) h =
      rw
        (
          pad_odd-padding x y u,
          pad_odd-padding z y u,
          lt→ltb 1 (suc (suc (length u))) (omega arith),
        )
        (path n (hash_pair sha256d64 x y) (hash_pair sha256d64 z y)
          (collapse_level sha256d64 (padding y u))
          (omega (arith, length-collapse_level (padding y u), length-padding y u)))

  merkle_root_lem :
      (x : Hash256) (t : List Hash256)
      → merkle_root sha256d64 (x ∷ t)
        ≡ get_or (root_loop sha256d64 (length (x ∷ t)) (x ∷ t)) 0 zero_hash
  unfolding merkle_root
  merkle_root_lem x t = let e : (length (x ∷ t) == 0) ≡ false = ground arith in rw e

  enough :
      (others : List Hash256)
      → branch_loop sha256d64 (length (zero_hash ∷ others)) (zero_hash ∷ others)
        ≡ merkle_branch sha256d64 others
  unfolding merkle_branch
  enough others =
      let same : suc (length others) ≡ length others + 1 = omega arith in
      ap (λ (fuel : ℕ). branch_loop sha256d64 fuel (zero_hash ∷ others)) same

  -- The pool hashes a coinbase up its branch to the root that the tree with that coinbase in front
  -- has, for every coinbase: the branch is computed once, from the other leaves.
  pub merkle_root-merkle_branch :
      (coinbase : Hash256) (others : List Hash256)
      → merkle_root_from_branch sha256d64 coinbase (merkle_branch sha256d64 others)
        ≡ merkle_root sha256d64 (coinbase ∷ others)
  merkle_root-merkle_branch coinbase others = sym (
      merkle_root_lem coinbase others
      ∙ ap (λ (level : List Hash256). get_or level 0 zero_hash)
          (path (length (coinbase ∷ others)) coinbase zero_hash others (omega arith))
      ∙ ap (merkle_root_from_branch sha256d64 coinbase) (enough others))

  -- The loop of `merkle_root` ends with one hash: the fuel is never used up.
  pub root_loop_ends :
      (leaves : List Hash256)
      → 0 < length leaves
      → length (root_loop sha256d64 (length leaves) leaves) ≡ 1
  root_loop_ends [] h = absurd (omega arith)
  root_loop_ends (x ∷ t) h = rw (path (length (x ∷ t)) x zero_hash t (omega arith))
