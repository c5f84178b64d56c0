-- ===== src/Util/Merkle.antt =====
-- util/merkle.hpp and util/merkle.cpp. A hash is a list of 32 bytes; the double SHA-256 of a 64-byte
-- block is `SHA256D64` of third_party/, a parameter here.
pub mod Branch
use erikslund_solo_pool.Prelude.{
  ℕ, zero, suc, ◌+◌, ◌-◌, ◌%◌, List, [], ◌∷◌, ◌++◌, Bytes, length, get_or, replicate, ltb, ◌==◌,
  not, if◌then◌else◌,
}

abbrev pub Hash256 : Type 0
Hash256 = Bytes

abbrev pub zero_hash : Hash256
zero_hash = replicate 32 0

-- `level.back()`; the code calls it on a level that is not empty.
unfoldable pub back : List Hash256 → Hash256
back [] = zero_hash
back (h ∷ []) = h
back (h ∷ (k ∷ level)) = back (k ∷ level)

-- An odd level gets its last hash twice.
unfoldable pub pad_odd : List Hash256 → List Hash256
pad_odd level = if not (length level % 2 == 0) then level ++ (back level ∷ []) else level

module _ (sha256d64 : Bytes → Hash256) where
  unfoldable pub hash_pair : Hash256 → Hash256 → Hash256
  hash_pair left right = sha256d64 (left ++ right)

  -- `SHA256D64` on `pairs` blocks, which are the hashes in pairs.
  unfoldable pub collapse_level : List Hash256 → List Hash256
  unfolding hash_pair
  collapse_level [] = []
  collapse_level (h ∷ []) = []
  collapse_level (h ∷ (k ∷ level)) = hash_pair h k ∷ collapse_level level

  -- A level is at most half of the one before, so as many rounds as there are leaves are enough.
  pub root_loop : ℕ → List Hash256 → List Hash256
  unfolding collapse_level
  root_loop zero leaves = leaves
  root_loop (suc fuel) leaves =
      let rest = root_loop fuel (collapse_level (pad_odd leaves)) in
      if ltb 1 (length leaves) then rest else leaves

  unfoldable pub merkle_root : List Hash256 → Hash256
  unfolding root_loop
  merkle_root leaves =
      if length leaves == 0
      then zero_hash
      else get_or (root_loop (length leaves) leaves) 0 zero_hash

  branch_loop : ℕ → List Hash256 → List Hash256
  unfolding collapse_level
  branch_loop zero level = []
  branch_loop (suc fuel) level =
      let padded = pad_odd level in
      let rest = branch_loop fuel (collapse_level padded) in
      if ltb 1 (length level) then get_or padded 1 zero_hash ∷ rest else []

  unfoldable pub merkle_branch : List Hash256 → List Hash256
  unfolding branch_loop
  merkle_branch other_leaves = branch_loop (length other_leaves + 1) (zero_hash ∷ other_leaves)

  unfoldable pub merkle_root_from_branch : Hash256 → List Hash256 → Hash256
  unfolding hash_pair
  merkle_root_from_branch coinbase [] = coinbase
  merkle_root_from_branch coinbase (sibling ∷ branch) =
      merkle_root_from_branch (hash_pair coinbase sibling) branch
