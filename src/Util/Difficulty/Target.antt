-- ===== src/Util/Difficulty/Target.antt =====
-- What `target_from_difficulty` gives is made of bytes, whatever the doubles do.
use erikslund_solo_pool.Prelude.{
  ℕ, ◌^◌, ◌++◌, Bool-cases, inl, inr, All-append, IsByte, IsBytes, All-replicate, arith,
}
use erikslund_solo_pool.Prelude.Double.{Double}
use erikslund_solo_pool.Util.Endian.{write_le64, write_le_loop}
use erikslund_solo_pool.Util.Difficulty.{target_from_difficulty}

write_le64-IsBytes : (v : ℕ) → IsBytes (write_le64 v)
unfolding write_le64 write_le_loop
write_le64-IsBytes v = (
  omega arith,
  (
    omega arith,
    (omega arith, (omega arith, (omega arith, (omega arith, (omega arith, (omega arith, tt)))))),
  ),
)

words-IsBytes :
    (a b c d : ℕ) → IsBytes ((write_le64 a ++ write_le64 b) ++ (write_le64 c ++ write_le64 d))
words-IsBytes a b c d =
    All-append IsByte _ _ (All-append IsByte _ _ (write_le64-IsBytes a) (write_le64-IsBytes b))
      (All-append IsByte _ _ (write_le64-IsBytes c) (write_le64-IsBytes d))

pub target_from_difficulty-IsBytes :
    (F : Double) (difficulty : F.Value) → IsBytes (target_from_difficulty F difficulty)
unfolding target_from_difficulty
target_from_difficulty-IsBytes F difficulty =
    elim (Bool-cases (F.less (F.div (F.of_nat 24) (F.of_nat (10 ^ 11))) difficulty)) [
      | inl e ↦ rw e (words-IsBytes _ _ _ _)
      | inr e ↦ rw e (All-replicate IsByte 32 0xff (omega arith))
    ]
