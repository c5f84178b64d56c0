-- ===== src/Core/Logging.antt =====
-- core/logging.cpp: what becomes of a text from a miner before it is kept. Both stop at a limit.
use erikslund_solo_pool.Prelude.{
  ℕ, ◌+◌, not, ◌&&◌, [], ◌∷◌, Bytes, length, leb, ◌==◌, if◌then◌else◌, codes,
}

-- `out` has `size` characters when the rest is read.
sanitize_loop : Bytes → ℕ → ℕ → Bytes
sanitize_loop [] limit size = []
sanitize_loop (c ∷ value) limit size =
    let rest = sanitize_loop value limit (size + 1) in
    if leb limit size then [] else (if leb 0x20 c && not (c == 0x7f) then c else b'?') ∷ rest

unfoldable pub sanitize : Bytes → ℕ → Bytes
unfolding sanitize_loop
sanitize value limit = if length value == 0 then codes "?" else sanitize_loop value limit 0

-- The size counts the characters kept.
ascii_loop : Bytes → ℕ → ℕ → Bytes
ascii_loop [] limit size = []
ascii_loop (c ∷ value) limit size =
    let is_kept = leb 0x20 c && leb c 0x7e in
    let rest = ascii_loop value limit (if is_kept then size + 1 else size) in
    if leb limit size then [] else if is_kept then c ∷ rest else rest

unfoldable pub ascii_only : Bytes → ℕ → Bytes
unfolding ascii_loop
ascii_only value limit = ascii_loop value limit 0

-- The default of both.
abbrev pub log_limit : ℕ
log_limit = 128
