-- ===== src/Util/Url.antt =====
-- util/url.cpp: a URL without its user and password, for logs.
use erikslund_solo_pool.Prelude.{
  ℕ, ◌+◌, ◌||◌, ◌&&◌, [], ◌∷◌, ◌++◌, Bytes, Option, none, some, take, drop, ◌==◌, if◌then◌else◌,
}

-- `find("://") + 3`, with the index of the first character.
scheme_end : Bytes → ℕ → Option ℕ
scheme_end (a ∷ (b ∷ (c ∷ url))) i =
    let rest = scheme_end (b ∷ c ∷ url) (i + 1) in
    if a == b':' && b == b'/' && c == b'/' then some (i + 3) else rest
scheme_end url i = none

-- What stands before the first of `/?#`.
authority_part : Bytes → Bytes
authority_part [] = []
authority_part (c ∷ url) =
    let rest = authority_part url in if c == b'/' || c == b'?' || c == b'#' then [] else c ∷ rest

-- `rfind('@')`.
last_at : Bytes → ℕ → Option ℕ
last_at [] i = none
last_at (c ∷ span) i = elim (last_at span (i + 1)) [
  | some j ↦ some j
  | none ↦ if c == b'@' then some i else none
]

redact_from : Bytes → ℕ → Bytes
unfolding authority_part last_at
redact_from url authority = elim (last_at (authority_part (drop authority url)) 0) [
  | none ↦ url
  | some at_rel ↦ take authority url ++ drop (authority + at_rel + 1) url
]

unfoldable pub redact_url : Bytes → Bytes
unfolding scheme_end redact_from
redact_url url = elim (scheme_end url 0) [
  | none ↦ redact_from url 0
  | some authority ↦ redact_from url authority
]
