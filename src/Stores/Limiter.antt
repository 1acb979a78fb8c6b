-- ===== src/Stores/Limiter.antt =====
-- `RateLimiter._check_memory` and `_check_redis` of rate_limiter.py. Times are in microseconds.
use apna_mandla.Prelude.{
  ℕ, ◌+◌, ◌*◌, String, Bool, true, false, Option, none, some, List, [], ◌∷◌, ◌++◌, ltb, leb,
  if◌then◌else◌, keep_if, length, get_or,
}
use apna_mandla.Stores.Dict.{dict_get, dict_set}

pub record RateLimiter : Type 0 where
  pub times : ℕ
  pub seconds : ℕ

-- `t > now - seconds`
abbrev pub recent : RateLimiter → ℕ → ℕ → Bool
recent limiter now t = ltb now (t + limiter.seconds * 1_000_000)

-- Whether the request is let through, and the store; a refusal is the answer 429.
unfoldable pub check_memory :
    RateLimiter → String → ℕ → List (String × List ℕ) → Bool × List (String × List ℕ)
check_memory limiter key now store =
    let kept = keep_if (recent limiter now) (get_or (dict_get key store) []) in
    if leb limiter.times (length kept)
    then (false, dict_set key kept store)
    else (true, dict_set key (kept ++ (now ∷ [])) store)

-- The count that the pipeline answers; `none` is a client call that raises, which lets through.
unfoldable pub check_redis : RateLimiter → Option ℕ → Bool
check_redis limiter none = true
check_redis limiter (some count) = if leb limiter.times count then false else true
