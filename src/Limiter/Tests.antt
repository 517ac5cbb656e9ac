-- ===== src/Limiter/Tests.antt =====
-- internal/auth/ratelimit.go: the limiter at concrete keys and times.
use tablex.Common.{
  [], ℕ, ◌+◌, ◌*◌, inl, inr, length, ◌≤◌, true, List, ◌∷◌, ◌≡◌, arith, Str, bytes, str_eq, ite,
}
use tablex.Limiter.{RateLimiter, reserve, retry_after_seconds}
use tablex.Limiter.Cap.{IsCapped, Distinct, reserve-IsCapped}
use tablex.Limiter.Exact.{at, ReservesAt, reserve-ReservesAt, retry_after_seconds_enough}

abbrev address : Str
address = bytes "ip"

abbrev account : Str
account = bytes "user"

abbrev five : List ℕ
five = 5 ∷ []

-- Two attempts in ten seconds; one key has made one.
abbrev limiter : RateLimiter
limiter = record {
  window = 10_000_000_000;
  max = 2;
  hits = λ k. ite (str_eq address k) five [];
  reads = 0;
}

limiter-IsCapped : IsCapped limiter
limiter-IsCapped k = elim (str_eq address k) as (λ d. length (ite d five []) ≤ 2) [
  | yes e ↦ omega arith
  | no ne ↦ omega arith
]

two-Distinct : Distinct (address ∷ account ∷ [])
two-Distinct = (
  elim [ inl e ↦ (let z : account ≡ address = e in cc) | inr e ↦ absurd e ],
  ((λ e. absurd e), tt),
)

reserve-IsCapped_example : IsCapped (reserve (λ i. 20 + i) limiter (address ∷ account ∷ [])).0
reserve-IsCapped_example =
    reserve-IsCapped (λ i. 20 + i) limiter (address ∷ account ∷ []) two-Distinct limiter-IsCapped

reserve-ReservesAt_example :
    ReservesAt 20 limiter
      (address ∷ account ∷ [])
      (reserve (at 20) limiter (address ∷ account ∷ [])).0
      (reserve (at 20) limiter (address ∷ account ∷ [])).1
reserve-ReservesAt_example =
    reserve-ReservesAt 20 limiter (address ∷ account ∷ []) two-Distinct (omega arith)

retry_after_seconds_enough_example : (reserve (at 10_000_000_005) limiter (address ∷ [])).1 ≡ true
unfolding str_eq retry_after_seconds
retry_after_seconds_enough_example =
    retry_after_seconds_enough 5 10_000_000_005 limiter address (omega arith) (omega arith, tt)
      waited
  where
    waited : 5 + retry_after_seconds 10_000_000_000 * 1_000_000_000 ≤ 10_000_000_005
    waited = omega arith
