-- ===== src/Consumer/Attempts.antt =====
-- The number of attempts that a message's `x-retry-count` header tells, and the wait before the next
-- one: getRetryAttempt and handleMessage of apps/searcher/src/kafka/kafka-consumer.service.ts.
use Prim.Native.Char.{Char, code}
use native.Mathlib.Nat.{div-le_self}
use plus_api.Common.{
  ℕ, zero, suc, ◌+◌, ◌-◌, ◌*◌, ◌/◌, ◌^◌, ◌≤◌, min, String, ◌≡◌, Bool, true, false, ◌&&◌, ◌||◌, leb,
  ltb, ◌==◌, if◌then◌else◌, arith, Option, none, some,
}

-- what `parseInt` gives: `NaN`, a natural number, or `- n`
pub data Count : Type 0 where
  nan : Count
  count : ℕ → Count
  minus : ℕ → Count

abbrev is_digit : Char → Bool
is_digit c = leb b'0' (code c) && leb (code c) b'9'

abbrev is_space : Char → Bool
is_space c = code c == b' ' || (leb 9 (code c) && leb (code c) 13)

-- the digits at the text's start, after the number that the ones before them make
digits : Option ℕ → String → Option ℕ
digits n String.[] = n
digits none (String.◌∷◌ c s) =
    let rest = digits (some (code c - b'0')) s in if is_digit c then rest else none
digits (some n) (String.◌∷◌ c s) =
    let rest = digits (some (n * 10 + (code c - b'0'))) s in if is_digit c then rest else some n

abbrev count_of : Option ℕ → Count
count_of none = nan
count_of (some n) = count n

abbrev minus_of : Option ℕ → Count
minus_of none = nan
minus_of (some n) = minus n

-- `parseInt(text, 10)`
unfoldable pub parse_int : String → Count
unfolding digits
parse_int String.[] = nan
parse_int (String.◌∷◌ c s) =
    let rest = parse_int s in
    if is_space c
    then rest
    else if code c == b'-'
    then minus_of (digits none s)
    else if code c == b'+'
    then count_of (digits none s)
    else count_of (digits none (String.◌∷◌ c s))

abbrev pub max_retries : ℕ
max_retries = 3

-- `attemptCount < this.MAX_RETRIES`, which is false of `NaN`
abbrev pub below_limit : Count → Bool
below_limit nan = false
below_limit (count n) = ltb n max_retries
below_limit (minus n) = true

-- `Math.min(1000 * Math.pow(2, attemptCount), 10000)`, in the whole milliseconds of `setTimeout`
unfoldable pub delay : Count → ℕ
delay nan = 1
delay (count n) = min (1000 * 2 ^ n) 10000
delay (minus n) = min (1000 / 2 ^ n) 10000

-- The waits between the attempts never reach the cap of ten seconds: they are of four at most.
pub delay_bounded : (c : Count) → below_limit c ≡ true → delay c ≤ 4000
unfolding delay
delay_bounded nan h = ground arith
delay_bounded (count zero) h = ground arith
delay_bounded (count (suc zero)) h = ground arith
delay_bounded (count (suc (suc zero))) h = ground arith
delay_bounded (count (suc (suc (suc n)))) h = ground arith
delay_bounded (minus n) h = grind (arith, div-le_self 1000 (2 ^ n))
