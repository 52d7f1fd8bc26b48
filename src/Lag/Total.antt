-- ===== src/Lag/Total.antt =====
-- The total lag against the test for any lag.
use plus_api.Common.{String, ◌≡◌, refl, inl, inr, true, false, List, [], ◌∷◌, Bool-cases, arith}
use plus_api.Common.Int.{ℤ, pos, negsuc}
use plus_api.Common.Result.{Result, ok, err, settle, pure}
use plus_api.Lag.{
  OffsetInfo, Admin, add_ℤ, is_positive, some_lag, sum_lag, get_consumer_lag, has_lag,
  get_total_lag,
}

add-nonpositive :
    (a b : ℤ) → is_positive a ≡ false → is_positive b ≡ false → is_positive (add_ℤ a b) ≡ false
add-nonpositive (pos n) (pos m) h k = ground arith
add-nonpositive (pos n) (negsuc m) h k = ground arith
add-nonpositive (negsuc n) (pos m) h k = ground arith
add-nonpositive (negsuc n) (negsuc m) h k = ground arith

sum_lag-nonpositive :
    (total : ℤ) (os : List OffsetInfo)
    → is_positive total ≡ false
    → some_lag os ≡ false
    → is_positive (sum_lag total os) ≡ false
sum_lag-nonpositive total [] h k = h
sum_lag-nonpositive total (o ∷ os) h k =
    sum_lag-nonpositive (add_ℤ total o.lag) os (add-nonpositive total o.lag h (ground arith))
      (ground arith)

settled :
    {W : Type 0} (x : Result (List OffsetInfo) × W) (total : ℤ)
    → (settle x.0 (λ offsets. pure (sum_lag (pos 0) offsets)) (λ e. pure (pos 0)) x.1).0 ≡ ok total
    → is_positive total ≡ true
    → (settle x.0 (λ offsets. pure (some_lag offsets)) (λ e. pure false) x.1).0 ≡ ok true
settled (ok os, w) total is positive = elim (Bool-cases (some_lag os)) [
  | inl some_is ↦ rw some_is refl
  | inr nowhere ↦ let small = sum_lag-nonpositive (pos 0) os (ground arith) nowhere in ground arith
]
settled (err e, w) total is positive = ground arith

-- A group whose total lag is positive has lag: `has_lag`, asked in the same state, answers true.
pub has_lag-get_total_lag :
    {W : Type 0} (admin : Admin W) (group : String) (w : W) (total : ℤ)
    → (get_total_lag admin group w).0 ≡ ok total
    → is_positive total ≡ true
    → (has_lag admin group w).0 ≡ ok true
unfolding has_lag get_total_lag
has_lag-get_total_lag admin group w total is positive =
    settled (get_consumer_lag admin group w) total is positive
