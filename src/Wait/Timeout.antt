-- ===== src/Wait/Timeout.antt =====
-- The timeouts of poll and epoll in milliseconds: scale_timeout_milliseconds.
use libfaketime.Base.{true, ◌≡◌, false, Bool-cases, inl, inr, arith, not, ◌||◌}
use libfaketime.Base.Int.{ℤ, pos, ◌≤ℤ◌, leb_ℤ}
use libfaketime.Request.Relative.{Is64}
use libfaketime.Floats.{Floats}
use libfaketime.Process.{Process}
use libfaketime.Wait.{int_max, rated, scale_timeout_milliseconds}

-- How the `long double` of x86 behaves: the comparisons are total on the values that are equal to
-- themselves, which are all but the NaNs; the conversion to an integer does not leave the integers
-- of 64 bits that a value stands between; and a quotient of an integer and a positive double is no
-- NaN.
pub record Ordered (F : Floats) : Type 0 where
  pub not_below :
      (x : F.LongDouble) (n : ℤ)
      → F.le x x ≡ true
      → Is64 n
      → F.lt x (F.of_ℤ n) ≡ false
      → F.le (F.of_ℤ n) x ≡ true
  pub not_above :
      (x : F.LongDouble) (n : ℤ)
      → F.le x x ≡ true
      → Is64 n
      → F.le (F.of_ℤ n) x ≡ false
      → F.le x (F.of_ℤ n) ≡ true
  pub trunc_between :
      (x : F.LongDouble) (a b : ℤ)
      → Is64 a
      → Is64 b
      → F.le (F.of_ℤ a) x ≡ true
      → F.le x (F.of_ℤ b) ≡ true
      → (a ≤ℤ F.trunc x) × (F.trunc x ≤ℤ b)
  pub ceil_ordered : (x : F.LongDouble) → F.le x x ≡ true → F.le (F.ceil x) (F.ceil x) ≡ true
  pub quotient_ordered :
      (n : ℤ) (d : F.Double)
      → Is64 n
      → F.is_positive d ≡ true
      → F.le (F.div (F.of_ℤ n) (F.of_double d)) (F.div (F.of_ℤ n) (F.of_double d)) ≡ true

module _ (F : Floats) where
  -- If the values of `long double` are ordered and converted as on x86, then a positive timeout is
  -- never turned into 0, which would not wait, nor into a negative number, which would wait for
  -- ever: whatever positive rate is set, it becomes 1 to INT_MAX milliseconds.
  pub scale_timeout_milliseconds_bounds :
      Ordered F
      → (p : Process F) (timeout : ℤ) → F.is_positive p.user.rate ≡ true
      → pos 1 ≤ℤ timeout
      → timeout ≤ℤ int_max
      → (pos 1 ≤ℤ scale_timeout_milliseconds F p timeout)
        × (scale_timeout_milliseconds F p timeout ≤ℤ int_max)
  unfolding scale_timeout_milliseconds
  scale_timeout_milliseconds_bounds law p timeout positive lo hi =
      let fits : Is64 timeout = (omega arith, omega arith) in
      let one : Is64 (pos 1) = (omega arith, omega arith) in
      let most : Is64 int_max = (omega arith, omega arith) in
      let x = F.ceil (F.div (F.of_ℤ timeout) (F.of_double p.user.rate)) in
      let ordered : F.le x x ≡ true =
        law.ceil_ordered _ (law.quotient_ordered timeout p.user.rate fits positive) in
      elim (Bool-cases (leb_ℤ timeout (pos 0) || not (rated F p))) [
        | inl same ↦ rw same (lo, hi)
        | inr scaled ↦ rw scaled (elim (Bool-cases (F.le (F.of_ℤ int_max) x)) [
          | inl large ↦ rw large (omega arith, omega arith)
          | inr below ↦ rw below (elim (Bool-cases (F.lt x (F.of_ℤ (pos 1)))) [
            | inl small ↦ rw small (omega arith, omega arith)
            | inr between ↦ rw between (
                law.trunc_between x (pos 1) int_max one most
                  (law.not_below x (pos 1) ordered one between)
                  (law.not_above x int_max ordered most below))
          ])
        ])
      ]
