-- ===== src/Main/Decimal.antt =====
-- How package fmt prints an `int`: in decimal, with a sign if it is negative.
use Prim.Native.Nat.{◌/◌}
use native.Mathlib.Nat.{pow-succ'}
use xds_test_harness.Base.{
  ℕ, zero, suc, ◌+◌, ◌-◌, ◌*◌, ◌%◌, ◌^◌, ◌≤◌, ◌<◌, ◌≡◌, refl, ◌∙◌, ap, arith, [], ◌∷◌, ◌++◌, ltb,
  if◌then◌else◌, ◌==◌, Bool-cases, inl, inr, All, All-append,
}
use xds_test_harness.Words.{IsWord}
use xds_test_harness.Text.{Text}
use xds_test_harness.Text.Parts.{Lacks}

-- The digits of a number, if there are no more than the fuel.
unfoldable pub digits : ℕ → ℕ → Text
digits zero n = []
digits (suc fuel) n =
    let higher = digits fuel (n / 10) in
    if ltb n 10 then (b'0' + n) ∷ [] else higher ++ (b'0' + n % 10) ∷ []

-- A 64-bit pattern has at most twenty digits.
unfoldable pub show_int : ℕ → Text
unfolding digits
show_int n = if ltb n (2 ^ 63) then digits 20 n else b'-' ∷ digits 20 (2 ^ 64 - n)

-- The number that digits stand for, behind others that stand for v.
abbrev pub value_from : ℕ → Text → ℕ
value_from v [] = v
value_from v (d ∷ ds) = value_from (v * 10 + (d - b'0')) ds

value_from-append :
    (v : ℕ) (ds es : Text) → value_from v (ds ++ es) ≡ value_from (value_from v ds) es
value_from-append v [] es = refl
value_from-append v (d ∷ ds) es = value_from-append (v * 10 + (d - b'0')) ds es

value_from-digits : (fuel n : ℕ) → n < 10 ^ fuel → value_from 0 (digits fuel n) ≡ n
unfolding digits
value_from-digits zero n h = omega (arith, h)
value_from-digits (suc fuel) n h = elim (Bool-cases (ltb n 10)) [
  | inl small ↦ rw (small, digits) (omega arith)
  | inr large ↦
      rw (large, digits)
        (value_from-append 0 (digits fuel (n / 10)) ((b'0' + n % 10) ∷ [])
          ∙ ap (λ v. v * 10 + (b'0' + n % 10 - b'0'))
              (value_from-digits fuel (n / 10) (omega (arith, h, pow-succ' 10 fuel)))
          ∙ omega arith)
]

digits-IsDigit : (fuel n : ℕ) → All (λ d. (b'0' ≤ d) × (d ≤ b'9')) (digits fuel n)
unfolding digits
digits-IsDigit zero n = tt
digits-IsDigit (suc fuel) n = elim (Bool-cases (ltb n 10)) [
  | inl small ↦ rw (small, digits) ((omega arith, ground arith), tt)
  | inr large ↦
      rw (large, digits)
        (All-append (λ d. (b'0' ≤ d) × (d ≤ b'9')) (digits fuel (n / 10)) ((b'0' + n % 10) ∷ [])
          (digits-IsDigit fuel (n / 10)) ((omega arith, omega arith), tt))
]

-- What a printed number says.
abbrev pub read_int : Text → ℕ
read_int [] = 0
read_int (d ∷ ds) = if d == b'-' then 2 ^ 64 - value_from 0 ds else value_from 0 (d ∷ ds)

digits-read : (ds : Text) → All (λ d. (b'0' ≤ d) × (d ≤ b'9')) ds → read_int ds ≡ value_from 0 ds
digits-read [] h = refl
digits-read (d ∷ ds) ((low, high), h) = ground arith

-- A printed number is read again as the same 64-bit pattern.
pub read_int-show_int : (n : ℕ) → IsWord n → read_int (show_int n) ≡ n
unfolding show_int
read_int-show_int n h = elim (Bool-cases (ltb n (2 ^ 63))) [
  | inl small ↦
      rw (small, show_int)
        (digits-read (digits 20 n) (digits-IsDigit 20 n)
          ∙ value_from-digits 20 n (omega (arith, h)))
  | inr large ↦
      rw (large, show_int)
        (ap (λ v. 2 ^ 64 - v) (value_from-digits 20 (2 ^ 64 - n) (omega (arith, h)))
          ∙ omega (arith, h))
]

digits-Lacks : (ds : Text) → All (λ d. (b'0' ≤ d) × (d ≤ b'9')) ds → Lacks b'\n' ds
digits-Lacks [] h = tt
digits-Lacks (d ∷ ds) ((low, high), h) = (ground arith, digits-Lacks ds h)

-- A printed number stays on its line.
pub show_int-Lacks : (n : ℕ) → Lacks b'\n' (show_int n)
unfolding show_int
show_int-Lacks n = elim (Bool-cases (ltb n (2 ^ 63))) [
  | inl small ↦ rw (small, show_int) (digits-Lacks (digits 20 n) (digits-IsDigit 20 n))
  | inr large ↦
      rw (large, show_int)
        (refl, digits-Lacks (digits 20 (2 ^ 64 - n)) (digits-IsDigit 20 (2 ^ 64 - n)))
]
