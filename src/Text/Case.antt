-- ===== src/Text/Case.antt =====
-- strings.ToLower, as far as a comparison with ASCII text can tell: the letters A to Z, and the two
-- other code points that Go maps into ASCII (U+0130 to i, U+212A to k). The other capital letters
-- go to code points outside ASCII in Go, and stay here, outside ASCII too.
use xds_test_harness.Base.{ℕ, ◌+◌, ◌≡◌, refl, arith, ◌&&◌, leb, ◌==◌, if◌then◌else◌, [], ◌∷◌, ap₂}
use xds_test_harness.Text.{Text}

unfoldable pub lower : ℕ → ℕ
lower c =
    if leb b'A' c && leb c b'Z'
    then c + 32
    else if c == 0x130
    then b'i'
    else if c == 0x212a
    then b'k'
    else c

unfoldable pub to_lower : Text → Text
to_lower [] = []
to_lower (c ∷ s) = lower c ∷ to_lower s

lower_idem : (c : ℕ) → lower (lower c) ≡ lower c
unfolding lower
lower_idem c = ground arith

-- Lower-case text is left alone.
to_lower_idem : (s : Text) → to_lower (to_lower s) ≡ to_lower s
unfolding to_lower
to_lower_idem [] = refl
to_lower_idem (c ∷ s) = ap₂ ◌∷◌ (lower_idem c) (to_lower_idem s)
