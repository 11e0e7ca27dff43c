-- ===== src/Formatter/LastStep.antt =====
-- Which step isLastStep takes for the last one.
use Prim.Native.Nat.{suc}
use xds_test_harness.Base.{
  true≢false, ℕ, ◌+◌, ◌^◌, ◌<◌, ◌≡◌, ◌≢◌, ◌↔◌, ◌⊎◌, refl, sym, ◌∙◌, arith, true, false, Bool-cases,
  List, [], ◌∷◌, length, ◌==◌, inl, inr,
}
use xds_test_harness.Words.{inc64, add64}
use xds_test_harness.Text.{Text, text_eq, text_eq_iff}
use xds_test_harness.Formatter.{Scenario, index_from, index_of, minus_one, is_last_step}

-- The text stands at the end of the list, and nowhere before.
abbrev pub EndsIn : Text → List Text → Type 0
EndsIn val [] = ⊥
EndsIn val (v ∷ arr) = ((v ≡ val) × (arr ≡ [])) ⊎ ((v ≢ val) × EndsIn val arr)

module _ (val : Text) where
  later :
      (arr : List Text) (i : ℕ) (v w : Text)
      → text_eq v val ≡ false
      → (index_from (suc i) val (w ∷ arr) ≡ suc i + length arr) ↔ EndsIn val (w ∷ arr)
      → (index_from (suc i) val (w ∷ arr) ≡ i + suc (length arr)) ↔ EndsIn val (v ∷ w ∷ arr)
  later arr i v w e (to, from) = (
    λ k. inr ((λ q. true≢false (sym ((text_eq_iff v val).1 q) ∙ e)), to (k ∙ omega arith)),
    λ m. elim m [ inl (_, q) ↦ ground arith | inr (_, k) ↦ from k ∙ omega arith ],
  )

  -- An index that is found is less than the end, and the last one is found at the end alone.
  index_from-EndsIn :
      (arr : List Text) (i : ℕ)
      → i + length arr < 2 ^ 63
      → (v : Text) → (index_from i val (v ∷ arr) ≡ i + length arr) ↔ EndsIn val (v ∷ arr)
  unfolding index_from
  index_from-EndsIn [] i h v = elim (Bool-cases (text_eq v val)) [
    | inl e ↦ ground (arith, text_eq_iff v val)
    | inr e ↦ ground (arith, text_eq_iff v val)
  ]
  index_from-EndsIn (w ∷ arr) i h v = elim (Bool-cases (text_eq v val)) [
    | inl e ↦ ground (arith, text_eq_iff v val)
    | inr e ↦
        let up : inc64 i ≡ suc i = omega (arith, h) in
        rw (e, up) (later arr i v w e (index_from-EndsIn arr (suc i) (omega (arith, h)) w))
  ]

equal_iff : {P : Type 0} (a b : ℕ) → (a ≡ b) ↔ P → ((a == b) ≡ true) ↔ P
equal_iff a b h = ground arith

last_of :
    (val : Text) (arr : List Text)
    → arr ≢ []
    → length arr < 2 ^ 63
    → ((index_of val arr == add64 (length arr) minus_one) ≡ true) ↔ EndsIn val arr
unfolding index_of
last_of val [] h k = absurd (h refl)
last_of val (v ∷ arr) h k =
    let e : add64 (suc (length arr)) minus_one ≡ 0 + length arr = omega (arith, k) in
    let found = index_from-EndsIn val arr 0 (omega (arith, k)) v in rw e (equal_iff _ _ found)

-- For a scenario that has steps, fewer than 2 ^ 63 of them, isLastStep says yes exactly to an id
-- that is the last step's and no earlier step's.
pub is_last_step_iff :
    (step_id : Text) (scenario : Scenario)
    → scenario.steps ≢ []
    → length scenario.steps < 2 ^ 63
    → (is_last_step step_id scenario ≡ true) ↔ EndsIn step_id scenario.steps
unfolding is_last_step index_of
is_last_step_iff step_id scenario h k = last_of step_id scenario.steps h k
