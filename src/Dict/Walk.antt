-- ===== src/Dict/Walk.antt =====
-- `for k, v := range m`: the entries of the map, in an order that the runtime chooses.
use xds_test_harness.Base.{
  ◌≡◌, refl, ap, arith, false, some, List, [], ◌∷◌, ◌⊎◌, inl, inr, Bool-cases, All, subst, ◌↔◌,
}
use xds_test_harness.Text.{Text, text_eq, text_eq_iff, text_eq_refl}
use xds_test_harness.Dict.{Dict, lookup, IsMap, Without}

abbrev pub In : {A : Type 0} → A → List A → Type 0
In a [] = ⊥
In a (x ∷ xs) = (x ≡ a) ⊎ In a xs

-- A walk meets an entry exactly where the map has it.
pub record Walk (V : Type 0) : Type 0 where
  pub entries : Dict V → List (Text × V)
  pub sound :
      (m : Dict V) (k : Text) (v : V) → IsMap m → In (k, v) (entries m) → lookup k m ≡ some v
  pub complete :
      (m : Dict V) (k : Text) (v : V) → IsMap m → lookup k m ≡ some v → In (k, v) (entries m)

module _ {V : Type 0} where
  Without-In : (m : Dict V) (j k : Text) (v : V) → Without j m → In (k, v) m → text_eq k j ≡ false
  Without-In [] j k v w i = elim i [ ]
  Without-In ((i, u) ∷ m) j k v w (inl e) = rw (ap (λ (p : Text × V). p.0) e) at w.0
  Without-In ((i, u) ∷ m) j k v w (inr h) = Without-In m j k v w.1 h

  pub In-lookup : (m : Dict V) (k : Text) (v : V) → IsMap m → In (k, v) m → lookup k m ≡ some v
  unfolding lookup
  In-lookup [] k v h i = elim i [ ]
  In-lookup ((j, u) ∷ m) k v h (inl e) = ground (arith, text_eq_iff j k)
  In-lookup ((j, u) ∷ m) k v h (inr i) =
      ground
        (arith, text_eq_iff j k, text_eq_refl k, Without-In m j k v h.0 i, In-lookup m k v h.1 i)

  pub lookup-In : (m : Dict V) (k : Text) (v : V) → IsMap m → lookup k m ≡ some v → In (k, v) m
  unfolding lookup
  lookup-In [] k v h e = cc
  lookup-In ((j, u) ∷ m) k v h e = elim (Bool-cases (text_eq j k)) [
    | inl t ↦ inl (ground (arith, text_eq_iff j k))
    | inr t ↦ inr (lookup-In m k v h.1 (ground arith))
  ]

-- The entries in the order in which the model holds them.
abbrev pub in_order : {V : Type 0} → Walk V
in_order = record { entries = λ m. m; sound = In-lookup; complete = lookup-In }

All-In : {A : Type 0} (P : A → Type 0) (xs : List A) → All P xs → (a : A) → In a xs → P a
All-In P [] h a i = elim i [ ]
All-In P (x ∷ xs) h a (inl e) = subst P e h.0
All-In P (x ∷ xs) h a (inr i) = All-In P xs h.1 a i

In-All : {A : Type 0} (P : A → Type 0) (xs : List A) → ((a : A) → In a xs → P a) → All P xs
In-All P [] h = tt
In-All P (x ∷ xs) h = (h x (inl refl), In-All P xs (λ a i. h a (inr i)))

module _ {V : Type 0} (walk : Walk V) (m : Dict V) (is_map : IsMap m) (P : Text × V → Type 0) where
  -- What holds of each entry that a walk meets holds of each entry of the map, and conversely.
  pub All-entries : All P (walk.entries m) ↔ ((k : Text) (v : V) → lookup k m ≡ some v → P (k, v))
  All-entries = (
    λ h k v e. All-In P _ h (k, v) (walk.complete m k v is_map e),
    λ h. In-All P _ (λ e i. h e.0 e.1 (walk.sound m e.0 e.1 is_map i)),
  )
