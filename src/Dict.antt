-- ===== src/Dict.antt =====
-- Go maps with string keys, as association lists in which a key stands once. A missing key is
-- `none`; a `range` over a map is a walk over its entries in an order that the runtime chooses.
pub mod Walk
use xds_test_harness.Base.{
  ◌≡◌, refl, arith, Bool, true, false, Option, none, some, List, [], ◌∷◌, if◌then◌else◌, All,
}
use xds_test_harness.Text.{Text, text_eq, text_eq_iff, text_eq_refl}

abbrev pub Dict {ℓ} : Type ℓ → Type ℓ
Dict V = List (Text × V)

module _ {ℓ} {V : Type ℓ} where
  -- v, ok := m[k]
  unfoldable pub lookup : Text → Dict V → Option V
  lookup k [] = none
  lookup k ((j, v) ∷ m) = if text_eq j k then some v else lookup k m

  -- m[k] = v
  unfoldable pub insert : Text → V → Dict V → Dict V
  insert k v [] = (k, v) ∷ []
  insert k v ((j, w) ∷ m) = if text_eq j k then (j, v) ∷ m else (j, w) ∷ insert k v m

  -- delete(m, k)
  unfoldable pub delete : Text → Dict V → Dict V
  delete k [] = []
  delete k ((j, w) ∷ m) = let rest = delete k m in if text_eq j k then rest else (j, w) ∷ rest

  pub lookup-insert :
      (k j : Text) (v : V) (m : Dict V)
      → lookup j (insert k v m) ≡ (if text_eq k j then some v else lookup j m)
  unfolding lookup insert
  lookup-insert k j v [] = refl
  lookup-insert k j v ((i, w) ∷ m) =
      ground (arith, text_eq_iff k j, text_eq_iff i k, text_eq_iff i j, lookup-insert k j v m)

  pub lookup-delete :
      (k j : Text) (m : Dict V) → lookup j (delete k m) ≡ (if text_eq k j then none else lookup j m)
  unfolding lookup delete
  lookup-delete k j [] = ground arith
  lookup-delete k j ((i, w) ∷ m) =
      ground (arith, text_eq_iff k j, text_eq_iff i k, text_eq_iff i j, lookup-delete k j m)

  lookup-insert_self : (k : Text) (v : V) (m : Dict V) → lookup k (insert k v m) ≡ some v
  lookup-insert_self k v m = rw (lookup-insert, text_eq_refl k)

-- Each key stands once.
abbrev pub Without {ℓ} : {V : Type ℓ} → Text → Dict V → Type 0
Without k [] = Unit
Without k ((j, v) ∷ m) = (text_eq j k ≡ false) × Without k m

abbrev pub IsMap {ℓ} : {V : Type ℓ} → Dict V → Type 0
IsMap [] = Unit
IsMap ((k, v) ∷ m) = Without k m × IsMap m

module _ {ℓ} {V : Type ℓ} where
  Without-insert :
      (j k : Text) (v : V) (m : Dict V)
      → text_eq k j ≡ false
      → Without j m
      → Without j (insert k v m)
  unfolding insert
  Without-insert j k v [] h w = (h, tt)
  Without-insert j k v ((i, u) ∷ m) h w = ground (arith, Without-insert j k v m h w.1)

  pub insert-IsMap : (k : Text) (v : V) (m : Dict V) → IsMap m → IsMap (insert k v m)
  unfolding insert
  insert-IsMap k v [] h = (tt, tt)
  insert-IsMap k v ((i, u) ∷ m) h =
      ground
        (arith, text_eq_iff i k, text_eq_iff k i, insert-IsMap k v m h.1, Without-insert i k v m)

  Without-delete : (j k : Text) (m : Dict V) → Without j m → Without j (delete k m)
  unfolding delete
  Without-delete j k [] w = tt
  Without-delete j k ((i, u) ∷ m) w = ground (arith, Without-delete j k m w.1)

  pub delete-IsMap : (k : Text) (m : Dict V) → IsMap m → IsMap (delete k m)
  unfolding delete
  delete-IsMap k [] h = tt
  delete-IsMap k ((i, u) ∷ m) h = ground (arith, delete-IsMap k m h.1, Without-delete i k m)
