-- ===== src/Validate/Laws.antt =====
-- The maps of maps: each is a map of maps again after a write, and what a write leaves alone.
use xds_test_harness.Base.{
  ◌≡◌, arith, true, false, none, some, [], ◌∷◌, if◌then◌else◌, All, Option-cases, inl, inr,
  Bool-cases, subst, sym, ◌⊎◌,
}
use xds_test_harness.Text.{Text, text_eq, text_eq_iff}
use xds_test_harness.Dict.{
  Dict, lookup, insert, delete, lookup-insert, lookup-delete, IsMap, insert-IsMap, delete-IsMap,
}
use xds_test_harness.Validate.{
  ValidateResource, Validate, Seen, at_type, assign, delete_at, new_validate,
}

-- A map whose values are maps.
pub record IsNested (m : Seen) : Type 0 where
  pub outer : IsMap m
  pub inner : All (λ (e : Text × Dict ValidateResource). IsMap e.1) m

pub record IsValid (v : Validate) : Type 0 where
  pub seen : IsNested v.resources
  pub removed : IsNested v.removed_resources

insert-inner :
    (t : Text) (d : Dict ValidateResource) (m : Seen)
    → IsMap d
    → All (λ (e : Text × Dict ValidateResource). IsMap e.1) m
    → All (λ (e : Text × Dict ValidateResource). IsMap e.1) (insert t d m)
unfolding insert
insert-inner t d [] h k = (h, tt)
insert-inner t d ((j, w) ∷ m) h k = ground (arith, insert-inner t d m h k.1)

pub insert-IsNested :
    (t : Text) (d : Dict ValidateResource) (m : Seen)
    → IsMap d
    → IsNested m
    → IsNested (insert t d m)
insert-IsNested t d m h n = record {
  outer = insert-IsMap t d m n.outer;
  inner = insert-inner t d m h n.inner;
}

lookup-IsMap :
    (t : Text) (m : Seen) {d : Dict ValidateResource}
    → All (λ (e : Text × Dict ValidateResource). IsMap e.1) m
    → lookup t m ≡ some d
    → IsMap d
unfolding lookup
lookup-IsMap t [] h e = cc
lookup-IsMap t ((j, w) ∷ m) {d} h e = elim (Bool-cases (text_eq j t)) [
  | inl same ↦ ground arith
  | inr other ↦ lookup-IsMap t m {d = d} h.1 (ground arith)
]

at_type-some :
    (t : Text) (m : Seen) {d : Dict ValidateResource} → lookup t m ≡ some d → at_type t m ≡ d
at_type-some t m e = ground arith

at_type-none : (t : Text) (m : Seen) → lookup t m ≡ none → at_type t m ≡ []
at_type-none t m e = ground arith

pub at_type-insert :
    (t s : Text) (d : Dict ValidateResource) (m : Seen)
    → at_type s (insert t d m) ≡ (if text_eq t s then d else at_type s m)
at_type-insert t s d m = ground (arith, lookup-insert t s d m)

at_type-IsMap : (t : Text) (m : Seen) → IsNested m → IsMap (at_type t m)
at_type-IsMap t m n = elim (Option-cases (lookup t m)) [
  | inl e ↦ subst IsMap (sym (at_type-none t m e)) tt
  | inr (d, e) ↦ subst IsMap (sym (at_type-some t m e)) (lookup-IsMap t m {d = d} n.inner e)
]

assign-IsNested :
    (t k : Text) (info : ValidateResource) (m : Seen) {m' : Seen}
    → assign t k info m ≡ some m'
    → IsNested m
    → IsNested m'
unfolding assign
assign-IsNested t k info m {m'} h n = elim (Option-cases (lookup t m)) [
  | inl e ↦ ground arith
  | inr (d, e) ↦
      let written =
        insert-IsNested t (insert k info d) m
          (insert-IsMap k info d (lookup-IsMap t m {d = d} n.inner e)) n in
      ground arith
]

delete_at-IsNested : (t k : Text) (m : Seen) → IsNested m → IsNested (delete_at t k m)
unfolding delete_at
delete_at-IsNested t k m n = elim (Option-cases (lookup t m)) [
  | inl e ↦ rw (e, delete_at) n
  | inr (d, e) ↦
      rw (e, delete_at)
        (insert-IsNested t (delete k d) m (delete-IsMap k d (lookup-IsMap t m {d = d} n.inner e)) n)
]

-- A write at a type that is tracked, and the panic at one that is not.
pub lookup-assign :
    (t k s j : Text) (info : ValidateResource) (m : Seen) {m' : Seen}
    → assign t k info m ≡ some m'
    → lookup j (at_type s m') ≡ (
        if text_eq t s
        then (if text_eq k j then some info else lookup j (at_type s m))
        else lookup j (at_type s m))
unfolding assign
lookup-assign t k s j info m {m'} h = elim (Option-cases (lookup t m)) [
  | inl e ↦ ground arith
  | inr (d, e) ↦
      ground
        (arith, text_eq_iff t s, lookup-insert t s (insert k info d) m, lookup-insert k j info d)
]

pub lookup-delete_at :
    (t k s j : Text) (m : Seen)
    → lookup j (at_type s (delete_at t k m)) ≡ (
        if text_eq t s
        then (if text_eq k j then none else lookup j (at_type s m))
        else lookup j (at_type s m))
unfolding delete_at
lookup-delete_at t k s j m = elim (Option-cases (lookup t m)) [
  | inl e ↦ rw (e, delete_at) (missing (Bool-cases (text_eq t s)) e)
  | inr (d, e) ↦
      ground (arith, text_eq_iff t s, lookup-insert t s (delete k d) m, lookup-delete k j d)
]
  where
    missing :
        ((text_eq t s ≡ true) ⊎ (text_eq t s ≡ false))
        → lookup t m ≡ none
        → lookup j (at_type s m) ≡ (
            if text_eq t s
            then (if text_eq k j then none else lookup j (at_type s m))
            else lookup j (at_type s m))
    missing (inl same) e = unfold lookup in ground (arith, text_eq_iff t s)
    missing (inr other) e = rw other

new_validate-IsValid : IsValid new_validate
unfolding new_validate
new_validate-IsValid = record {
  seen = record { outer = tt; inner = tt };
  removed = record { outer = tt; inner = tt };
}
