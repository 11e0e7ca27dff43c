-- ===== src/Steps/Validation/SingleResponse.antt =====
-- Exactly when the check of a single response passes.
use xds_test_harness.Base.{
  ◌≤◌, ◌≡◌, ◌≢◌, ◌↔◌, inl, inr, refl, arith, Bool, true, Bool-cases, Option, none, some, List, [],
  ◌∷◌, All, Option-cases, length,
}
use xds_test_harness.Text.{Text, text_eq, text_eq_iff}
use xds_test_harness.Text.Parts.{split, split-ne-nil}
use xds_test_harness.Dict.{Dict, lookup, insert}
use xds_test_harness.Errors.{ok}
use xds_test_harness.Parser.{service_to_type_url}
use xds_test_harness.Validate.{ValidateResource, Validate, at_type}
use xds_test_harness.Steps.{passed}
use xds_test_harness.Steps.Validation.{nonces_from, count_verdict, single_response}

length-insert-le : {V : Type 0} (k : Text) (v : V) (m : Dict V) → length m ≤ length (insert k v m)
unfolding insert
length-insert-le k v [] = omega arith
length-insert-le k v ((j, w) ∷ m) = ground (arith, length-insert-le k v m)

-- The resource was seen at the version, in the response with the nonce.
abbrev pub SeenIn : Dict ValidateResource → Text → Text → Text → Type 0
SeenIn m version nonce name =
    (info : ValidateResource) × (lookup name m ≡ some info)
    × (info.version ≡ version)
    × (info.nonce ≡ nonce)

module _ (m : Dict ValidateResource) (version : Text) where
  nonces_from-grows :
      (d : Dict Bool) (names : List Text) (e : Dict Bool)
      → nonces_from m version d names ≡ some e
      → length d ≤ length e
  unfolding nonces_from
  nonces_from-grows d [] e h = ground arith
  nonces_from-grows d (name ∷ names) e h = elim (Option-cases (lookup name m)) [
    | inl none_seen ↦ ground arith
    | inr (info, seen) ↦ ground (
      arith,
      length-insert-le info.nonce true d,
      nonces_from-grows (insert info.nonce true d) names e,
    )
  ]

  -- With one nonce before the loop and one behind it, each resource came with that nonce.
  nonces_from-one :
      (nonce : Text) (names : List Text) (e : Dict Bool)
      → nonces_from m version ((nonce, true) ∷ []) names ≡ some e
      → length e ≡ 1
      → All (SeenIn m version nonce) names
  unfolding nonces_from insert
  nonces_from-one nonce [] e h one = tt
  nonces_from-one nonce (name ∷ names) e h one = elim (Option-cases (lookup name m)) [
    | inl none_seen ↦ ground arith
    | inr (info, seen) ↦ elim (Bool-cases (text_eq nonce info.nonce)) [
      | inl same ↦ (
        (
          info,
          seen,
          ground (arith, text_eq_iff info.version version),
          ground (arith, text_eq_iff nonce info.nonce),
        ),
        nonces_from-one nonce names e (ground arith) one,
      )
      | inr other ↦
          absurd
            (ground (arith, nonces_from-grows ((nonce, true) ∷ (info.nonce, true) ∷ []) names e))
    ]
  ]

  nonces_from-same :
      (nonce : Text) (names : List Text)
      → All (SeenIn m version nonce) names
      → nonces_from m version ((nonce, true) ∷ []) names ≡ some ((nonce, true) ∷ [])
  unfolding nonces_from insert
  nonces_from-same nonce [] h = refl
  nonces_from-same nonce (name ∷ names) h = ground (
    arith,
    text_eq_iff h.0.0.version version,
    text_eq_iff nonce h.0.0.nonce,
    nonces_from-same nonce names h.1,
  )

  -- The nonces found from none at all: a first resource sets the one that the others must have.
  nonces_from-nil :
      (name : Text) (names : List Text) (e : Dict Bool)
      → nonces_from m version [] (name ∷ names) ≡ some e
      → length e ≡ 1
      → (nonce : Text) × All (SeenIn m version nonce) (name ∷ names)
  unfolding nonces_from insert
  nonces_from-nil name names e h one = elim (Option-cases (lookup name m)) [
    | inl none_seen ↦ ground arith
    | inr (info, seen) ↦ (
      info.nonce,
      (
        (info, seen, ground (arith, text_eq_iff info.version version), refl),
        nonces_from-one info.nonce names e (ground arith) one,
      ),
    )
  ]

  nonces_from-nil_same :
      (nonce name : Text) (names : List Text)
      → All (SeenIn m version nonce) (name ∷ names)
      → nonces_from m version [] (name ∷ names) ≡ some ((nonce, true) ∷ [])
  unfolding nonces_from insert
  nonces_from-nil_same nonce name names h =
      ground (arith, text_eq_iff h.0.0.version version, nonces_from-same nonce names h.1)

count_verdict-passed :
    (o : Option (Dict Bool))
    → (count_verdict o ≡ passed) ↔ ((e : Dict Bool) × (o ≡ some e) × (length e ≡ 1))
count_verdict-passed none = (λ h. cc, λ h. cc)
count_verdict-passed (some e) = (λ h. (e, refl, ground arith), λ h. ground arith)

single_response_at :
    (m : Dict ValidateResource) (version : Text) (names : List Text)
    → names ≢ []
    → (count_verdict (nonces_from m version [] names) ≡ passed)
      ↔ ((nonce : Text) × All (SeenIn m version nonce) names)
single_response_at m version [] h = absurd (h refl)
single_response_at m version (name ∷ names) h = (
  λ p.
      let (e, found, one) = (count_verdict-passed _).0 p in
      nonces_from-nil m version name names e found one,
  λ (nonce, all).
      (count_verdict-passed _).1
        ((nonce, true) ∷ [], nonces_from-nil_same m version nonce name names all, refl),
)

-- For a service that has a type URL, the check passes exactly where there is one nonce with which
-- each of the comma-separated resources was seen, at the version.
pub single_response_iff :
    (resources version service : Text) (v : Validate) (u : Text)
    → service_to_type_url service ≡ ok u
    → (single_response resources version service v ≡ passed)
      ↔ ((nonce : Text) × All (SeenIn (at_type u v.resources) version nonce) (split resources b','))
unfolding single_response
single_response_iff resources version service v u hu =
    rw (hu, single_response) (single_response_at _ version _ (split-ne-nil resources b','))
