-- ===== src/Parser/TypeUrls.antt =====
-- What ServiceToTypeURL accepts, and that the type URL determines the service.
use xds_test_harness.Base.{
  ◌≡◌, ◌↔◌, ◌⊎◌, inl, inr, refl, true, Bool-cases, none, some, sym, ◌∙◌, ap,
}
use xds_test_harness.Text.{Text, codes, text_eq, text_eq_iff, text_eq→≡}
use xds_test_harness.Text.Case.{to_lower}
use xds_test_harness.Dict.{lookup}
use xds_test_harness.Errors.{ok}
use xds_test_harness.Parser.{
  type_url_lds, type_url_cds, type_url_rds, type_url_eds, type_urls, service_to_type_url,
}

-- The four services of the protocol, the name of each, and its type URL.
pub data Service : Type 0 where
  lds cds eds rds : Service

abbrev pub short : Service → Text
short lds = codes "lds"
short cds = codes "cds"
short eds = codes "eds"
short rds = codes "rds"

abbrev pub url : Service → Text
url lds = type_url_lds
url cds = type_url_cds
url eds = type_url_eds
url rds = type_url_rds

lookup-short : (k : Service) → lookup (short k) type_urls ≡ some (url k)
unfolding lookup text_eq
lookup-short lds = refl
lookup-short cds = refl
lookup-short eds = refl
lookup-short rds = refl

-- A text is the name of a service, or is not in the table.
short-cases : (s : Text) → ((k : Service) × (s ≡ short k)) ⊎ (lookup s type_urls ≡ none)
unfolding lookup
short-cases s = elim (Bool-cases (text_eq (short lds) s)) [
  | inl e ↦ inl (lds, sym (text_eq→≡ _ _ e))
  | inr e₁ ↦ elim (Bool-cases (text_eq (short cds) s)) [
    | inl e ↦ inl (cds, sym (text_eq→≡ _ _ e))
    | inr e₂ ↦ elim (Bool-cases (text_eq (short eds) s)) [
      | inl e ↦ inl (eds, sym (text_eq→≡ _ _ e))
      | inr e₃ ↦ elim (Bool-cases (text_eq (short rds) s)) [
        | inl e ↦ inl (rds, sym (text_eq→≡ _ _ e))
        | inr e₄ ↦ inr (rw (e₁, e₂, e₃, e₄))
      ]
    ]
  ]
]

url-text_eq : (j k : Service) → text_eq (url j) (url k) ≡ true → j ≡ k
unfolding text_eq
url-text_eq lds lds e = refl
url-text_eq cds cds e = refl
url-text_eq eds eds e = refl
url-text_eq rds rds e = refl
url-text_eq _ _ e = cc

-- Two services have different type URLs.
pub url-injective : (j k : Service) → url j ≡ url k → j ≡ k
url-injective j k e = url-text_eq j k ((text_eq_iff (url j) (url k)).1 e)

service_to_type_url-short :
    (s : Text) (k : Service) → to_lower s ≡ short k → service_to_type_url s ≡ ok (url k)
unfolding service_to_type_url
service_to_type_url-short s k e = rw (e, lookup-short k)

pub service_to_type_url-eq-ok :
    (s u : Text)
    → (service_to_type_url s ≡ ok u) ↔ ((k : Service) × (to_lower s ≡ short k) × (u ≡ url k))
unfolding service_to_type_url
service_to_type_url-eq-ok s u =
    (found, λ (k, e, e'). service_to_type_url-short s k e ∙ ap ok (sym e'))
  where
    found : service_to_type_url s ≡ ok u → (k : Service) × (to_lower s ≡ short k) × (u ≡ url k)
    found h = elim (short-cases (to_lower s)) [
      | inl (k, e) ↦ (k, e, cc (service_to_type_url-short s k e))
      | inr e ↦ cc
    ]

-- Services that are given the same URL have the same name but for case.
service_to_type_url-injective :
    (s t u : Text)
    → service_to_type_url s ≡ ok u
    → service_to_type_url t ≡ ok u
    → to_lower s ≡ to_lower t
service_to_type_url-injective s t u p q =
    let (j, ej, uj) = (service_to_type_url-eq-ok s u).0 p in
    let (k, ek, uk) = (service_to_type_url-eq-ok t u).0 q in
    ej ∙ ap short (url-injective j k (sym uj ∙ uk)) ∙ sym ek
