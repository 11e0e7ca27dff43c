-- ===== src/Adapter/Setting/Growing.antt =====
-- The slices of SetState and the snapshot that is made of them.
use xds_test_harness.Base.{
  ◌≡◌, ◌≢◌, ◌↔◌, ◌⊎◌, inl, inr, refl, sym, ◌∙◌, ap, true≢false, Bool-cases, List, [], ◌∷◌, ◌++◌,
}
use xds_test_harness.Text.{Text, text_eq, text_eq_iff, text_eq→≡}
use xds_test_harness.Parser.TypeUrls.{Service, lds, cds, eds, rds, url, url-injective}
use xds_test_harness.Adapter.Messages.{Resource, name_of}
use xds_test_harness.Adapter.{Index}
use xds_test_harness.Adapter.Names.{Has, Under, Has-cons}
use xds_test_harness.Adapter.Setting.{Building, put, grow, nothing_made}

put-same : {A : Type 0} (k : Service) (a : A) (f : Service → A) → put k a f k ≡ a
unfolding put
put-same lds a f = refl
put-same cds a f = refl
put-same eds a f = refl
put-same rds a f = refl

Service-cases : (k j : Service) → (k ≡ j) ⊎ (k ≢ j)
Service-cases k j = elim (Bool-cases (text_eq (url k) (url j))) [
  | inl same ↦ inl (url-injective k j (text_eq→≡ (url k) (url j) same))
  | inr miss ↦ inr (λ e. true≢false (sym ((text_eq_iff (url k) (url j)).1 (ap url e)) ∙ miss))
]

put-other : {A : Type 0} (k j : Service) (a : A) (f : Service → A) → k ≢ j → put k a f j ≡ f j
unfolding put
put-other lds lds a f h = absurd (h refl)
put-other cds cds a f h = absurd (h refl)
put-other eds eds a f h = absurd (h refl)
put-other rds rds a f h = absurd (h refl)
put-other lds cds a f h = refl
put-other lds eds a f h = refl
put-other lds rds a f h = refl
put-other cds lds a f h = refl
put-other cds eds a f h = refl
put-other cds rds a f h = refl
put-other eds lds a f h = refl
put-other eds cds a f h = refl
put-other eds rds a f h = refl
put-other rds lds a f h = refl
put-other rds cds a f h = refl
put-other rds eds a f h = refl

Has-snoc :
    {Any : Type 0} (n : Text) (rs : List (Resource Any)) (r : Resource Any)
    → Has (rs ++ r ∷ []) n ↔ (Has rs n ⊎ (name_of r ≡ n))
Has-snoc n [] r = (
  λ x. elim ((Has-cons n r []).0 x) [ inl e ↦ inr e | inr y ↦ inl y ],
  λ x. elim x [ inl y ↦ (Has-cons n r []).1 (inr y) | inr e ↦ (Has-cons n r []).1 (inl e) ],
)
Has-snoc n (s ∷ rs) r =
    let ih = Has-snoc n rs r in
    let left = Has-cons n s (rs ++ r ∷ []) in
    let right = Has-cons n s rs in
    (
      λ x. elim (left.0 x) [
        | inl e ↦ inl (right.1 (inl e))
        | inr y ↦ elim (ih.0 y) [ inl z ↦ inl (right.1 (inr z)) | inr e ↦ inr e ]
      ],
      λ x. elim x [
        | inl y ↦ elim (right.0 y) [ inl e ↦ left.1 (inl e) | inr z ↦ left.1 (inr (ih.1 (inl z))) ]
        | inr e ↦ left.1 (inr (ih.1 (inr e)))
      ],
    )

module _ {Any Items : Type 0} (index : Index Any Items) where
  -- The snapshot serves what the slices have.
  abbrev pub Built : Building Any Items → Type 0
  Built b = (k : Service) (n : Text) → Under (index.walk (b.snapshot k)) n ↔ Has (b.made k) n

  pub nothing_made-Built : Built (nothing_made index)
  nothing_made-Built k n = rw index.walk-no_items (λ (r, i). elim i [ ], λ (r, i, e). elim i [ ])

  pub grow-Built :
      (version : Text) (k : Service) (r : Resource Any) (b : Building Any Items)
      → Built b
      → Built (grow index version k r b)
  unfolding grow
  grow-Built version k r b h j n = elim (Service-cases k j) [
    | inl same ↦ rw⁻¹ same (
        rw
          (
            put-same k (index.new_resources version (b.made k ++ r ∷ [])) b.snapshot,
            put-same k (b.made k ++ r ∷ []) b.made,
          )
          (index.walk-new_resources version n (b.made k ++ r ∷ [])))
    | inr other ↦
        rw
          (
            put-other k j (index.new_resources version (b.made k ++ r ∷ [])) b.snapshot other,
            put-other k j (b.made k ++ r ∷ []) b.made other,
          )
          (h j n)
  ]

  pub grow-Has :
      (version : Text) (k j : Service) (n : Text) (r : Resource Any) (b : Building Any Items)
      → Has ((grow index version k r b).made j) n ↔ (Has (b.made j) n ⊎ ((k ≡ j) × (name_of r ≡ n)))
  unfolding grow
  grow-Has version k j n r b = elim (Service-cases k j) [
    | inl same ↦ rw⁻¹ same (
        rw put-same (
          λ x. elim ((Has-snoc n (b.made k) r).0 x) [ inl y ↦ inl y | inr e ↦ inr (refl, e) ],
          λ x. (Has-snoc n (b.made k) r).1 (elim x [ inl y ↦ inl y | inr (_, e) ↦ inr e ]),
        ))
    | inr other ↦
        rw (put-other k j _ _ other)
          (λ x. inl x, λ x. elim x [ inl y ↦ y | inr (e, _) ↦ absurd (other e) ])
  ]
