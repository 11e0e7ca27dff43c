-- ===== src/Errors.antt =====
-- The errors that the harness makes, one constructor for each place, and results that carry them.
use xds_test_harness.Base.{◌≡◌, refl, ◌⊎◌, inl, inr}
use xds_test_harness.Text.{Text}

pub data Error : Type 0 where
  -- internal/parser
  no_type_url : (service : Text) → Error
  no_resource_name : Error
  unrecognized_variant : (printed : Text) → Error
  config_unreadable : Error
  no_node_id : Error
  no_target_address : Error
  no_variants : Error
  -- internal/runner
  cannot_connect : (port : Text) → Error
  no_service : (service : Text) → Error
  service_to_type_url_failed : Error
  marshal_failed : Error
  set_state_failed : Error
  add_failed : Error
  update_failed : Error
  remove_failed : Error
  stream_failed : Error
  stream_error : (cause : Error) → Error
  stream_error_nil : Error
  resource_not_found : (resource : Text) → Error
  wrong_version : (expected actual : Text) → Error
  unexpected_resource : (name version : Text) → Error
  too_many_resources : Error
  not_removed : (resource : Text) → Error
  still_received : (resource : Text) → Error
  too_many_responses : Error
  resource_missing : Error
  several_responses : Error
  same_nonce : (resource : Text) → Error
  same_version : (resource : Text) → Error
  send_failed : Error
  recv_failed : Error
  unmarshal_failed : Error
  no_variant_type : Error
  no_target : (cause : Error) → Error
  no_adapter : (cause : Error) → Error
  results_unreadable : Error

-- A value and a nil error, or an error.
pub data Result {ℓ} (A : Type ℓ) : Type ℓ where
  ok : A → Result A
  err : Error → Result A

infixl 5 ◌>>=◌
abbrev pub ◌>>=◌ {ℓ κ} : {A : Type ℓ} {B : Type κ} → Result A → (A → Result B) → Result B
ok a >>= f = f a
err e >>= f = err e

pub Result-cases {ℓ} :
    {A : Type ℓ} (m : Result A) → ((e : Error) × (m ≡ err e)) ⊎ ((a : A) × (m ≡ ok a))
Result-cases (ok a) = inr (a, refl)
Result-cases (err e) = inl (e, refl)
