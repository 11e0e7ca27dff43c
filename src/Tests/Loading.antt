-- ===== src/Tests/Loading.antt =====
-- The texts of steps, and the steps that they run.
use xds_test_harness.Base.{◌≡◌, refl, inl, inr, none, some, [], ◌∷◌}
use xds_test_harness.Text.{codes}
use xds_test_harness.Steps.Loading.{
  Pattern, client_does_not_receive_resource_of_service_at_version,
  client_subscribes_to_a_subset_of_resources_for_service, loaded_steps, strip, up_to_quote, group,
  match_rest, match_pattern, find_step,
}
use xds_test_harness.Steps.Loading.Dispatch.{render}
use xds_test_harness.Steps.Loading.Distinct.{find_step-render}

-- A text is dispatched, and one in single quotes is not.
loading-runs :
    (find_step loaded_steps (codes "the Client subscribes to resources \"A,B\" for \"CDS\"")
      ≡ some
          (client_subscribes_to_a_subset_of_resources_for_service, codes "A,B" ∷ codes "CDS" ∷ []))
    × (find_step loaded_steps (codes "the Client subscribes to resources 'A,B' for 'CDS'") ≡ none)
unfolding find_step match_pattern match_rest group up_to_quote strip
loading-runs = (refl, refl)

abbrev not_received : Pattern
not_received = record {
  first = codes "the client does not receive resource ";
  rest = codes " of service " ∷ codes " at version " ∷ codes "" ∷ [];
}

find_step-render_example :
    find_step loaded_steps (render not_received (codes "A" ∷ codes "LDS" ∷ codes "1" ∷ []))
    ≡ some (
      client_does_not_receive_resource_of_service_at_version,
      codes "A" ∷ codes "LDS" ∷ codes "1" ∷ [],
    )
find_step-render_example =
    find_step-render client_does_not_receive_resource_of_service_at_version not_received
      (codes "A" ∷ codes "LDS" ∷ codes "1" ∷ [])
      (inr (inr (inr (inr (inr (inr (inr (inr (inr (inr (inr (inl refl))))))))))))
      ((refl, tt), ((refl, (refl, (refl, tt))), ((refl, tt), tt)))
