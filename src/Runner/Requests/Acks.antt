-- ===== src/Runner/Requests/Acks.antt =====
-- What an ACK says of the response and of the subscription.
use xds_test_harness.Base.{
  ◌≡◌, arith, Bool, true, false, Option, none, some, [], Option-cases, inl, inr,
}
use xds_test_harness.Errors.{unmarshal_failed}
use xds_test_harness.Proto.{
  Codec, Anypb, DiscoveryRequest, DiscoveryResponse, DeltaDiscoveryResponse, unmarshal_to,
}
use xds_test_harness.Runner.Requests.{pack, new_ack}

module _ {Any : Type 0} where
  pack-unmarshal :
      {M : Type 0} (c : Codec Any M) (m : M) {a : Any}
      → (pack c m).0 ≡ some a
      → c.unmarshal a ≡ some m
  pack-unmarshal c m {a} h = elim (Option-cases (c.marshal m)) [
    | inl e ↦ ground arith
    | inr (b, e) ↦ c.unmarshal-marshal m a (ground arith)
  ]

module _ {Any : Type 0} (pb : Anypb Any) where
  -- When the subscribing request and a state-of-the-world response can be read and an ACK is made, it
  -- reads back as the request with the version and the nonce of the response, the resource names
  -- and the type URL of the subscribing request, and no node.
  pub new_ack-sotw :
      (subscribe_request res : Option Any) (sub : DiscoveryRequest)
      (response : DiscoveryResponse Any) (ack : Any)
      → unmarshal_to pb.request subscribe_request ≡ some sub
      → unmarshal_to pb.response res ≡ some response
      → (new_ack pb false subscribe_request res).0 ≡ some ack
      → pb.request.unmarshal ack
        ≡ some (record {
          version_info = response.version_info;
          node = none;
          resource_names = sub.resource_names;
          type_url = sub.type_url;
          response_nonce = response.nonce;
        })
  unfolding new_ack
  new_ack-sotw subscribe_request res sub response ack hs hr h =
      pack-unmarshal pb.request _ (rw (hs, hr, new_ack) at h)

  -- When an incremental response can be read and an ACK is made, it reads back as the request with
  -- the type URL and the nonce of the response, which subscribes to nothing and has no node.
  new_ack-delta :
      (subscribe_request res : Option Any) (response : DeltaDiscoveryResponse) (ack : Any)
      → unmarshal_to pb.delta_response res ≡ some response
      → (new_ack pb true subscribe_request res).0 ≡ some ack
      → pb.delta_request.unmarshal ack
        ≡ some (record {
          node = none;
          type_url = response.type_url;
          resource_names_subscribe = [];
          resource_names_unsubscribe = [];
          response_nonce = response.nonce;
        })
  unfolding new_ack
  new_ack-delta subscribe_request res response ack hr h =
      pack-unmarshal pb.delta_request _ (rw hr at h)

  -- A nil response, as a closed channel gives, has a nil ACK.
  new_ack-nil :
      (incremental : Bool) (subscribe_request : Option Any)
      → new_ack pb incremental subscribe_request none ≡ (none, some unmarshal_failed)
  unfolding new_ack
  new_ack-nil incremental subscribe_request = ground arith
