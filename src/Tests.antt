-- ===== src/Tests.antt =====
-- Tests: the definitions run on concrete inputs, and each property applied to one. The package anypb
-- is instantiated by a data type with a constructor for each message.
pub mod Fixtures
pub mod Exchange
pub mod Responses
pub mod Steps
pub mod Target
pub mod Adapter
pub mod Setting
pub mod Sessions
pub mod Scenario
pub mod Loading
pub mod Program
pub mod Runner
pub mod Harness
use xds_test_harness.Base.{◌≡◌, refl, ap, subst, some→≡, Option, none, some, List, [], ◌∷◌}
use xds_test_harness.Text.{Text}
use xds_test_harness.Proto.{
  DiscoveryRequest, DeltaDiscoveryRequest, DiscoveryResponse, DeltaDiscoveryResponse, Codec, Anypb,
}

mutual
  -- A packed message.
  pub data Packed : Type 0 where
    packed_request : DiscoveryRequest → Packed
    packed_delta_request : DeltaDiscoveryRequest → Packed
    packed_response : Text → PackedList → Text → Text → Packed
    packed_delta_response : DeltaDiscoveryResponse → Packed
    packed_listener : Text → Packed
    packed_cluster : Text → Packed
    packed_endpoint : Text → Packed
    packed_route : Text → Packed

  pub data PackedList : Type 0 where
    packed_nil : PackedList
    packed_cons : Packed → PackedList → PackedList

abbrev pack_list : List Packed → PackedList
pack_list [] = packed_nil
pack_list (a ∷ rest) = packed_cons a (pack_list rest)

abbrev unpack_list : PackedList → List Packed
unpack_list packed_nil = []
unpack_list (packed_cons a rest) = a ∷ unpack_list rest

pub unpack_list-pack_list : (rest : List Packed) → unpack_list (pack_list rest) ≡ rest
unpack_list-pack_list [] = refl
unpack_list-pack_list (a ∷ rest) = ap (λ bs. a ∷ bs) (unpack_list-pack_list rest)

abbrev codec_of :
    {M : Type 0} (enc : M → Packed) (dec : Packed → Option M)
    → ((m : M) → dec (enc m) ≡ some m)
    → Codec Packed M
codec_of enc dec round = record {
  marshal = λ m. some (enc m);
  unmarshal = dec;
  unmarshal-marshal = λ m a h. subst (λ b. dec b ≡ some m) (some→≡ h) (round m);
}

abbrev read_request : Packed → Option DiscoveryRequest
read_request (packed_request m) = some m
read_request _ = none

abbrev read_delta_request : Packed → Option DeltaDiscoveryRequest
read_delta_request (packed_delta_request m) = some m
read_delta_request _ = none

abbrev pack_response : DiscoveryResponse Packed → Packed
pack_response m = packed_response m.version_info (pack_list m.resources) m.type_url m.nonce

abbrev read_response : Packed → Option (DiscoveryResponse Packed)
read_response (packed_response version_info resources type_url nonce) = some (record {
  version_info = version_info;
  resources = unpack_list resources;
  type_url = type_url;
  nonce = nonce;
})
read_response _ = none

pub read_response-pack_response :
    (m : DiscoveryResponse Packed) → read_response (pack_response m) ≡ some m
read_response-pack_response m =
    ap (λ resources. some (record m { resources = resources })) (unpack_list-pack_list m.resources)

abbrev read_delta_response : Packed → Option DeltaDiscoveryResponse
read_delta_response (packed_delta_response m) = some m
read_delta_response _ = none

abbrev read_listener : Packed → Option Text
read_listener (packed_listener name) = some name
read_listener _ = none

abbrev read_cluster : Packed → Option Text
read_cluster (packed_cluster name) = some name
read_cluster _ = none

abbrev read_endpoint : Packed → Option Text
read_endpoint (packed_endpoint name) = some name
read_endpoint _ = none

abbrev read_route : Packed → Option Text
read_route (packed_route name) = some name
read_route _ = none

abbrev pub pb : Anypb Packed
pb = record {
  request = codec_of packed_request read_request (λ m. refl);
  delta_request = codec_of packed_delta_request read_delta_request (λ m. refl);
  response = codec_of pack_response read_response read_response-pack_response;
  delta_response = codec_of packed_delta_response read_delta_response (λ m. refl);
  listener = codec_of packed_listener read_listener (λ m. refl);
  cluster = codec_of packed_cluster read_cluster (λ m. refl);
  endpoint = codec_of packed_endpoint read_endpoint (λ m. refl);
  route = codec_of packed_route read_route (λ m. refl);
}
