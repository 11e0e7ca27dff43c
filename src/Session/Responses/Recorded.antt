-- ===== src/Session/Responses/Recorded.antt =====
-- What the runner has seen after a response, and the responses that make it panic.
use xds_test_harness.Base.{
  ◌≡◌, refl, arith, true, ◌&&◌, none, some, List, [], ◌∷◌, if◌then◌else◌, is_some, Option-cases,
  some-of-none, inl, inr,
}
use xds_test_harness.Words.{inc64}
use xds_test_harness.Text.{Text, contains, text_eq}
use xds_test_harness.Dict.{lookup, insert, delete, lookup-insert}
use xds_test_harness.Errors.{ok}
use xds_test_harness.Proto.{Anypb, DiscoveryResponse, DeltaDiscoveryResponse}
use xds_test_harness.Parser.{resource_names}
use xds_test_harness.Validate.{ValidateResource, Seen, at_type, assign, delete_at}
use xds_test_harness.Validate.Laws.{lookup-assign, lookup-delete_at}
use xds_test_harness.Session.{Session}
use xds_test_harness.Session.Responses.{
  record_all, unremove_all, on_sotw_response, on_delta_response,
}

-- The type is tracked: its map is not nil.
abbrev pub Tracked : Text → Seen → Type 0
Tracked t m = is_some (lookup t m) ≡ true

assign-Tracked :
    (t k s : Text) (info : ValidateResource) (m : Seen) {m' : Seen}
    → assign t k info m ≡ some m'
    → Tracked s m
    → Tracked s m'
unfolding assign
assign-Tracked t k s info m {m'} h tracked = elim (Option-cases (lookup t m)) [
  | inl e ↦ ground arith
  | inr (d, e) ↦ ground (arith, lookup-insert t s (insert k info d) m)
]

assign-total :
    (t k : Text) (info : ValidateResource) (m : Seen)
    → Tracked t m
    → (m' : Seen) × (assign t k info m ≡ some m')
unfolding assign
assign-total t k info m tracked = elim (Option-cases (lookup t m)) [
  | inl e ↦ absurd (ground arith)
  | inr (d, e) ↦ (insert t (insert k info d) m, ground arith)
]

-- What was seen after a response: the names in it have its entry, and the rest is as it was.
abbrev pub Enters : Text → ValidateResource → List Text → Seen → Seen → Type 0
Enters t info names before after =
    (s j : Text)
    → lookup j (at_type s after)
      ≡ (if text_eq t s && contains j names then some info else lookup j (at_type s before))

-- Where the loop goes through, each name has the new entry.
pub record_all-Enters :
    (t : Text) (info : ValidateResource) (names : List Text) (m m' : Seen)
    → record_all t info names m ≡ some m'
    → Enters t info names m m'
unfolding record_all
record_all-Enters t info [] m m' h s j = ground arith
record_all-Enters t info (n ∷ names) m m' h s j = elim (Option-cases (assign t n info m)) [
  | inl e ↦ some-of-none (rw (e, record_all) at h)
  | inr (m₁, wrote) ↦ ground (
    arith,
    record_all-Enters t info names m₁ m' (rw (wrote, record_all) at h) s j,
    lookup-assign t n s j info m {m' = m₁} wrote,
  )
]

-- On a tracked type the loop goes through.
record_all-total :
    (t : Text) (info : ValidateResource) (names : List Text) (m : Seen)
    → Tracked t m
    → (m' : Seen) × (record_all t info names m ≡ some m')
unfolding record_all
record_all-total t info [] m tracked = (m, refl)
record_all-total t info (n ∷ names) m tracked =
    let (m₁, wrote) = assign-total t n info m tracked in
    let (m', rest) =
      record_all-total t info names m₁ (assign-Tracked t n t info m {m' = m₁} wrote tracked) in
    (m', rw (wrote, record_all) rest)

-- On any other, a first name panics.
record_all-nil :
    (t : Text) (info : ValidateResource) (n : Text) (names : List Text) (m : Seen)
    → lookup t m ≡ none
    → record_all t info (n ∷ names) m ≡ none
unfolding record_all assign
record_all-nil t info n names m e = ground arith

delete_at-Tracked : (t k s : Text) (m : Seen) → Tracked s m → Tracked s (delete_at t k m)
unfolding delete_at
delete_at-Tracked t k s m tracked = elim (Option-cases (lookup t m)) [
  | inl e ↦ ground arith
  | inr (d, e) ↦ ground (arith, lookup-insert t s (delete k d) m)
]

unremove_all-Tracked :
    (t s : Text) (names : List Text) (m : Seen) → Tracked s m → Tracked s (unremove_all t names m)
unfolding unremove_all
unremove_all-Tracked t s [] m tracked = tracked
unremove_all-Tracked t s (n ∷ names) m tracked =
    unremove_all-Tracked t s names (delete_at t n m) (delete_at-Tracked t n s m tracked)

pub lookup-unremove_all :
    (t s j : Text) (names : List Text) (m : Seen)
    → lookup j (at_type s (unremove_all t names m))
      ≡ (if text_eq t s && contains j names then none else lookup j (at_type s m))
unfolding unremove_all
lookup-unremove_all t s j [] m = ground arith
lookup-unremove_all t s j (n ∷ names) m =
    ground (arith, lookup-unremove_all t s j names (delete_at t n m), lookup-delete_at t n s j m)

module _ {Any : Type 0} (pb : Anypb Any) (s : Session Any) where
  -- A response of a tracked type whose names can be read is counted; each of its resources is then
  -- seen at its version and nonce, every other entry stays, and nothing panics.
  pub on_sotw_response-Enters :
      (response : DiscoveryResponse Any) (names : List Text)
      → resource_names pb response ≡ ok names
      → Tracked response.type_url s.validate.resources
      → Enters response.type_url
          (record { version = response.version_info; nonce = response.nonce })
          names
          s.validate.resources
          (on_sotw_response pb response s).validate.resources
        × ((on_sotw_response pb response s).validate.removed_resources
            ≡ s.validate.removed_resources)
        × ((on_sotw_response pb response s).validate.response_count
            ≡ inc64 s.validate.response_count)
        × ((on_sotw_response pb response s).panicked ≡ s.panicked)
  unfolding on_sotw_response
  on_sotw_response-Enters response names read tracked =
      let info : ValidateResource = record {
        version = response.version_info;
        nonce = response.nonce;
      } in
      let (m', wrote) =
        record_all-total response.type_url info names s.validate.resources tracked in
      rw (read, wrote, on_sotw_response)
        (
          record_all-Enters response.type_url info names s.validate.resources m' wrote,
          refl,
          refl,
          refl,
        )

  -- A state-of-the-world response that has resource names, of a type that has no map, panics.
  pub on_sotw_response-panics :
      (response : DiscoveryResponse Any) (n : Text) (names : List Text)
      → resource_names pb response ≡ ok (n ∷ names)
      → lookup response.type_url s.validate.resources ≡ none
      → (on_sotw_response pb response s).panicked ≡ true
  unfolding on_sotw_response
  on_sotw_response-panics response n names read missing = rw (
    read,
    record_all-nil response.type_url
        (record { version = response.version_info; nonce = response.nonce }) n names
        s.validate.resources missing,
    on_sotw_response,
  )

  -- An incremental response of a type that has both maps is counted. Its resources are seen at its version and
  -- nonce, and are no longer removed unless it removes them too; those that it removes are removed
  -- at its nonce, with no version; they stay among the resources seen. The rest is as it was.
  pub on_delta_response-Enters :
      (response : DeltaDiscoveryResponse)
      → Tracked response.type_url s.validate.resources
      → Tracked response.type_url s.validate.removed_resources
      → Enters response.type_url
          (record { version = response.system_version_info; nonce = response.nonce })
          response.resources
          s.validate.resources
          (on_delta_response pb response s).validate.resources
        × ((t j : Text)
            → lookup j (at_type t (on_delta_response pb response s).validate.removed_resources) ≡ (
                if text_eq response.type_url t && contains j response.removed_resources
                then some (record { version = []; nonce = response.nonce })
                else if text_eq response.type_url t && contains j response.resources
                then none
                else lookup j (at_type t s.validate.removed_resources)))
        × ((on_delta_response pb response s).validate.response_count
            ≡ inc64 s.validate.response_count)
        × ((on_delta_response pb response s).panicked ≡ s.panicked)
  unfolding on_delta_response
  on_delta_response-Enters response tracked tracked' =
      let info : ValidateResource = record {
        version = response.system_version_info;
        nonce = response.nonce;
      } in
      let gone : ValidateResource = record { version = []; nonce = response.nonce } in
      let (m', wrote) =
        record_all-total response.type_url info response.resources s.validate.resources tracked in
      let kept = unremove_all response.type_url response.resources s.validate.removed_resources in
      let (r', wrote') = record_all-total response.type_url gone response.removed_resources kept (
        unremove_all-Tracked response.type_url response.type_url response.resources
          s.validate.removed_resources tracked') in
      rw (wrote, wrote', on_delta_response)
        (
          record_all-Enters response.type_url info response.resources s.validate.resources m' wrote,
          λ t j. rw (
            record_all-Enters response.type_url gone response.removed_resources kept r' wrote' t j,
            lookup-unremove_all response.type_url t j response.resources
                s.validate.removed_resources,
          ),
          refl,
          refl,
        )
