-- ===== src/Validate.antt =====
-- internal/runner/runner.go, the type Validate: what the runner saw of each resource, and counts.
pub mod Laws
use xds_test_harness.Base.{ℕ, Option, none, some, [], Bool}
use xds_test_harness.Text.{Text}
use xds_test_harness.Dict.{Dict, lookup, insert, delete}

pub record ValidateResource : Type 0 where
  pub version : Text
  pub nonce : Text

-- What was seen of each resource, by type URL and name.
abbrev pub Seen : Type 0
Seen = Dict (Dict ValidateResource)

-- The counts are `int`.
pub record Validate : Type 0 where
  pub request_count : ℕ
  pub response_count : ℕ
  pub resources : Seen
  pub removed_resources : Seen

abbrev pub zero_resource : ValidateResource
zero_resource = record { version = []; nonce = [] }

-- NewValidate
unfoldable pub new_validate : Validate
new_validate = record {
  request_count = 0;
  response_count = 0;
  resources = [];
  removed_resources = [];
}

-- A read `m[t]` of a map of maps: a missing key gives the nil map, which reads as empty.
abbrev pub at_type : {V : Type 0} → Text → Dict (Dict V) → Dict V
at_type t m = elim (lookup t m) [ none ↦ [] | some inner ↦ inner ]

-- m[t][k] of a map of maps of resources; a missing key gives the zero value.
abbrev pub info_at : Text → Text → Seen → ValidateResource
info_at t k m = elim (lookup k (at_type t m)) [ none ↦ zero_resource | some info ↦ info ]

-- m[t][k] = v. On a missing key `t` it assigns to a nil map, which panics: `none`.
unfoldable pub assign : Text → Text → ValidateResource → Seen → Option Seen
assign t k v m = elim (lookup t m) [
  | none ↦ none
  | some inner ↦ some (insert t (insert k v inner) m)
]

-- delete(m[t], k), which does nothing on a nil map.
unfoldable pub delete_at : Text → Text → Seen → Seen
delete_at t k m = elim (lookup t m) [ none ↦ m | some inner ↦ insert t (delete k inner) m ]
