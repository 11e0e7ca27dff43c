-- ===== src/Session/Step/History/Checks.antt =====
-- What a check of the received resources says of the history of the session.
use xds_test_harness.Base.{
  ◌≡◌, ◌↔◌, iff_trans, sym, ◌∙◌, ap, arith, false, Option, none, some, some→≡, some-of-none, List,
  [], ◌∷◌, All,
}
use xds_test_harness.Text.{Text}
use xds_test_harness.Text.Parts.{split}
use xds_test_harness.Dict.{lookup}
use xds_test_harness.Errors.{ok}
use xds_test_harness.Proto.{Anypb}
use xds_test_harness.Parser.{service_to_type_url}
use xds_test_harness.Service.{Channels}
use xds_test_harness.Validate.{ValidateResource, Seen, at_type}
use xds_test_harness.Runner.{Runner}
use xds_test_harness.Session.{Session, Event, start}
use xds_test_harness.Session.Step.{run}
use xds_test_harness.Session.Step.History.{
  Heard, last_seen, last_removed, or_before, history, is_reset, Follows,
}
use xds_test_harness.Session.Step.History.Kept.{run-Follows}
use xds_test_harness.Steps.{passed}
use xds_test_harness.Steps.Receiving.{receives, receives_removal, on_timer}
use xds_test_harness.Steps.Receiving.Laws.{SeenAt, receives_iff, receives_removal_iff}

-- The last response to list the resource among its own has it at the version, whether or not a later
-- one removes it.
abbrev pub LastAt : Text → List Heard → Text → Text → Type 0
LastAt u hs version name =
    (info : ValidateResource) × (last_seen u name hs ≡ some info) × (info.version ≡ version)

All-iff :
    {A : Type 0} (P Q : A → Type 0) → ((a : A) → P a ↔ Q a) → (xs : List A) → All P xs ↔ All Q xs
All-iff P Q f [] = (λ h. h, λ h. h)
All-iff P Q f (x ∷ xs) =
    let rest = All-iff P Q f xs in (λ h. ((f x).0 h.0, rest.0 h.1), λ h. ((f x).1 h.0, rest.1 h.1))

SeenAt-LastAt :
    (hs : List Heard) (m r m' r' : Seen) (u version name : Text)
    → Follows hs m r m' r'
    → lookup name (at_type u m) ≡ none
    → SeenAt (at_type u m') version name ↔ LastAt u hs version name
SeenAt-LastAt hs m r m' r' u version name f fresh =
    let same : lookup name (at_type u m') ≡ last_seen u name hs =
      ground (arith, f.shown u name, fresh) in
    (λ (info, e, v). (info, sym same ∙ e, v), λ (info, e, v). (info, same ∙ e, v))

module _ {Any Conn : Type 0} (pb : Anypb Any) (r : Runner Any Conn) (ch : Channels Any)
    (es : List (Event Any)) (t : Session Any) where
  -- A session is started on the channels of a runner that has seen nothing of a service's type, and
  -- run through any interleaving that does not panic and in which the test does not start to track
  -- anew. Then the check of the received resources passes at its timer exactly where, for each of the
  -- comma-separated resources, some response lists it among its own and the last to list it so has the
  -- version. That a later response removes the resource makes no difference.
  pub run-receives_iff :
      {u : Text} (resources version service : Text)
      → r.service.channels ≡ some ch
      → service_to_type_url service ≡ ok u
      → ((name : Text) → lookup name (at_type u r.validate.resources) ≡ none)
      → All (λ e. is_reset e ≡ false) es
      → run pb es (start r ch) ≡ some t
      → t.panicked ≡ false
      → (receives resources version service (record r { validate = t.validate }) on_timer ≡ passed)
        ↔ All (LastAt u (history pb es (start r ch)) version) (split resources b',')
  unfolding start
  run-receives_iff {u} resources version service hc hu fresh kept h fine =
      let names = split resources b',' in
      let follows = run-Follows pb es (start r ch) t kept h fine in
      let same =
        All-iff (SeenAt (at_type u t.validate.resources) version)
          (LastAt u (history pb es (start r ch)) version)
          (λ name.
            SeenAt-LastAt (history pb es (start r ch)) r.validate.resources
              r.validate.removed_resources t.validate.resources t.validate.removed_resources u
              version name follows (fresh name))
          names in
      iff_trans (receives_iff (record r { validate = t.validate }) resources version service hc hu)
        same

-- The last incremental response to mention the resource has removed it.
abbrev pub LastRemoved : Text → List Heard → Text → Type 0
LastRemoved u hs name = (info : ValidateResource) × (last_removed u name hs ≡ some (some info))

told-removed :
    {A : Type 0} (x : Option A) (said : Option (Option A))
    → x ≡ or_before said none
    → ((a : A) × (x ≡ some a)) ↔ ((a : A) × (said ≡ some (some a)))
told-removed x none h = (λ (a, e). some-of-none (sym h ∙ e), λ (a, e). some-of-none e)
told-removed x (some y) h = (λ (a, e). (a, ap some (sym h ∙ e)), λ (a, e). (a, h ∙ some→≡ e))

Gone-LastRemoved :
    (hs : List Heard) (m r m' r' : Seen) (u name : Text)
    → Follows hs m r m' r'
    → lookup name (at_type u r) ≡ none
    → ((info : ValidateResource) × (lookup name (at_type u r') ≡ some info)) ↔ LastRemoved u hs name
Gone-LastRemoved hs m r m' r' u name f fresh =
    told-removed (lookup name (at_type u r')) (last_removed u name hs)
      (f.gone u name ∙ ap (or_before (last_removed u name hs)) fresh)

module _ {Any Conn : Type 0} (pb : Anypb Any) (r : Runner Any Conn) (ch : Channels Any)
    (es : List (Event Any)) (t : Session Any) where
  -- A session is started on the channels of a runner that holds nothing of a service's type as
  -- removed, and run through any interleaving that does not panic and in which the test does not start
  -- to track anew. Then the check of the notice of removal passes at its timer exactly where the last
  -- incremental response to mention the resource has removed it.
  pub run-receives_removal_iff :
      {u : Text} (resource service : Text)
      → r.service.channels ≡ some ch
      → service_to_type_url service ≡ ok u
      → lookup resource (at_type u r.validate.removed_resources) ≡ none
      → All (λ e. is_reset e ≡ false) es
      → run pb es (start r ch) ≡ some t
      → t.panicked ≡ false
      → (receives_removal resource service (record r { validate = t.validate }) on_timer ≡ passed)
        ↔ LastRemoved u (history pb es (start r ch)) resource
  unfolding start
  run-receives_removal_iff {u} resource service hc hu fresh kept h fine =
      iff_trans (receives_removal_iff (record r { validate = t.validate }) resource service hc hu) (
        Gone-LastRemoved (history pb es (start r ch)) r.validate.resources
          r.validate.removed_resources t.validate.resources t.validate.removed_resources u resource
          (run-Follows pb es (start r ch) t kept h fine) fresh)
