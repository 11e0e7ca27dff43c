-- ===== src/Suite/Scenarios.antt =====
-- internal/runner/suite.go, ConfigureSuite: the options of godog, and the hooks around a scenario.
-- LoadSteps binds the methods of the runner that the suite has when a scenario is set up; the hook
-- before the scenario then gives the suite another one, so the steps of a scenario run on the runner
-- that was made before the last one. The suite's runner is a pointer into a heap.
use xds_test_harness.Base.{
  ℕ, ◌+◌, ◌<◌, Bool, true, false, ◌≡◌, refl, sym, ◌∙◌, ap, subst, arith, Option, none, some, some→≡,
  some-of-none, List, [], ◌∷◌, ◌++◌, map, if◌then◌else◌, Option-cases, inl, inr,
}
use xds_test_harness.Text.{Text, codes}
use xds_test_harness.Errors.{Error}
use xds_test_harness.Service.{zero_service}
use xds_test_harness.Validate.{new_validate}
use xds_test_harness.Runner.{Runner, fresh_runner, connect_client}
use xds_test_harness.Suite.Heap.{Heap, fresh_at, view, load, write, update, placed}
use xds_test_harness.Suite.{Suite, variant_to_output_file, start_adapter, start_runner}

-- godog.Options
pub record Options : Type 0 where
  pub show_step_definitions : Bool
  pub randomize : ℕ
  pub stop_on_failure : Bool
  pub strict : Bool
  pub no_colors : Bool
  pub tags : Text
  pub format : Text
  pub concurrency : ℕ
  pub to_buffer : Bool  -- whether the output is the buffer of the suite

-- godog.TestSuite
pub record TestSuite : Type 0 where
  pub name : Text
  pub options : Options

module _ {Any Conn : Type 0} where
  -- What ConfigureSuite hands to godog, beside the initializer of scenarios.
  unfoldable pub configure_suite : Suite Any Conn → TestSuite
  unfolding variant_to_output_file
  configure_suite s = record {
    name = codes "xds Test Suite [" ++ s.variant ++ codes "]";
    options = record {
      show_step_definitions = false;
      randomize = 0;
      stop_on_failure = false;
      strict = false;
      no_colors = false;
      tags = s.tags;
      format =
          if s.test_writing
          then codes "pretty"
          else codes "xds,cucumber:" ++ variant_to_output_file s.variant;
      concurrency = 0;
      to_buffer = if s.test_writing then false else true;
    };
  }

  -- The hook before a scenario, s.Runner = FreshRunner(s.Runner), at the pointer that the suite has.
  unfoldable pub before_scenario : ℕ → Heap Any Conn → Option (ℕ × Heap Any Conn)
  unfolding fresh_at
  before_scenario s_runner h = fresh_at s_runner h

  -- The steps run on the runner whose methods LoadSteps has bound.
  unfoldable pub run_steps : (Runner Any Conn → Runner Any Conn) → ℕ → Heap Any Conn → Heap Any Conn
  unfolding load write
  run_steps steps bound h = elim (load bound h) [ none ↦ h | some r ↦ write bound (steps r) h ]

  -- A scenario. LoadSteps binds the runner that the suite has, before the hook gives it another.
  unfoldable pub run_scenario :
      (Runner Any Conn → Runner Any Conn) → ℕ → Heap Any Conn → Option (ℕ × Heap Any Conn)
  unfolding before_scenario run_steps
  run_scenario steps bound h = elim (before_scenario bound h) [
    | none ↦ none
    | some (s_runner, h') ↦ some (s_runner, run_steps steps bound h')
  ]

  -- What the runner is that the steps of each scenario start with.
  unfoldable pub starts :
      List (Runner Any Conn → Runner Any Conn) → ℕ → Heap Any Conn → List (Runner Any Conn)
  unfolding run_scenario
  starts [] s_runner h = []
  starts (steps ∷ scenarios) s_runner h = elim (before_scenario s_runner h) [
    | none ↦ []
    | some (_, begun) ↦ elim (load s_runner begun) [
      | none ↦ []
      | some r ↦ r ∷ (elim (run_scenario steps s_runner h) [
        | none ↦ []
        | some (s_runner', h') ↦ starts scenarios s_runner' h'
      ])
    ]
  ]

  -- The pointer leads to this runner, by objects that have been made.
  record Holds (p a t s v : ℕ) (r : Runner Any Conn) (h : Heap Any Conn) : Type 0 where
    at :
        h.runners p
        ≡ some (record {
          adapter = a;
          target = t;
          node_id = r.node_id;
          aggregated = r.aggregated;
          incremental = r.incremental;
          service = s;
          subscribe_request = r.subscribe_request;
          validate = v;
        })
    adapter : h.clients a ≡ some r.adapter
    target : h.clients t ≡ some r.target
    service : h.services s ≡ some r.service
    validate : h.validates v ≡ some r.validate
    made : (p < h.next) × (s < h.next) × (v < h.next)

  Holds-load :
      (p a t s v : ℕ) (r : Runner Any Conn) (h : Heap Any Conn)
      → Holds p a t s v r h
      → load p h ≡ some r
  unfolding load view
  Holds-load p a t s v r h x =
      rw (load, x.at, view, x.adapter, x.target, x.service, x.validate) refl

  -- A fresh runner leaves the one that it is made of as it was, shares its clients alone, and is
  -- the runner that FreshRunner makes of its fields.
  fresh_at-Holds :
      (p a t s v : ℕ) (r : Runner Any Conn) (h : Heap Any Conn)
      → Holds p a t s v r h
      → (h' : Heap Any Conn) × (fresh_at p h ≡ some (h.next, h'))
        × Holds p a t s v r h'
        × Holds h.next a t h.next h.next (fresh_runner (some r)) h'
  unfolding fresh_at fresh_runner
  fresh_at-Holds p a t s v r h x = (
    record h {
      runners =
          update h.next
            (record {
              adapter = a;
              target = t;
              node_id = r.node_id;
              aggregated = r.aggregated;
              incremental = r.incremental;
              service = h.next;
              subscribe_request = none;
              validate = h.next;
            })
            h.runners;
      services = update h.next zero_service h.services;
      validates = update h.next new_validate h.validates;
      next = h.next + 1;
    },
    rw (fresh_at, x.at) refl,
    record {
      at = ground (arith, x.at, x.made.0);
      adapter = x.adapter;
      target = x.target;
      service = ground (arith, x.service, x.made.1);
      validate = ground (arith, x.validate, x.made.2);
      made = (omega (arith, x.made.0), omega (arith, x.made.1), omega (arith, x.made.2));
    },
    record {
      at = ground arith;
      adapter = x.adapter;
      target = x.target;
      service = ground arith;
      validate = ground arith;
      made = (omega arith, omega arith, omega arith);
    },
  )

  -- A write through one pointer does not reach a runner that shares the clients alone.
  write-Holds :
      (p p' a t s s' v v' : ℕ) (r r' q : Runner Any Conn) (h : Heap Any Conn)
      → Holds p a t s v r h
      → Holds p' a t s' v' r' h
      → p < p'
      → s < s'
      → v < v'
      → Holds p' a t s' v' r' (write p q h)
  unfolding write
  write-Holds p p' a t s s' v v' r r' q h x y hp hs hv =
      rw (write, x.at)
        (record {
          at = ground (arith, y.at, hp);
          adapter = y.adapter;
          target = y.target;
          service = ground (arith, y.service, hs);
          validate = ground (arith, y.validate, hv);
          made = y.made;
        })

  run_scenario-eq :
      (steps : Runner Any Conn → Runner Any Conn) (p q : ℕ) (r : Runner Any Conn)
      (h h' : Heap Any Conn)
      → before_scenario p h ≡ some (q, h')
      → load p h' ≡ some r
      → run_scenario steps p h ≡ some (q, write p (steps r) h')
  unfolding run_scenario run_steps
  run_scenario-eq steps p q r h h' made shown = rw (run_scenario, made, run_steps, shown) refl

  starts-cons :
      (steps : Runner Any Conn → Runner Any Conn)
      (scenarios : List (Runner Any Conn → Runner Any Conn)) (p q : ℕ) (r : Runner Any Conn)
      (h h' : Heap Any Conn)
      → before_scenario p h ≡ some (q, h')
      → load p h' ≡ some r
      → starts (steps ∷ scenarios) p h ≡ r ∷ starts scenarios q (write p (steps r) h')
  unfolding starts
  starts-cons steps scenarios p q r h h' made shown =
      rw (starts, made, shown, run_scenario-eq steps p q r h h' made shown) refl

  starts-fresh :
      (scenarios : List (Runner Any Conn → Runner Any Conn)) (p a t s v : ℕ) (r : Runner Any Conn)
      (h : Heap Any Conn)
      → Holds p a t s v r h
      → fresh_runner (some r) ≡ r
      → starts scenarios p h ≡ map (λ _. r) scenarios
  unfolding starts before_scenario
  starts-fresh [] p a t s v r h x fresh = refl
  starts-fresh (steps ∷ scenarios) p a t s v r h x fresh =
      let (h', made, old, copy) = fresh_at-Holds p a t s v r h x in
      let new = subst (λ q. Holds h.next a t h.next h.next q h') fresh copy in
      let shown = Holds-load p a t s v r h' old in
      let kept =
        write-Holds p h.next a t s h.next v h.next r r (steps r) h' old new x.made.0 x.made.1
          x.made.2 in
      starts-cons steps scenarios p h.next r h h' made shown
      ∙ ap (λ rs. r ∷ rs)
          (starts-fresh scenarios h.next a t h.next h.next r (write p (steps r) h') kept fresh)

  placed-Holds : (r : Runner Any Conn) → Holds 0 0 1 0 0 r (placed r)
  placed-Holds r = record {
    at = refl;
    adapter = refl;
    target = refl;
    service = refl;
    validate = refl;
    made = (omega arith, omega arith, omega arith);
  }

module _ {Any Conn : Type 0} (dial : Text → Option Conn) where
  connect_client-fresh :
      (server address : Text) (r r' : Runner Any Conn) (e : Option Error)
      → connect_client dial server address r ≡ some (r', e)
      → fresh_runner (some r) ≡ r
      → fresh_runner (some r') ≡ r'
  unfolding connect_client fresh_runner
  connect_client-fresh server address r r' e h fresh = ground arith

  start_adapter-fresh :
      (adapter : Text) (s s' : Suite Any Conn) (r r' : Runner Any Conn) (e : Option Error)
      → start_adapter dial adapter s (r, e) ≡ some (s', none)
      → s'.runner ≡ some r'
      → fresh_runner (some r) ≡ r
      → fresh_runner (some r') ≡ r'
  unfolding start_adapter
  start_adapter-fresh adapter s s' r r' (some e) h made fresh = ground arith
  start_adapter-fresh adapter s s' r r' none h made fresh =
      elim (Option-cases (connect_client dial (codes "adapter") adapter r)) [
        | inl bad ↦ some-of-none (rw (bad, start_adapter) at h)
        | inr ((c, none), good) ↦
            let same : c ≡ r' = some→≡ (
              ap (λ (x : Suite Any Conn × Option Error). x.0.runner)
                (some→≡ (rw (good, start_adapter) at h))
              ∙ made) in
            subst (λ x. fresh_runner (some x) ≡ x) same
              (connect_client-fresh (codes "adapter") adapter r c none good fresh)
        | inr ((c, some e), good) ↦ some-of-none (
            sym (
              ap (λ (x : Suite Any Conn × Option Error). x.1)
                (some→≡ (rw (good, start_adapter) at h))))
      ]

module _ {Any Conn : Type 0} (dial : Text → Option Conn) (node adapter target : Text)
    (s : Suite Any Conn) where
  -- The runner before it is connected.
  abbrev unconnected : Runner Any Conn
  unconnected = record (fresh_runner none) {
    node_id = node;
    aggregated = s.aggregated;
    incremental = s.incremental;
  }

  -- When StartRunner has made a runner and returned no error, the steps of every scenario start with a
  -- runner like that one, whatever the steps of the scenarios before it have written to their runner's
  -- subscribing request and, through its pointers, to its service and what it validates.
  pub start_runner-starts :
      (s' : Suite Any Conn) (r : Runner Any Conn)
      → start_runner dial node adapter target s ≡ some (s', none)
      → s'.runner ≡ some r
      → (scenarios : List (Runner Any Conn → Runner Any Conn))
      → starts scenarios 0 (placed r) ≡ map (λ _. r) scenarios
  unfolding start_runner fresh_runner
  start_runner-starts s' r h made scenarios =
      starts-fresh scenarios 0 0 1 0 0 r (placed r) (placed-Holds r) (fresh s' r h made)
    where
      fresh :
          (s' : Suite Any Conn) (r : Runner Any Conn)
          → start_runner dial node adapter target s ≡ some (s', none)
          → s'.runner ≡ some r
          → fresh_runner (some r) ≡ r
      fresh s' r h made =
          elim (Option-cases (connect_client dial (codes "target") target unconnected)) [
            | inl bad ↦ some-of-none (rw (bad, start_runner) at h)
            | inr ((c, e), good) ↦
                start_adapter-fresh dial adapter s s' c r e (rw (good, start_runner) at h) made
                  (connect_client-fresh dial (codes "target") target unconnected c e good refl)
          ]
