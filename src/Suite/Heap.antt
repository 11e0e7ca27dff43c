-- ===== src/Suite/Heap.antt =====
-- The objects behind the pointers of a Runner (internal/runner/runner.go), and FreshRunner and what the
-- steps of a scenario do to them. A pointer is a number; who has the same one sees the same object.
use xds_test_harness.Base.{ℕ, ◌+◌, Bool, Option, none, some, if◌then◌else◌, ◌==◌}
use xds_test_harness.Text.{Text}
use xds_test_harness.Service.{XdsService, zero_service}
use xds_test_harness.Validate.{Validate, new_validate}
use xds_test_harness.Runner.{Runner, ClientConfig}

-- A Runner as it lies in memory: its clients, its service and what it validates are pointers.
pub record Object (Any : Type 0) : Type 0 where
  pub adapter : ℕ
  pub target : ℕ
  pub node_id : Text
  pub aggregated : Bool
  pub incremental : Bool
  pub service : ℕ
  pub subscribe_request : Option Any
  pub validate : ℕ

-- The objects of each type; none has been made at `next` or behind it.
pub record Heap (Any Conn : Type 0) : Type 0 where
  pub runners : ℕ → Option (Object Any)
  pub clients : ℕ → Option (ClientConfig Conn)
  pub services : ℕ → Option (XdsService Any Conn)
  pub validates : ℕ → Option Validate
  pub next : ℕ

abbrev pub update : {A : Type 0} → ℕ → A → (ℕ → Option A) → ℕ → Option A
update i a f j = if i == j then some a else f j

module _ {Any Conn : Type 0} where
  -- FreshRunner(current): a new object that has the clients, the node and the mode of the current one,
  -- and a service and a Validate of its own. It panics at a nil runner.
  unfoldable pub fresh_at : ℕ → Heap Any Conn → Option (ℕ × Heap Any Conn)
  unfolding new_validate
  fresh_at current h = elim (h.runners current) [
    | none ↦ none
    | some o ↦ some (
      h.next,
      record h {
        runners =
            update h.next
              (record {
                adapter = o.adapter;
                target = o.target;
                node_id = o.node_id;
                aggregated = o.aggregated;
                incremental = o.incremental;
                service = h.next;
                subscribe_request = none;
                validate = h.next;
              })
              h.runners;
        services = update h.next zero_service h.services;
        validates = update h.next new_validate h.validates;
        next = h.next + 1;
      },
    )
  ]

  -- The runner that an object shows.
  unfoldable pub view : Object Any → Heap Any Conn → Option (Runner Any Conn)
  view o h = elim (h.clients o.adapter) [
    | none ↦ none
    | some adapter ↦ elim (h.clients o.target) [
      | none ↦ none
      | some target ↦ elim (h.services o.service) [
        | none ↦ none
        | some service ↦ elim (h.validates o.validate) [
          | none ↦ none
          | some validate ↦ some (record {
            adapter = adapter;
            target = target;
            node_id = o.node_id;
            aggregated = o.aggregated;
            incremental = o.incremental;
            service = service;
            subscribe_request = o.subscribe_request;
            validate = validate;
          })
        ]
      ]
    ]
  ]

  unfoldable pub load : ℕ → Heap Any Conn → Option (Runner Any Conn)
  unfolding view
  load p h = elim (h.runners p) [ none ↦ none | some o ↦ view o h ]

  -- What the steps write: the subscribing request, and the service and the Validate, through their
  -- pointers. No step writes to the other fields.
  unfoldable pub write : ℕ → Runner Any Conn → Heap Any Conn → Heap Any Conn
  write p r h = elim (h.runners p) [
    | none ↦ h
    | some o ↦ record h {
      runners = update p (record o { subscribe_request = r.subscribe_request }) h.runners;
      services = update o.service r.service h.services;
      validates = update o.validate r.validate h.validates;
    }
  ]

  -- The only runner, with its own objects, as StartRunner leaves it.
  abbrev pub placed : Runner Any Conn → Heap Any Conn
  placed r = record {
    runners =
        update 0
          (record {
            adapter = 0;
            target = 1;
            node_id = r.node_id;
            aggregated = r.aggregated;
            incremental = r.incremental;
            service = 0;
            subscribe_request = r.subscribe_request;
            validate = 0;
          })
          (λ p. none);
    clients = update 0 r.adapter (update 1 r.target (λ p. none));
    services = update 0 r.service (λ p. none);
    validates = update 0 r.validate (λ p. none);
    next = 1;
  }
