-- ===== src/Runner/Laws.antt =====
-- A fresh runner keeps the configuration and nothing of a scenario; connecting sets one client.
use xds_test_harness.Base.{true, Option, none, some, [], ◌∷◌, ◌≡◌, refl, arith}
use xds_test_harness.Text.{Text, codes, has_prefix}
use xds_test_harness.Errors.{cannot_connect}
use xds_test_harness.Runner.{Runner, ClientConfig, fresh_runner, address_port, connect}

module _ {Any Conn : Type 0} where
  -- The configuration of a runner.
  abbrev pub SameConfig : Runner Any Conn → Runner Any Conn → Type 0
  SameConfig r s =
      (r.adapter ≡ s.adapter)
      × (r.target ≡ s.target)
      × (r.node_id ≡ s.node_id)
      × (r.aggregated ≡ s.aggregated)
      × (r.incremental ≡ s.incremental)

  -- A fresh runner has the configuration of the one that it is made from; two runners that agree on
  -- their configuration give the same fresh runner, whatever else they hold.
  fresh_runner-isolates :
      (r s : Runner Any Conn)
      → SameConfig r s
      → SameConfig (fresh_runner (some r)) r × (fresh_runner (some r) ≡ fresh_runner (some s))
  unfolding fresh_runner
  fresh_runner-isolates r s h = ((refl, refl, refl, refl, refl), ground arith)

-- A port has the colon in front, whatever the address.
address_port-has_prefix : (address : Text) → has_prefix (address_port address) (codes ":") ≡ true
unfolding has_prefix
address_port-has_prefix [] = refl
address_port-has_prefix (c ∷ s) = ground arith

module _ {Conn : Type 0} (dial : Text → Option Conn) (address : Text)
    (client : ClientConfig Conn) where
  pub connect-some :
      {conn : Conn}
      → dial (address_port address) ≡ some conn
      → connect dial address client
        ≡ (record { port = address_port address; conn = some conn }, none)
  unfolding connect
  connect-some h = ground arith

  -- A dial that fails has set the port all the same.
  connect-none :
      dial (address_port address) ≡ none
      → connect dial address client ≡ (
        record client { port = address_port address },
        some (cannot_connect (address_port address)),
      )
  unfolding connect
  connect-none h = ground arith
