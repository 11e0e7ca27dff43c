-- ===== src/Main/Settings.antt =====
-- What the tests run with: the flags of main.go, or the config file (internal/parser/parser.go,
-- ValuesFromConfig), and main as a whole.
pub mod Config
use xds_test_harness.Base.{Bool, Option, none, some, List, [], ◌∷◌, ◌++◌, if◌then◌else◌}
use xds_test_harness.Text.{Text, codes, text_eq}
use xds_test_harness.Errors.{
  Error, Result, config_unreadable, no_node_id, no_target_address, no_variants,
}
use xds_test_harness.Types.{Variant, VariantResults, Results}
use xds_test_harness.Parser.{parse_supported_variants}
use xds_test_harness.Suite.{Suite}
use xds_test_harness.Main.{Outcome, finished, fatal, panicked, zero_results, run_variants}
use xds_test_harness.Main.Printing.{print_results}

-- A node of a YAML file, as far as it is looked at.
pub data Item : Type 0 where
  scalar : Text → Item
  composite : Item

pub data Node : Type 0 where
  list : List Item → Node
  not_a_list : Node

-- A YAML file that was read: Get of a scalar below its root, and Child of its root.
pub record File : Type 0 where
  pub get : Text → Option Text
  pub child : Text → Option Node

-- What the tests run with.
pub record Settings : Type 0 where
  pub target_address : Text
  pub adapter_address : Text
  pub node_id : Text
  pub supported_variants : List Variant

-- The loop over the items; an item that is no scalar panics.
unfoldable pub scalars : List Item → List Text → Option (List Text)
scalars [] variants = some variants
scalars (scalar variant ∷ items) variants = scalars items (variants ++ variant ∷ [])
scalars (composite ∷ items) variants = none

-- A node that is not a list has no variants.
unfoldable pub variants_of : Node → Option (List Text)
unfolding scalars
variants_of (list items) = scalars items []
variants_of not_a_list = some []

-- The address of the adapter that c.Get returns: on an error it is empty, and the error is logged.
abbrev pub or_empty : Option Text → Text
or_empty none = []
or_empty (some t) = t

-- ValuesFromConfig, with the read of the file.
unfoldable pub values_from_config : (Text → Option File) → Text → Outcome Settings
unfolding variants_of
values_from_config read_file config = elim (read_file config) [
  | none ↦ fatal config_unreadable
  | some c ↦ elim (c.get (codes "nodeID")) [
    | none ↦ fatal no_node_id
    | some node_id ↦ elim (c.get (codes "targetAddress")) [
      | none ↦ fatal no_target_address
      | some target ↦ elim (c.child (codes "variants")) [
        | none ↦ fatal no_variants
        | some v ↦ elim (variants_of v) [
          | none ↦ panicked
          | some variants ↦
              let (supported, e) = parse_supported_variants variants in
              elim e [
                | some e' ↦ fatal e'
                | none ↦ finished (record {
                  target_address = target;
                  adapter_address = or_empty (c.get (codes "adapterAddress"));
                  node_id = node_id;
                  supported_variants = supported;
                })
              ]
        ]
      ]
    ]
  ]
]

-- The flags of main.go; `tags` is the flag of godog.
pub record Flags : Type 0 where
  pub test_writing : Bool
  pub config : Text
  pub adapter_address : Text
  pub target_address : Text
  pub node_id : Text
  pub variant : List Text
  pub tags : Text

-- The start of main: the flags, and the config file over them if there is one.
unfoldable pub settings : (Text → Option File) → Flags → Outcome Settings
unfolding values_from_config
settings read_file flags =
    let (supported, e) = parse_supported_variants flags.variant in
    elim e [
      | some e' ↦ fatal e'
      | none ↦
          if text_eq flags.config []
          then finished (record {
            target_address = flags.target_address;
            adapter_address = flags.adapter_address;
            node_id = flags.node_id;
            supported_variants = supported;
          })
          else values_from_config read_file flags.config
    ]

module _ {Any Conn : Type 0} (read_file : Text → Option File) (dial : Text → Option Conn)
    (reported : Suite Any Conn → Result VariantResults) (flags : Flags) where
  -- The end of main: the results are printed, and written to results.json.
  unfoldable pub report : Outcome Results → Outcome (Option (Text × Results))
  report (finished results) =
      finished (if flags.test_writing then none else some (print_results results, results))
  report (fatal e) = fatal e
  report panicked = panicked

  unfoldable pub run_with : Outcome Settings → Outcome (Option (Text × Results))
  unfolding report
  run_with (finished s) = report (
      run_variants dial reported s.node_id s.adapter_address s.target_address flags.tags
        flags.test_writing s.supported_variants zero_results)
  run_with (fatal e) = fatal e
  run_with panicked = panicked

  -- main
  unfoldable pub main : Outcome (Option (Text × Results))
  unfolding settings run_with
  main = run_with (settings read_file flags)
