-- ===== src/Pgv.antt =====
-- The graph validator, tools/pgv/*.go: the types of ir.go, delta.go and validator.go.
pub mod Search
pub mod Validator
pub mod Diff
pub mod Build
pub mod Extract
use nexus_go_ccnf_ref.Base.{ℕ, Text, codes, List, Bool}
use nexus_go_ccnf_ref.Base.Map.{Map}

abbrev pub ir_schema_version : Text
ir_schema_version = codes "v1.0.0"

pub record Node : Type 0 where
  pub import_path : Text
  pub name : Text
  pub direct_deps : List Text

pub record Edge : Type 0 where
  pub source : Text
  pub target : Text

pub record IrMetadata : Type 0 where
  pub schema_version : Text
  pub hash : Text

pub record Graph : Type 0 where
  pub nodes : List Node
  pub edges : List Edge
  pub metadata : IrMetadata
  pub extractor_versions : Map Text
