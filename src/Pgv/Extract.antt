-- ===== src/Pgv/Extract.antt =====
-- The extractors of tools/pgv (go_extractor.go, rust_extractor.go, comment_extractor.go) behind the
-- commands and the files that they read, and `extractGraph` and `runValidate` of main.go. What `go list` prints, the files of a walk in
-- its order with their lines, and `strings.TrimSpace` are given.
pub mod Declared
pub mod Vacuous
use nexus_go_ccnf_ref.Base.{
  ℕ, Text, codes, text_eq, has_prefix, has_suffix, Bool, true, false, not, ◌&&◌, ◌||◌, ◌==◌, Option,
  none, some, List, [], ◌∷◌, ◌++◌, if◌then◌else◌, drop, length, map,
}
use nexus_go_ccnf_ref.Base.Map.{or_nil, Map, set}
use nexus_go_ccnf_ref.Base.Sets.{member}
use nexus_go_ccnf_ref.Base.Sort.{sort_strings}
use nexus_go_ccnf_ref.Base.SortBy.{sort_slice}
use nexus_go_ccnf_ref.Value.Platform.{Platform}
use nexus_go_ccnf_ref.Pgv.{Node, Graph, ir_schema_version}
use nexus_go_ccnf_ref.Pgv.Diff.{before_last_slash}
use nexus_go_ccnf_ref.Pgv.Build.{path_less, build_graph}
use nexus_go_ccnf_ref.Pgv.Validator.{
  Config, Violation, DeclaredDeps, ValidationResult, validate_with_declared,
}

-- `strings.TrimSuffix`
unfoldable pub trim_suffix : Text → Text → Text
trim_suffix [] suffix = []
trim_suffix (c ∷ s) suffix =
    let rest = trim_suffix s suffix in if text_eq (c ∷ s) suffix then [] else c ∷ rest

-- A file of a walk: its path, and its lines if it opens.
pub record File : Type 0 where
  pub path : Text
  pub lines : Option (List Text)

-- What `go list -json` prints of a package.
pub record RawPackage : Type 0 where
  pub import_path : Text
  pub name : Text
  pub imports : List Text
  pub for_test : Text

-- the imports that are not of the standard library
unfoldable pub outside : List Text → List Text → List Text
outside stdlib_set [] = []
outside stdlib_set (d ∷ imports) =
    let rest = outside stdlib_set imports in if not (member d stdlib_set) then d ∷ rest else rest

-- `GoExtractor.Extract` behind the two runs of `go list`
unfoldable pub go_nodes : List Text → List RawPackage → List Node
unfolding outside
go_nodes stdlib_set [] = []
go_nodes stdlib_set (p ∷ pkgs) =
    let rest = go_nodes stdlib_set pkgs in
    if not (text_eq p.for_test [])
    then rest
    else record {
      import_path = p.import_path;
      name = p.name;
      direct_deps = outside stdlib_set p.imports;
    }
      ∷ rest

unfoldable pub to_rust_module_path : Text → Text
to_rust_module_path rel =
    let mod_path = trim_suffix rel (codes ".rs") in
    if has_suffix mod_path (codes "/mod") then trim_suffix mod_path (codes "/mod") else mod_path

-- up to the first of the bytes of `strings.IndexAny(rest, " \t;{}")`
unfoldable pub until_end : Text → Text
until_end [] = []
until_end (c ∷ s) =
    let rest = until_end s in
    if c == 32 || (c == 9 || (c == 59 || (c == 123 || c == 125))) then [] else c ∷ rest

-- `strings.ReplaceAll(rest, "::", "/")`
unfoldable pub slashes : Text → Text
slashes [] = []
slashes (c ∷ []) = c ∷ []
slashes (c ∷ d ∷ s) =
    let rest = slashes s in
    let next = slashes (d ∷ s) in if c == 58 && d == 58 then b'/' ∷ rest else c ∷ next

-- `depSet[d] = true`
unfoldable pub add_dep : Text → List Text → List Text
add_dep d dep_set = if member d dep_set then dep_set else d ∷ dep_set

abbrev pub later_or : Option Text → Option Text → Option Text
later_or none o = o
later_or (some s) o = some s

-- the text behind the last slash
unfoldable pub after_last_slash : Text → Option Text
after_last_slash [] = none
after_last_slash (c ∷ s) = later_or (after_last_slash s) (if c == b'/' then some s else none)

abbrev pub or_whole : Text → Option Text → Text
or_whole path none = path
or_whole path (some name) = name

unfoldable pub module_nodes : Map (List Text) → List Node
unfolding after_last_slash
module_nodes [] = []
module_nodes ((path, deps) ∷ rest) =
    record { import_path = path; name = or_whole path (after_last_slash path); direct_deps = deps }
    ∷ module_nodes rest

-- `strings.Split(rest, ",")`
unfoldable pub split_commas : Text → List Text
split_commas [] = [] ∷ []
split_commas (c ∷ s) = if c == 44 then [] ∷ split_commas s else onto c (split_commas s)
  where
    onto : ℕ → List Text → List Text
    onto c [] = (c ∷ []) ∷ []
    onto c (part ∷ parts) = (c ∷ part) ∷ parts

abbrev pub depends_on : Text
depends_on = codes "// DependsOn:"

unfoldable pub file_path_to_package : Text → Text
unfolding before_last_slash
file_path_to_package path = named (before_last_slash path)
  where
    named : Option Text → Text
    named none = b'.' ∷ []
    named (some pkg) =
        if has_prefix pkg (codes "projection")
        then codes "github.com/anomalyco/nexus-ccnf-ref/" ++ pkg
        else pkg

module _ (trim_space : Text → Text) where
  unfoldable pub scan_use : Text → Text → List Text → List Text
  unfolding slashes until_end add_dep
  scan_use namespace raw dep_set =
      let line = trim_space raw in
      if has_prefix line (codes "use crate::")
      then add_dep (namespace ++ (b'/' ∷ slashes (until_end (drop 11 line)))) dep_set
      else dep_set

  unfoldable pub scan_uses : Text → List Text → List Text → List Text
  unfolding scan_use
  scan_uses namespace [] dep_set = dep_set
  scan_uses namespace (raw ∷ lines) dep_set =
      scan_uses namespace lines (scan_use namespace raw dep_set)

  unfoldable pub scan_rust_deps : Text → Option (List Text) → List Text
  unfolding scan_uses
  scan_rust_deps namespace lines = sort_strings (scan_uses namespace (or_nil lines) [])

  -- The walk over the files, whose paths are relative to the source's directory.
  unfoldable pub module_deps : Text → List File → Map (List Text) → Map (List Text)
  unfolding scan_rust_deps to_rust_module_path
  module_deps namespace [] deps = deps
  module_deps namespace (f ∷ files) deps =
      let found =
        set (namespace ++ (b'/' ∷ to_rust_module_path f.path))
          (sort_strings (scan_rust_deps namespace f.lines)) deps in
      let skipped = module_deps namespace files deps in
      let walked = module_deps namespace files found in
      if has_suffix f.path (codes ".rs") then walked else skipped

  -- The source's directory is missing, or it is walked.
  unfoldable pub rust_nodes : Text → Option (List File) → List Node
  unfolding module_deps module_nodes
  rust_nodes namespace none = []
  rust_nodes namespace (some files) =
      sort_slice path_less (module_nodes (module_deps namespace files []))

  unfoldable pub add_parts : List Text → List Text → List Text
  add_parts deps [] = deps
  add_parts deps (part ∷ parts) =
      let name = trim_space part in
      add_parts (if not (text_eq name []) then deps ++ (name ∷ []) else deps) parts

  abbrev pub sorted_or_nil : List Text → Option (List Text)
  sorted_or_nil [] = none
  sorted_or_nil (d ∷ deps) = some (sort_strings (d ∷ deps))

  -- the text of a line behind `// DependsOn:`, if it is one
  unfoldable pub declaration : Text → Option Text
  declaration raw =
      let trimmed = trim_space raw in
      if has_prefix trimmed depends_on
      then some (trim_space (drop (length depends_on) trimmed))
      else none

  abbrev pub on_declaration :
      Option Text → List Text → (List Text → Option (List Text)) → Option (List Text)
  on_declaration none deps continue_scan = continue_scan deps
  on_declaration (some rest) deps continue_scan =
      let more = continue_scan (add_parts deps (split_commas rest)) in
      if text_eq rest (codes "(no external deps)") then some [] else more

  unfoldable pub scan_lines : List Text → List Text → Option (List Text)
  unfolding declaration add_parts split_commas
  scan_lines [] deps = sorted_or_nil deps
  scan_lines (raw ∷ lines) deps = on_declaration (declaration raw) deps (scan_lines lines)

  -- `none` is the nil slice
  unfoldable pub scan_depends_on : Option (List Text) → Option (List Text)
  unfolding scan_lines
  scan_depends_on none = none
  scan_depends_on (some lines) = scan_lines lines []

  abbrev pub declare : Text → Option (List Text) → List DeclaredDeps → List DeclaredDeps
  declare path none rest = rest
  declare path (some deps) rest = record { node = path; expected = deps } ∷ rest

  -- `CommentExtractor.ExtractDeclared` on the files below projection, where the walk meets no error
  unfoldable pub extract_declared : List File → List DeclaredDeps
  unfolding scan_depends_on file_path_to_package has_suffix
  extract_declared [] = []
  extract_declared (f ∷ files) =
      let rest = extract_declared files in
      if not (has_suffix f.path (codes ".go"))
      then rest
      else if has_suffix f.path (codes "_test.go")
      then rest
      else declare (file_path_to_package f.path) (scan_depends_on f.lines) rest

-- What the extractors and the comments find, or the end of the process.
pub data ExtractOutcome : Type 0 where
  failed : ExtractOutcome
  no_packages : ExtractOutcome
  panicked : ExtractOutcome
  extracted : Graph → ExtractOutcome

abbrev pub versioned : Option Graph → ExtractOutcome
versioned none = panicked
versioned (some g) = extracted (record {
  nodes = g.nodes;
  edges = g.edges;
  metadata = g.metadata;
  extractor_versions =
      (codes "go", codes "go_extractor.v1") ∷ (codes "rust", codes "rust_extractor.v1") ∷ [];
})

abbrev pub from_nodes : Platform → List Node → ExtractOutcome
from_nodes p [] = no_packages
from_nodes p (n ∷ nodes) = versioned (build_graph p (n ∷ nodes))

-- A `none` of the Go packages is an error of `go list`.
unfoldable pub extract_graph :
    Platform
    → (Text → Text)
    → List Text
    → Option (List RawPackage)
    → Option (List File)
    → ExtractOutcome
extract_graph p trim_space stdlib_set none rust = failed
extract_graph p trim_space stdlib_set (some pkgs) rust =
    from_nodes p (go_nodes stdlib_set pkgs ++ rust_nodes trim_space (codes "rust") rust)

abbrev pub run_config : Config
run_config = record {
  kernel_roots =
      codes "runtime/"
      ∷ codes "ccnf/"
      ∷ codes "replay/"
      ∷ codes "rust/runtime/"
      ∷ codes "rust/ccnf/"
      ∷ [];
  allowlist = codes "runtime/rehydrate/snapshot" ∷ codes "rust/runtime/rehydrate/snapshot" ∷ [];
  schema_version = ir_schema_version;
}

-- How `runValidate` exits: 1 if a violation is printed.
abbrev pub exit_code : List Violation → ℕ
exit_code [] = 0
exit_code (v ∷ violations) = 1

abbrev pub exit_of : Option ValidationResult → Option ℕ
exit_of none = none
exit_of (some r) = some (exit_code r.violations)

-- a slice that nothing was appended to is nil
abbrev pub nil_if_empty : List DeclaredDeps → Option (List DeclaredDeps)
nil_if_empty [] = none
nil_if_empty (d ∷ declared) = some (d ∷ declared)

-- The exit code of the command; `none` where the validator does not end.
unfoldable pub run_validate : ℕ → ExtractOutcome → List DeclaredDeps → Option ℕ
run_validate fuel failed declared = some 1
run_validate fuel no_packages declared = some 0
run_validate fuel panicked declared = some 2
run_validate fuel (extracted g) declared =
    exit_of (validate_with_declared fuel g run_config (nil_if_empty declared))
