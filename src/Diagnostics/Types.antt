-- ===== src/Diagnostics/Types.antt =====
-- The data of src/ServerDiagClient.cpp: slang's diagnostics as the server reads them, and the LSP
-- diagnostics that it makes. slang's engine and source manager are an interface.
use slang_server.Common.{ℕ, Bool, List, Option, Bytes}

-- A buffer and an offset in it.
pub record SourceLocation : Type 0 where
  pub buffer : ℕ
  pub offset : ℕ

pub record SourceRange : Type 0 where
  pub start : SourceLocation
  pub stop : SourceLocation

pub record Position : Type 0 where
  pub line : ℕ
  pub character : ℕ

pub record Range : Type 0 where
  pub start : Position
  pub stop : Position

pub record Location : Type 0 where
  pub uri : Bytes
  pub range : Range

pub data DiagnosticSeverity : Type 0 where
  ignored note warning error fatal : DiagnosticSeverity

pub data LspSeverity : Type 0 where
  lsp_error lsp_warning lsp_information lsp_hint : LspSeverity

-- The codes of slang's analysis subsystem that `isUnusedCode` lists, and the others.
pub data AnalysisCode : Type 0 where
  unused_argument unused_assertion_decl unused_definition unused_genvar : AnalysisCode
  unused_implicit_net unused_import unused_net unused_parameter unused_port : AnalysisCode
  unused_type_parameter unused_typedef unused_variable unused_wildcard_import : AnalysisCode
  other_analysis : ℕ → AnalysisCode

-- The codes that the server treats apart.
pub data DiagCode : Type 0 where
  no_top_modules command_line_warning command_line_error : DiagCode
  analysis : AnalysisCode → DiagCode
  other_code : ℕ → DiagCode

pub record Note : Type 0 where
  pub code : DiagCode
  pub location : SourceLocation

pub record ReportedDiagnostic : Type 0 where
  pub code : DiagCode
  pub severity : DiagnosticSeverity
  pub location : SourceLocation
  pub ranges : List SourceRange
  pub expansion_locs : List SourceLocation
  pub message : Bytes
  pub notes : List Note

pub record RelatedInformation : Type 0 where
  pub location : Location
  pub message : Bytes

pub record Diagnostic : Type 0 where
  pub range : Range
  pub severity : LspSeverity
  pub message : Bytes
  pub related : Option (List RelatedInformation)
  pub code : Option Bytes
  pub href : Option Bytes
  pub unnecessary : Bool

-- slang's diagnostic engine and source manager, the conversion of a range to a location of the
-- editor (src/util/Converters.cpp), and `URI::fromWeb`.
pub record Engine : Type 0 where
  pub no_location : SourceLocation
  pub map_source_ranges : SourceLocation → List SourceRange → List SourceRange
  pub to_location : SourceRange → Location
  pub loc_to_location : SourceLocation → Location
  pub fully_original_loc : SourceLocation → SourceLocation
  pub format_message : Note → Bytes
  pub show_note_with_no_location : DiagCode → Bool
  pub option_name : DiagCode → Bytes
  pub from_web : Bytes → Bytes
