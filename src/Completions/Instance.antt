-- ===== src/Completions/Instance.antt =====
-- src/completions/InstanceCompletions.cpp: the snippet that instantiates a module. What slang's
-- tree gives of a header is the record `ModuleHeader`: texts are those that its printer writes.
pub mod Params
pub mod Text
use slang_server.Common.{
  ℕ, zero, suc, ◌+◌, ◌-◌, ◌≤◌, ◌<◌, max, Bool, true, false, List, [], ◌∷◌, ◌++◌, Option, none, some,
  Bytes, codes, equal, any, map, length, length-append, is_empty, if◌then◌else◌, ◌≡◌, refl, sym, ap,
  ◌∙◌, arith, append_assoc, append-nil, equal_iff,
}
use slang_server.Formatting.{ltrim, to_camel_case}
use slang_server.Snippet.{SnippetString, empty_snippet}
use slang_server.Completions.Item.{CompletionItem, snippet}
use slang_server.Completions.Macro.Expand.{expand}
use slang_server.Completions.Pieces.{
  Piece, fixed, hole, emit, holes, plain, plain-append, emit-expand,
}

pub record Declarator : Type 0 where
  pub name : Bytes
  pub default_text : Option Bytes

-- One declaration of a parameter list: whether its keyword is `localparam`, if it has a keyword.
pub record ParamDeclaration : Type 0 where
  pub keyword : Option Bool
  pub declarators : List Declarator

-- `ports` are the names that `PortVisitor` meets, in its order.
pub record ModuleHeader : Type 0 where
  pub name : Bytes
  pub parameters : Option (List ParamDeclaration)
  pub ports : Option (List Bytes)

-- An entry of `names` with that of `defaults`.
pub record Param : Type 0 where
  pub name : Bytes
  pub default_text : Bytes

abbrev pub default_of : Option Bytes → Bytes
default_of none = ltrim []
default_of (some t) = ltrim t

abbrev pub param_of : Declarator → Param
param_of d = record { name = d.name; default_text = default_of d.default_text }

abbrev pub local_after : Option Bool → Bool → Bool
local_after none last = last
local_after (some local) last = local

-- The loop over the declarations; the flag is `lastLocal`.
unfoldable pub collect_params : Bool → List ParamDeclaration → List Param
unfolding ltrim
collect_params last [] = []
collect_params last (d ∷ ds) =
    let rest = collect_params (local_after d.keyword last) ds in
    if local_after d.keyword last then rest else map param_of d.declarators ++ rest

abbrev pub params_of : Option (List ParamDeclaration) → List Param
params_of none = []
params_of (some ds) = collect_params false ds

abbrev pub ports_of : Option (List Bytes) → List Bytes
ports_of none = []
ports_of (some names) = names

-- `maxLen`
unfoldable pub max_len : List Bytes → ℕ
max_len [] = 0
max_len (n ∷ ns) = max (length n) (max_len ns)

unfoldable pub spaces : ℕ → Bytes
spaces zero = []
spaces (suc n) = b' ' ∷ spaces n

-- `nameFmt`
unfoldable pub pad : ℕ → Bytes → Bytes
unfolding spaces
pad width name = name ++ spaces (width - length name)

abbrev pub param_value : Param → Bytes
param_value p =
    if is_empty p.default_text
    then p.name
    else p.name ++ (codes " /* default " ++ (p.default_text ++ codes " */"))

abbrev pub connection : ℕ → Bytes → Bytes → Bytes → List Piece
connection width name value behind =
    fixed (b'\t' ∷ b'.' ∷ (pad width name ++ codes "("))
    ∷ hole value
    ∷ fixed (codes ")")
    ∷ fixed behind
    ∷ []

-- The loop over the parameters, of which the last has another text behind it.
unfoldable pub param_pieces : ℕ → List Param → List Piece
unfolding pad
param_pieces width [] = []
param_pieces width (p ∷ []) = connection width p.name (param_value p) (b'\n' ∷ b' ' ∷ [])
param_pieces width (p ∷ q ∷ ps) =
    connection width p.name (param_value p) (b',' ∷ b'\n' ∷ []) ++ param_pieces width (q ∷ ps)

unfoldable pub port_pieces : ℕ → List Bytes → List Piece
unfolding pad
port_pieces width [] = []
port_pieces width (n ∷ []) = connection width n n (b'\n' ∷ [])
port_pieces width (n ∷ m ∷ ns) =
    connection width n n (b',' ∷ b'\n' ∷ []) ++ port_pieces width (m ∷ ns)

abbrev pub param_names : List Param → List Bytes
param_names = map (λ p. p.name)

abbrev pub param_block : Bool → List Param → List Piece
param_block exclude_name [] = []
param_block exclude_name (p ∷ ps) =
    (if exclude_name then [] else fixed (codes " #") ∷ [])
    ++ (fixed (codes "(\n")
        ∷ (param_pieces (max_len (param_names (p ∷ ps))) (p ∷ ps) ++ fixed (codes ")") ∷ []))

abbrev pub port_block : List Bytes → List Piece
port_block [] = []
port_block (n ∷ ns) = fixed (codes "\n") ∷ port_pieces (max_len (n ∷ ns)) (n ∷ ns)

unfoldable pub instance_pieces : Bool → ModuleHeader → List Piece
unfolding param_pieces port_pieces max_len collect_params to_camel_case
instance_pieces exclude_name h =
    (if exclude_name then [] else fixed h.name ∷ [])
    ++ (param_block exclude_name (params_of h.parameters)
        ++ (fixed (codes " ")
            ∷ hole (to_camel_case h.name)
            ∷ fixed (codes " (")
            ∷ (port_block (ports_of h.ports) ++ fixed (codes ");") ∷ [])))

abbrev pub or_instance : Bool → ModuleHeader → Option Bytes → CompletionItem → CompletionItem
or_instance exclude_name h (some text) item = item
or_instance exclude_name h none item = record item {
  insert_text = some (emit (instance_pieces exclude_name h) empty_snippet).value;
  insert_text_format = some snippet;
}

-- `documentation` is what `svCodeBlock` makes of the header.
unfoldable pub resolve_module_instance :
    Bytes → Bool → ModuleHeader → CompletionItem → CompletionItem
unfolding instance_pieces
resolve_module_instance documentation exclude_name h item =
    or_instance exclude_name h item.insert_text (record item { documentation = some documentation })
