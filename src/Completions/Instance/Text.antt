-- ===== src/Completions/Instance/Text.antt =====
-- The text of an instance that the snippet of src/completions/InstanceCompletions.cpp stands for.
use slang_server.Common.{
  ℕ, zero, suc, ◌+◌, ◌-◌, ◌≤◌, ◌<◌, Bool, true, false, List, [], ◌∷◌, ◌++◌, none, some, Bytes,
  codes, equal, map, length, length-append, if◌then◌else◌, ◌≡◌, refl, ap, ◌∙◌, arith, append_assoc,
  append-nil, equal_iff, Bool-cases, inl, inr,
}
use slang_server.Formatting.{to_camel_case}
use slang_server.Snippet.{empty_snippet}
use slang_server.Completions.Item.{CompletionItem}
use slang_server.Completions.Macro.{seen}
use slang_server.Completions.Macro.Expand.{expand}
use slang_server.Completions.Pieces.{
  Piece, fixed, hole, emit, holes, plain, plain-append, emit-expand,
}
use slang_server.Completions.Instance.Params.{open_params, params_of-open}
use slang_server.Completions.Instance.{
  Param, ModuleHeader, params_of, ports_of, max_len, spaces, pad, param_value, connection,
  param_pieces, port_pieces, param_names, param_block, port_block, instance_pieces,
  resolve_module_instance,
}

-- `.name (value)` on its own line, the parenthesis in the column after the longest name.
abbrev pub line_of : ℕ → Bytes × Bytes → Bytes
line_of width (name, value) = b'\t' ∷ b'.' ∷ (pad width name ++ b'(' ∷ (value ++ codes ")"))

-- The lines with commas between them, and a text behind the last.
abbrev pub lines_of : ℕ → Bytes → List (Bytes × Bytes) → Bytes
lines_of width last [] = []
lines_of width last (c ∷ []) = line_of width c ++ last
lines_of width last (c ∷ d ∷ cs) = line_of width c ++ (codes ",\n" ++ lines_of width last (d ∷ cs))

abbrev pub params_text : Bool → List Param → Bytes
params_text exclude_name [] = []
params_text exclude_name (p ∷ ps) =
    (if exclude_name then codes "(\n" else codes " #(\n")
    ++ (lines_of (max_len (param_names (p ∷ ps))) (codes "\n ")
          (map (λ q. (q.name, param_value q)) (p ∷ ps))
        ++ codes ")")

abbrev pub ports_text : List Bytes → Bytes
ports_text [] = []
ports_text (n ∷ ns) = b'\n' ∷ lines_of (max_len (n ∷ ns)) (codes "\n") (map (λ m. (m, m)) (n ∷ ns))

abbrev instance_of : Bool → ModuleHeader → List Param → Bytes
instance_of exclude_name h ps =
    (if exclude_name then [] else h.name)
    ++ (params_text exclude_name ps
        ++ (b' '
            ∷ (to_camel_case h.name
                ++ (codes " (" ++ (ports_text (ports_of h.ports) ++ codes ");")))))

-- The instance with each parameter that is not local set to its name, with its default beside it, and
-- each port connected to the signal of its name.
abbrev pub instance_text : Bool → ModuleHeader → Bytes
instance_text exclude_name h = instance_of exclude_name h (open_params h.parameters)

plain-connection :
    (width : ℕ) (name value behind : Bytes)
    → plain (connection width name value behind) ≡ line_of width (name, value) ++ behind
plain-connection width name value behind = simp (append_assoc, append-nil) refl

plain-param_pieces :
    (width : ℕ) (ps : List Param)
    → plain (param_pieces width ps)
      ≡ lines_of width (codes "\n ") (map (λ q. (q.name, param_value q)) ps)
unfolding param_pieces
plain-param_pieces width [] = refl
plain-param_pieces width (p ∷ []) = plain-connection width p.name (param_value p) (codes "\n ")
plain-param_pieces width (p ∷ q ∷ ps) =
    plain-append (connection width p.name (param_value p) (codes ",\n"))
      (param_pieces width (q ∷ ps))
    ∙ ap (λ x. x ++ plain (param_pieces width (q ∷ ps)))
        (plain-connection width p.name (param_value p) (codes ",\n"))
    ∙ append_assoc (line_of width (p.name, param_value p)) (codes ",\n")
        (plain (param_pieces width (q ∷ ps)))
    ∙ ap (λ x. line_of width (p.name, param_value p) ++ (codes ",\n" ++ x))
        (plain-param_pieces width (q ∷ ps))

plain-port_pieces :
    (width : ℕ) (ns : List Bytes)
    → plain (port_pieces width ns) ≡ lines_of width (codes "\n") (map (λ m. (m, m)) ns)
unfolding port_pieces
plain-port_pieces width [] = refl
plain-port_pieces width (n ∷ []) = plain-connection width n n (codes "\n")
plain-port_pieces width (n ∷ m ∷ ns) =
    plain-append (connection width n n (codes ",\n")) (port_pieces width (m ∷ ns))
    ∙ ap (λ x. x ++ plain (port_pieces width (m ∷ ns))) (plain-connection width n n (codes ",\n"))
    ∙ append_assoc (line_of width (n, n)) (codes ",\n") (plain (port_pieces width (m ∷ ns)))
    ∙ ap (λ x. line_of width (n, n) ++ (codes ",\n" ++ x)) (plain-port_pieces width (m ∷ ns))

plain-closed :
    (ps : List Param)
    → plain (param_pieces (max_len (param_names ps)) ps ++ fixed (codes ")") ∷ [])
      ≡ lines_of (max_len (param_names ps)) (codes "\n ") (map (λ q. (q.name, param_value q)) ps)
        ++ codes ")"
plain-closed ps =
    plain-append (param_pieces (max_len (param_names ps)) ps) (fixed (codes ")") ∷ [])
    ∙ ap (λ x. x ++ codes ")") (plain-param_pieces (max_len (param_names ps)) ps)

plain-param_block :
    (exclude_name : Bool) (ps : List Param)
    → plain (param_block exclude_name ps) ≡ params_text exclude_name ps
plain-param_block exclude_name [] = refl
plain-param_block true (p ∷ ps) = ap (λ x. codes "(\n" ++ x) (plain-closed (p ∷ ps))
plain-param_block false (p ∷ ps) = ap (λ x. codes " #(\n" ++ x) (plain-closed (p ∷ ps))

plain-port_block : (ns : List Bytes) → plain (port_block ns) ≡ ports_text ns
plain-port_block [] = refl
plain-port_block (n ∷ ns) =
    ap (λ x. codes "\n" ++ x) (plain-port_pieces (max_len (n ∷ ns)) (n ∷ ns))

plain-body :
    (exclude_name : Bool) (h : ModuleHeader)
    → plain (
        param_block exclude_name (params_of h.parameters)
        ++ (fixed (codes " ")
            ∷ hole (to_camel_case h.name)
            ∷ fixed (codes " (")
            ∷ (port_block (ports_of h.ports) ++ fixed (codes ");") ∷ [])))
      ≡ params_text exclude_name (params_of h.parameters)
        ++ (b' '
            ∷ (to_camel_case h.name
                ++ (codes " (" ++ (ports_text (ports_of h.ports) ++ codes ");"))))
plain-body exclude_name h =
    plain-append (param_block exclude_name (params_of h.parameters)) _
    ∙ ap
        (λ x.
          x
          ++ (b' '
              ∷ (to_camel_case h.name
                  ++ (codes " ("
                      ++ plain (port_block (ports_of h.ports) ++ fixed (codes ");") ∷ [])))))
        (plain-param_block exclude_name (params_of h.parameters))
    ∙ ap
        (λ x.
          params_text exclude_name (params_of h.parameters)
          ++ (b' ' ∷ (to_camel_case h.name ++ (codes " (" ++ x))))
        (plain-append (port_block (ports_of h.ports)) (fixed (codes ");") ∷ [])
          ∙ ap (λ x. x ++ codes ");") (plain-port_block (ports_of h.ports)))

plain-pieces :
    (exclude_name : Bool) (h : ModuleHeader)
    → plain (instance_pieces exclude_name h) ≡ instance_of exclude_name h (params_of h.parameters)
unfolding instance_pieces
plain-pieces true h = plain-body true h
plain-pieces false h = ap (λ x. h.name ++ x) (plain-body false h)

plain-instance_pieces :
    (exclude_name : Bool) (h : ModuleHeader)
    → plain (instance_pieces exclude_name h) ≡ instance_text exclude_name h
plain-instance_pieces exclude_name h =
    plain-pieces exclude_name h ∙ ap (instance_of exclude_name h) (params_of-open h.parameters)

holes-append : (ps qs : List Piece) → holes (ps ++ qs) ≡ holes ps + holes qs
holes-append [] qs = omega arith
holes-append (fixed t ∷ ps) qs = holes-append ps qs
holes-append (hole v ∷ ps) qs = omega (arith, holes-append ps qs)

holes-param_pieces : (width : ℕ) (ps : List Param) → holes (param_pieces width ps) ≡ length ps
unfolding param_pieces
holes-param_pieces width [] = refl
holes-param_pieces width (p ∷ []) = refl
holes-param_pieces width (p ∷ q ∷ ps) = ap suc (holes-param_pieces width (q ∷ ps))

holes-port_pieces : (width : ℕ) (ns : List Bytes) → holes (port_pieces width ns) ≡ length ns
unfolding port_pieces
holes-port_pieces width [] = refl
holes-port_pieces width (n ∷ []) = refl
holes-port_pieces width (n ∷ m ∷ ns) = ap suc (holes-port_pieces width (m ∷ ns))

-- No name is longer than the longest, so its column is reached by spaces alone.
max_len-le : (ns : List Bytes) (n : Bytes) → seen n ns ≡ true → length n ≤ max_len ns
unfolding max_len
max_len-le [] n h = cc h
max_len-le (m ∷ ns) n h = elim (Bool-cases (equal m n)) [
  | inl same ↦ let e : m ≡ n = (equal_iff m n).0 same in rw⁻¹ e (omega arith)
  | inr other ↦ ground (arith, h, other, max_len-le ns n)
]

length-spaces : (n : ℕ) → length (spaces n) ≡ n
unfolding spaces
length-spaces zero = refl
length-spaces (suc n) = ap suc (length-spaces n)

pub length-pad :
    (ns : List Bytes) (n : Bytes) → seen n ns ≡ true → length (pad (max_len ns) n) ≡ max_len ns
unfolding pad
length-pad ns n h = omega (
  arith,
  length-append n (spaces (max_len ns - length n)),
  length-spaces (max_len ns - length n),
  max_len-le ns n h,
)

holes-param_block :
    (exclude_name : Bool) (ps : List Param) → holes (param_block exclude_name ps) ≡ length ps
holes-param_block exclude_name [] = refl
holes-param_block true (p ∷ ps) =
    holes-append (param_pieces (max_len (param_names (p ∷ ps))) (p ∷ ps)) _
    ∙ omega (arith, holes-param_pieces (max_len (param_names (p ∷ ps))) (p ∷ ps))
holes-param_block false (p ∷ ps) =
    holes-append (param_pieces (max_len (param_names (p ∷ ps))) (p ∷ ps)) _
    ∙ omega (arith, holes-param_pieces (max_len (param_names (p ∷ ps))) (p ∷ ps))

holes-port_block : (ns : List Bytes) → holes (port_block ns) ≡ length ns
holes-port_block [] = refl
holes-port_block (n ∷ ns) = holes-port_pieces (max_len (n ∷ ns)) (n ∷ ns)

holes-instance_pieces :
    (exclude_name : Bool) (h : ModuleHeader)
    → holes (instance_pieces exclude_name h)
      ≡ length (params_of h.parameters) + suc (length (ports_of h.ports))
unfolding instance_pieces
holes-instance_pieces true h =
    holes-append (param_block true (params_of h.parameters)) _
    ∙ omega (
      arith,
      holes-param_block true (params_of h.parameters),
      holes-append (port_block (ports_of h.ports)) (fixed (codes ");") ∷ []),
      holes-port_block (ports_of h.ports),
    )
holes-instance_pieces false h =
    holes-append (param_block false (params_of h.parameters)) _
    ∙ omega (
      arith,
      holes-param_block false (params_of h.parameters),
      holes-append (port_block (ports_of h.ports)) (fixed (codes ");") ∷ []),
      holes-port_block (ports_of h.ports),
    )

-- An item without a text gets a snippet that stands for the instance of the module: its text, once the
-- placeholders are taken over as they are, sets each parameter that is not local and connects each
-- port, one a line, with names that are filled up with spaces to the same length. A declaration
-- without a keyword is local if the last keyword before it says so. The reading takes more steps
-- than there are parameters that are not local and ports.
pub resolve_module_instance-expand :
    (documentation : Bytes) (exclude_name : Bool) (h : ModuleHeader) (item : CompletionItem)
    (fuel : ℕ)
    → item.insert_text ≡ none
    → length (open_params h.parameters) + length (ports_of h.ports) < fuel
    → (t : Bytes) × ((resolve_module_instance documentation exclude_name h item).insert_text
        ≡ some t)
      × (expand (suc fuel) t ≡ instance_text exclude_name h)
      × ((n : Bytes)
          → seen n (param_names (open_params h.parameters)) ≡ true
          → length (pad (max_len (param_names (open_params h.parameters))) n)
            ≡ max_len (param_names (open_params h.parameters)))
      × ((n : Bytes)
          → seen n (ports_of h.ports) ≡ true
          → length (pad (max_len (ports_of h.ports)) n) ≡ max_len (ports_of h.ports))
unfolding resolve_module_instance
resolve_module_instance-expand documentation exclude_name h item fuel e f = (
  (emit (instance_pieces exclude_name h) empty_snippet).value,
  rw e refl,
  emit-expand (instance_pieces exclude_name h) fuel (
        omega
          (arith, f, ap length (params_of-open h.parameters), holes-instance_pieces exclude_name h))
      ∙ plain-instance_pieces exclude_name h,
  length-pad (param_names (open_params h.parameters)),
  length-pad (ports_of h.ports),
)
