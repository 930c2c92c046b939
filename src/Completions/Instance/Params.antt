-- ===== src/Completions/Instance/Params.antt =====
-- The parameters that an instance can set, for src/completions/InstanceCompletions.cpp: in the language a
-- parameter declaration without a keyword has the last one before it.
use slang_server.Common.{
  Bool, false, List, [], ◌∷◌, ◌++◌, Option, none, some, map, if◌then◌else◌, ◌≡◌, refl, sym, ap, ◌∙◌,
  Bool-cases, inl, inr,
}
use slang_server.Completions.Instance.{
  Declarator, ParamDeclaration, Param, param_of, local_after, collect_params, params_of,
}

abbrev keyword_or : Option Bool → Bool → Bool
keyword_or none before = before
keyword_or (some local) before = local

-- Whether the first of these declarations, of which the later ones stand before it, is local.
unfoldable is_local : List ParamDeclaration → Bool
is_local [] = false
is_local (d ∷ before) = keyword_or d.keyword (is_local before)

-- Each declaration with those before it, the nearest first.
unfoldable with_before :
    List ParamDeclaration → List ParamDeclaration → List (List ParamDeclaration × ParamDeclaration)
with_before before [] = []
with_before before (d ∷ ds) = (before, d) ∷ with_before (d ∷ before) ds

unfoldable not_local : List (List ParamDeclaration × ParamDeclaration) → List ParamDeclaration
unfolding is_local
not_local [] = []
not_local ((before, d) ∷ ds) =
    let rest = not_local ds in if is_local (d ∷ before) then rest else d ∷ rest

unfoldable declarators_of : List ParamDeclaration → List Declarator
declarators_of [] = []
declarators_of (d ∷ ds) = d.declarators ++ declarators_of ds

-- The parameters of the declarations that are not local.
unfoldable pub open_params : Option (List ParamDeclaration) → List Param
unfolding with_before not_local declarators_of
open_params none = []
open_params (some ds) = map param_of (declarators_of (not_local (with_before [] ds)))

map_append :
    (xs ys : List Declarator) → map param_of (xs ++ ys) ≡ map param_of xs ++ map param_of ys
map_append [] ys = refl
map_append (x ∷ xs) ys = ap (◌∷◌ (param_of x)) (map_append xs ys)

local_after-is_local :
    (keyword : Option Bool) (before : List ParamDeclaration)
    → local_after keyword (is_local before) ≡ keyword_or keyword (is_local before)
local_after-is_local none before = refl
local_after-is_local (some local) before = refl

collect_params-open :
    (before ds : List ParamDeclaration)
    → collect_params (is_local before) ds
      ≡ map param_of (declarators_of (not_local (with_before before ds)))
unfolding collect_params with_before not_local declarators_of is_local
collect_params-open before [] = refl
collect_params-open before (d ∷ ds) =
    let rest = collect_params-open (d ∷ before) ds in
    rw (local_after-is_local d.keyword before)
      (elim (Bool-cases (keyword_or d.keyword (is_local before))) [
        | inl local ↦ rw local (rw local at rest)
        | inr open_ ↦ rw open_ (
            ap (λ ps. map param_of d.declarators ++ ps) (rw open_ at rest)
            ∙ sym (
                map_append d.declarators
                  (declarators_of (not_local (with_before (d ∷ before) ds)))))
      ])

pub params_of-open : (o : Option (List ParamDeclaration)) → params_of o ≡ open_params o
unfolding open_params
params_of-open none = refl
params_of-open (some ds) = unfold is_local in collect_params-open [] ds
