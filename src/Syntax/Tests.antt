-- ===== src/Syntax/Tests.antt =====
-- Runs of the look-ups of src/document/SyntaxIndexer.cpp, and instances of their theorems.
use slang_server.Common.{
  ℕ, zero, suc, ◌≤◌, ◌<◌, List, [], ◌∷◌, none, some, length, ◌≡◌, refl, arith,
}
use slang_server.Syntax.{
  Token, identifier, other_kind, SourceLocation, SyntaxIndexer, start_at, token_index_before,
  get_word_token_at, get_token_before, get_token_after, lower_bound, step_back, skip_open,
}
use slang_server.Syntax.Lookup.{stop_at, AreTokens, EndsBefore, get_token_before_exact}

-- `pkg::var ;` and the empty token at the end of the file.
abbrev line : List Token
line =
    record { kind = identifier; start = 0; stop = 3 }
    ∷ record { kind = other_kind 7; start = 3; stop = 5 }
    ∷ record { kind = identifier; start = 5; stop = 8 }
    ∷ record { kind = other_kind 9; start = 9; stop = 10 }
    ∷ record { kind = other_kind 1; start = 10; stop = 10 }
    ∷ []

abbrev doc : SyntaxIndexer
doc = record { buffer = 1; collected = line; token_to_parent = [] }

abbrev here : ℕ → SourceLocation
here o = record { buffer = 1; offset = o }

line-forward : (i : ℕ) → i < length line → start_at line i ≤ stop_at line i
line-forward zero h = omega arith
line-forward (suc zero) h = omega arith
line-forward (suc (suc zero)) h = omega arith
line-forward (suc (suc (suc zero))) h = omega arith
line-forward (suc (suc (suc (suc zero)))) h = omega arith
line-forward (suc (suc (suc (suc (suc i))))) h = absurd (omega arith)

line-disjoint : (i j : ℕ) → i < j → j < length line → stop_at line i ≤ start_at line j
line-disjoint i zero lt h = absurd (omega arith)
line-disjoint zero (suc zero) lt h = omega arith
line-disjoint (suc i) (suc zero) lt h = absurd (omega arith)
line-disjoint zero (suc (suc zero)) lt h = omega arith
line-disjoint (suc zero) (suc (suc zero)) lt h = omega arith
line-disjoint (suc (suc i)) (suc (suc zero)) lt h = absurd (omega arith)
line-disjoint zero (suc (suc (suc zero))) lt h = omega arith
line-disjoint (suc zero) (suc (suc (suc zero))) lt h = omega arith
line-disjoint (suc (suc zero)) (suc (suc (suc zero))) lt h = omega arith
line-disjoint (suc (suc (suc i))) (suc (suc (suc zero))) lt h = absurd (omega arith)
line-disjoint zero (suc (suc (suc (suc zero)))) lt h = omega arith
line-disjoint (suc zero) (suc (suc (suc (suc zero)))) lt h = omega arith
line-disjoint (suc (suc zero)) (suc (suc (suc (suc zero)))) lt h = omega arith
line-disjoint (suc (suc (suc zero))) (suc (suc (suc (suc zero)))) lt h = omega arith
line-disjoint (suc (suc (suc (suc i)))) (suc (suc (suc (suc zero)))) lt h = absurd (omega arith)
line-disjoint i (suc (suc (suc (suc (suc j))))) lt h = absurd (omega arith)

line-AreTokens : AreTokens line
line-AreTokens = record { forward = line-forward; disjoint = line-disjoint }

lookups :
    (get_word_token_at doc (here 6) ≡ some 2)
    × (get_word_token_at doc (here 3) ≡ none)
    × (get_token_before doc (here 8) ≡ some 2)
    × (get_token_before doc (here 4) ≡ some 0)
    × (get_token_after doc (here 6) ≡ some 3)
    × (get_token_before doc (here 10) ≡ some 3)
unfolding get_word_token_at get_token_before get_token_after lower_bound step_back skip_open
    token_index_before
lookups = (refl, refl, refl, refl, refl, refl)

get_token_before_exact_example : EndsBefore line 10 (get_token_before doc (here 10))
get_token_before_exact_example = get_token_before_exact doc (here 10) line-AreTokens refl
