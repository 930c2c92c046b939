-- ===== src/Snippet/Tabstops.antt =====
-- The counter of include/lsp/SnippetString.h: automatic numbers do not collide with earlier ones.
use slang_server.Common.{
  ℕ, ◌≤◌, true, List, [], ◌∷◌, Option, none, some, ◌≡◌, refl, arith, ltb, all,
}
use slang_server.Snippet.{SnippetString, next_tabstop}

-- The numbers that a row of requests gets, and the snippet behind them.
unfoldable pub take_numbers : List (Option ℕ) → SnippetString → List ℕ × SnippetString
unfolding next_tabstop
take_numbers [] s = ([], s)
take_numbers (request ∷ requests) s =
    let (n, s') = next_tabstop request s in
    let (ns, s'') = take_numbers requests s' in (n ∷ ns, s'')

take_numbers_mono :
    (requests : List (Option ℕ)) (s : SnippetString)
    → s.tabstop ≤ (take_numbers requests s).1.tabstop
unfolding take_numbers
take_numbers_mono [] s = omega arith
take_numbers_mono (some n ∷ requests) s =
    omega (arith, take_numbers_mono requests (next_tabstop (some n) s).1)
take_numbers_mono (none ∷ requests) s =
    omega (arith, take_numbers_mono requests (next_tabstop none s).1)

-- After any row of requests, with numbers given or not, the next automatic number is above every
-- number handed out before.
pub take_numbers-fresh :
    (requests : List (Option ℕ)) (s : SnippetString)
    → all (λ n. ltb n (next_tabstop none (take_numbers requests s).1).0) (take_numbers requests s).0
      ≡ true
unfolding take_numbers
take_numbers-fresh [] s = refl
take_numbers-fresh (some n ∷ requests) s =
    let s' = (next_tabstop (some n) s).1 in
    ground (arith, take_numbers_mono requests s', take_numbers-fresh requests s')
take_numbers-fresh (none ∷ requests) s =
    let s' = (next_tabstop none s).1 in
    ground (arith, take_numbers_mono requests s', take_numbers-fresh requests s')
