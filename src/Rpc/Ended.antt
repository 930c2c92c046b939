-- ===== src/Rpc/Ended.antt =====
-- The loops of `run` of include/lsp/JsonRpcServer.h on an input that has ended: each of their calls of
-- `readJson` of include/lsp/JsonRpc.h gives the default request.
use slang_server.Common.{
  ℕ, zero, suc, false, List, [], ◌∷◌, Option, none, some, Bytes, replicate, ◌≡◌, ◌≢◌, refl,
  Bool-cases, inl, inr,
}
use slang_server.Rpc.{RpcRequest, Phase, running, exited, Registry, run}
use slang_server.Rpc.Framing.{
  Stream, Content, Reading, read, ended, threw, runs_on, get_line, cut_line, read_json,
}
use slang_server.Rpc.Session.{default_request, phase_error, run-default}

module _ {S G : Type 0} (r : Registry S G) where
  abbrev before_all : RpcRequest G → Option (List (RpcRequest G)) → Option (List (RpcRequest G))
  before_all req none = none
  before_all req (some reqs) = some (req ∷ reqs)

  -- What a call of `readJson` gives, and the calls behind it: at the end of the input, `T{}`.
  abbrev pub next_call :
      (Stream → Bytes → Bytes → Option (List (RpcRequest G)))
      → Bytes
      → Bytes
      → Reading (RpcRequest G)
      → Option (List (RpcRequest G))
  next_call calls line content (read req input line' content' sent) =
      before_all req (calls input line' content')
  next_call calls line content (ended input sent) =
      before_all (default_request r) (calls input line content)
  next_call calls line content threw = none
  next_call calls line content runs_on = none

  module _ (parse : Bytes → Content (RpcRequest G)) where
    -- The requests that as many calls of `readJson` give, each within the fuel.
    unfoldable pub read_requests : ℕ → ℕ → Stream → Bytes → Bytes → Option (List (RpcRequest G))
    unfolding read_json
    read_requests fuel zero input line content = some []
    read_requests fuel (suc n) input line content =
        next_call (read_requests fuel n) line content (read_json parse fuel input line content [])

    ended_at_once :
        (fuel : ℕ) (input : Stream) (line content : Bytes) (sent : List Bytes)
        → input.left ≡ []
        → (input' : Stream) × (input'.left ≡ [])
          × (read_json parse (suc fuel) input line content sent ≡ ended input' sent)
    unfolding read_json get_line cut_line
    ended_at_once fuel input line content sent e = elim (Bool-cases input.good) [
      | inl good ↦ (record { left = []; good = false }, refl, rw good (rw e refl))
      | inr failed ↦ (input, e, rw failed refl)
    ]

    read_requests-ended :
        (fuel n : ℕ) (input : Stream) (line content : Bytes)
        → input.left ≡ []
        → read_requests (suc fuel) n input line content ≡ some (replicate n (default_request r))
    unfolding read_requests
    read_requests-ended fuel zero input line content e = refl
    read_requests-ended fuel (suc n) input line content e =
        let (input', e', h) = ended_at_once fuel input line content [] e in
        rw h (rw (read_requests-ended fuel n input' line content e') refl)

    -- Once nothing is left of the input, any number of calls of `readJson`, with any fuel but none for
    -- each, give as many default requests, and on them the server never leaves its phase, if that is not its end: before
    -- `initialize` and after `shutdown` each of them sends one more error and reaches no handler.
    pub end_of_input_runs_on :
        (fuel n : ℕ) (input : Stream) (line content : Bytes) (p : Phase) (s : S)
        → input.left ≡ []
        → p ≢ exited
        → (reqs : List (RpcRequest G)) × (read_requests (suc fuel) n input line content ≡ some reqs)
          × ((run r p s reqs).0 ≡ p)
          × (p ≢ running → run r p s reqs ≡ (p, s, replicate n (phase_error r p)))
    end_of_input_runs_on fuel n input line content p s e live =
        let (stays, sends) = run-default r n p s live in
        (
          replicate n (default_request r),
          read_requests-ended fuel n input line content e,
          stays,
          sends,
        )
