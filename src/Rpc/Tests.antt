-- ===== src/Rpc/Tests.antt =====
-- Concrete sessions for include/lsp/JsonRpcServer.h: a server that counts the calls of its handlers.
use slang_server.Common.{
  List, if◌then◌else◌, true, ℕ, ◌+◌, [], ◌∷◌, ◌++◌, none, some, Bytes, codes, bytes_eq, map,
  replicate, ◌≡◌, ◌≢◌, arith, ◌==◌, refl,
}
use slang_server.Rpc.{
  pos, int_id, RpcRequest, response, error_response, Outcome, returned, threw, Registry, starting,
  running, stopping, exited, handle_message, process_message, not_initialized, invalid_request,
  step, run,
}
use slang_server.Rpc.Session.{handle_all, session_lem, phase_error}
use slang_server.Rpc.Framing.{Content, unreadable, reply, request, read, read_json, send_message}
use slang_server.Rpc.Frames.{send_all, read_json-send_all}
use slang_server.Rpc.Replies.{id_of, ids_to_answer, handle_all-ids}
use slang_server.Rpc.Ended.{read_requests, end_of_input_runs_on}

abbrev count_call : ℕ → ℕ → ℕ × Outcome ℕ
count_call s params = (s + 1, returned (s + params))

abbrev refuse_call : ℕ → ℕ → ℕ × Outcome ℕ
refuse_call s params = (s + 1, threw (codes "no"))

abbrev count_note : ℕ → ℕ → ℕ × Outcome (Unit {0})
count_note s params = (s + 10, threw (codes "no"))

abbrev counting : Registry ℕ ℕ
counting = record {
  requests =
      (codes "initialize", count_call)
      ∷ (codes "hover", refuse_call)
      ∷ (codes "shutdown", count_call)
      ∷ [];
  notifications = (codes "didOpen", count_note) ∷ [];
  null = 0;
}

abbrev call_of : ℕ → Bytes → RpcRequest ℕ
call_of n method = record { id = some (int_id (pos n)); method = method; params = some 7 }

abbrev notification : Bytes → RpcRequest ℕ
notification method = record { id = none; method = method; params = some 7 }

a_session :
    run counting starting 0 (
      call_of 1 (codes "hover")
      ∷ call_of 2 (codes "initialize")
      ∷ notification (codes "didOpen")
      ∷ call_of 3 (codes "hover")
      ∷ call_of 4 (codes "unknown")
      ∷ call_of 5 (codes "shutdown")
      ∷ call_of 6 (codes "hover")
      ∷ notification (codes "exit")
      ∷ call_of 7 (codes "hover")
      ∷ [])
    ≡ (
      exited,
      13,
      not_initialized counting (call_of 1 (codes "hover"))
          ∷ response (some (int_id (pos 2))) 7
          ∷ error_response (some (int_id (pos 3))) (pos 1) (codes "no")
          ∷ response (some (int_id (pos 5))) 19
          ∷ invalid_request counting (call_of 6 (codes "hover"))
          ∷ [],
    )
unfolding run step handle_message process_message
a_session = refl

session_lem_example :
    run counting starting 0 (
      (call_of 1 (codes "hover") ∷ [])
      ++ call_of 2 (codes "initialize")
        ∷ ((notification (codes "didOpen") ∷ call_of 3 (codes "hover") ∷ [])
            ++ call_of 5 (codes "shutdown")
              ∷ ((call_of 6 (codes "hover") ∷ [])
                  ++ notification (codes "exit") ∷ (call_of 7 (codes "hover") ∷ []))))
    ≡ (
      exited,
      (handle_all counting 0 (
          call_of 2 (codes "initialize")
          ∷ ((notification (codes "didOpen") ∷ call_of 3 (codes "hover") ∷ [])
              ++ call_of 5 (codes "shutdown") ∷ []))).0,
      map (not_initialized counting) (call_of 1 (codes "hover") ∷ [])
          ++ ((handle_all counting 0 (
                call_of 2 (codes "initialize")
                ∷ ((notification (codes "didOpen") ∷ call_of 3 (codes "hover") ∷ [])
                    ++ call_of 5 (codes "shutdown") ∷ []))).1
              ++ map (invalid_request counting) (call_of 6 (codes "hover") ∷ [])),
    )
session_lem_example =
    session_lem counting 0 (call_of 1 (codes "hover") ∷ [])
      (notification (codes "didOpen") ∷ call_of 3 (codes "hover") ∷ [])
      (call_of 6 (codes "hover") ∷ []) (call_of 7 (codes "hover") ∷ [])
      (call_of 2 (codes "initialize")) (call_of 5 (codes "shutdown")) (notification (codes "exit"))
      refl refl refl refl refl refl

-- After `shutdown`, three calls of `readJson` on an input of which nothing is left.
end_of_input_runs_on_example :
    (reqs : List (RpcRequest ℕ)) × (read_requests counting
        (λ c. unreadable c)
        1
        3
        (record { left = []; good = true })
        (codes "x")
        []
      ≡ some reqs)
    × ((run counting stopping 4 reqs).0 ≡ stopping)
    × (stopping ≢ running
        → run counting stopping 4 reqs ≡ (stopping, 4, replicate 3 (phase_error counting stopping)))
end_of_input_runs_on_example =
    end_of_input_runs_on counting (λ c. unreadable c) 0 3 (record { left = []; good = true })
      (codes "x") [] stopping 4 refl (λ e. cc)

-- A notification, a request of a method that has no handler, and two that have one, of which one throws.
handle_all-ids_example :
    map id_of
      (handle_all counting 4 (
        notification (codes "didOpen")
        ∷ call_of 3 (codes "hover")
        ∷ call_of 5 (codes "missing")
        ∷ call_of 6 (codes "refuse")
        ∷ [])).1
    ≡ ids_to_answer counting (
        notification (codes "didOpen")
        ∷ call_of 3 (codes "hover")
        ∷ call_of 5 (codes "missing")
        ∷ call_of 6 (codes "refuse")
        ∷ [])
handle_all-ids_example = handle_all-ids counting 4 (
    notification (codes "didOpen")
    ∷ call_of 3 (codes "hover")
    ∷ call_of 5 (codes "missing")
    ∷ call_of 6 (codes "refuse")
    ∷ [])

-- A content is a reply if it starts with `r`, and else the request that it is.
abbrev parse_first : Bytes → Content Bytes
parse_first [] = unreadable (codes "empty")
parse_first (c ∷ s) = if c == b'r' then reply else request (c ∷ s)

read_json-send_all_example :
    read_json parse_first 3
      (record {
        left =
            send_all parse_first (codes "r1" ∷ []) ++ (send_message (codes "q22") ++ codes "rest");
        good = true;
      })
      []
      []
      []
    ≡ read (codes "q22") (record { left = codes "rest"; good = true }) (b'\r' ∷ []) (codes "q22") []
read_json-send_all_example =
    read_json-send_all parse_first (codes "r1" ∷ []) (codes "q22") (codes "rest") [] [] []
      (codes "q22") ((refl, omega arith), tt) refl (omega arith)
