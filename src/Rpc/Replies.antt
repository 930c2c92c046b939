-- ===== src/Rpc/Replies.antt =====
-- The replies of `processMessage` and `handleMessage` of include/lsp/JsonRpcServer.h.
use slang_server.Common.{
  Bool, true, false, List, [], ◌∷◌, ◌++◌, Option, none, some, Bytes, bytes_eq, map, if◌then◌else◌,
  ◌≡◌, refl, ap, ◌∙◌,
}
use slang_server.Common.Dict.{find}
use slang_server.Rpc.{
  RequestId, RpcRequest, RpcMessage, response, error_response, Outcome, returned, threw, Registry,
  handle_message, process_message, messages_of, process, params_or_null, call, reply_of,
}
use slang_server.Rpc.Session.{handle_all}

abbrev is_some : {A : Type 0} → Option A → Bool
is_some none = false
is_some (some a) = true

-- The id that a message carries.
abbrev pub id_of : {G : Type 0} → RpcMessage G → Option RequestId
id_of (response id g) = id
id_of (error_response id code why) = id

map-append : {A B : Type 0} (f : A → B) (xs ys : List A) → map f (xs ++ ys) ≡ map f xs ++ map f ys
map-append f [] ys = refl
map-append f (x ∷ xs) ys = ap (◌∷◌ (f x)) (map-append f xs ys)

module _ {S G : Type 0} (r : Registry S G) where
  abbrev with_id : Bool → Option RequestId → List (Option RequestId)
  with_id known none = []
  with_id known (some id) = if known then some id ∷ [] else []

  -- The ids of the messages that have one and whose method has a request handler, in their order.
  unfoldable pub ids_to_answer : List (RpcRequest G) → List (Option RequestId)
  ids_to_answer [] = []
  ids_to_answer (req ∷ reqs) =
      with_id (is_some (find req.method r.requests)) req.id ++ ids_to_answer reqs

  called-ids :
      (id : RequestId) (handler : Option (S → G → S × Outcome G)) (params : G) (s : S)
      → map id_of (messages_of r (some id) (call r handler params s)).1
        ≡ with_id (is_some handler) (some id)
  called-ids id none params s = refl
  called-ids id (some handler) params s = replied (handler s params)
    where
      replied :
          (t : S × Outcome G) → map id_of (messages_of r (some id) (reply_of r t)).1 ≡ some id ∷ []
      replied (s, returned g) = refl
      replied (s, threw why) = refl

  processed-ids :
      (id : Option RequestId) (method : Bytes) (params : G) (s : S)
      → map id_of (messages_of r id (process r id method params s)).1
        ≡ with_id (is_some (find method r.requests)) id
  processed-ids none method params s = refl
  processed-ids (some id) method params s = called-ids id (find method r.requests) params s

  handle_message-ids :
      (req : RpcRequest G) (s : S)
      → map id_of (handle_message r req s).1 ≡ with_id (is_some (find req.method r.requests)) req.id
  unfolding handle_message process_message
  handle_message-ids req s = processed-ids req.id req.method (params_or_null r req.params) s

  -- Whatever messages a running server handles, and whether their handlers return or throw: its
  -- replies carry the ids of the messages that have an id and whose method has a request handler,
  -- each once and in their order. No other message is answered.
  pub handle_all-ids :
      (s : S) (reqs : List (RpcRequest G)) → map id_of (handle_all r s reqs).1 ≡ ids_to_answer reqs
  unfolding handle_all ids_to_answer
  handle_all-ids s [] = refl
  handle_all-ids s (req ∷ reqs) =
      map-append id_of (handle_message r req s).1 (handle_all r (handle_message r req s).0 reqs).1
      ∙ rw (handle_message-ids req s) (rw (handle_all-ids (handle_message r req s).0 reqs) refl)
