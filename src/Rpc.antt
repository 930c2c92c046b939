-- ===== src/Rpc.antt =====
-- include/lsp/JsonRpcServer.h and the messages of include/lsp/JsonRpc.h: the dispatch of a message to
-- a handler, and the phases of the server. `S` is the state behind the handlers and `G` is
-- `rfl::Generic`; what an exception's `what()` says is a text.
pub mod Framing
pub mod Frames
pub mod Session
pub mod Replies
pub mod Ended
mod Tests
use slang_server.Common.{
  ℕ, Bool, true, false, List, [], ◌∷◌, ◌++◌, Option, none, some, Bytes, equal, if◌then◌else◌,
  bytes_eq, codes,
}
use slang_server.Common.Dict.{find, assign}

-- `negsuc n` is -(n + 1).
pub data ℤ : Type 0 where
  pos : ℕ → ℤ
  negsuc : ℕ → ℤ

-- An id is an int or a string.
pub data RequestId : Type 0 where
  int_id : ℤ → RequestId
  string_id : Bytes → RequestId

pub record RpcRequest (G : Type 0) : Type 0 where
  pub id : Option RequestId
  pub method : Bytes
  pub params : Option G

pub data RpcMessage (G : Type 0) : Type 0 where
  response : Option RequestId → G → RpcMessage G
  error_response : Option RequestId → ℤ → Bytes → RpcMessage G

-- What a call of a handler gives: a value, or an exception.
pub data Outcome (R : Type 0) : Type 0 where
  returned : R → Outcome R
  threw : Bytes → Outcome R

-- The result of decoding parameters.
pub data Decoded (P : Type 0) : Type 0 where
  decoded : P → Decoded P
  undecodable : Bytes → Decoded P

-- `std::variant<rfl::Generic, RpcError, std::nullopt_t>`
pub data Reply (G : Type 0) : Type 0 where
  result : G → Reply G
  failed : ℤ → Bytes → Reply G
  no_reply : Reply G

pub data Phase : Type 0 where
  starting running stopping exited : Phase

abbrev call_decoded : {S P R : Type 0} → (S → P → S × Outcome R) → S → Decoded P → S × Outcome R
call_decoded method s (decoded p) = method s p
call_decoded method s (undecodable why) = (s, threw why)

module _ {S G : Type 0} where
  abbrev encode_outcome : {R : Type 0} → (R → G) → S × Outcome R → S × Outcome G
  encode_outcome encode (s, returned r) = (s, returned (encode r))
  encode_outcome encode (s, threw why) = (s, threw why)

  -- `registerMethod`, for a method with parameters: `decode` and `encode` are rfl's.
  unfoldable pub register_method :
      {P R : Type 0}
      → (G → Decoded P)
      → (R → G)
      → (S → P → S × Outcome R)
      → Bytes
      → List (Bytes × (S → G → S × Outcome G))
      → List (Bytes × (S → G → S × Outcome G))
  unfolding assign
  register_method decode encode method name requests =
      assign name (λ s json. encode_outcome encode (call_decoded method s (decode json))) requests

  -- `registerMethod`, for a method whose result is `std::monostate`: the method is not called.
  unfoldable pub register_void :
      G → Bytes → List (Bytes × (S → G → S × Outcome G)) → List (Bytes × (S → G → S × Outcome G))
  unfolding assign
  register_void null name requests = assign name (λ s json. (s, returned null)) requests

  -- `registerNotification`, for a method with parameters.
  unfoldable pub register_notification :
      {P : Type 0}
      → (G → Decoded P)
      → (S → P → S × Outcome (Unit {0}))
      → Bytes
      → List (Bytes × (S → G → S × Outcome (Unit {0})))
      → List (Bytes × (S → G → S × Outcome (Unit {0})))
  unfolding assign
  register_notification decode method name notifications =
      assign name (λ s json. call_decoded method s (decode json)) notifications

-- The tables of handlers, and the empty `rfl::Generic` that stands in for missing parameters.
pub record Registry (S G : Type 0) : Type 0 where
  pub requests : List (Bytes × (S → G → S × Outcome G))
  pub notifications : List (Bytes × (S → G → S × Outcome (Unit {0})))
  pub null : G

module _ {S G : Type 0} (r : Registry S G) where
  abbrev pub params_or_null : Option G → G
  params_or_null none = r.null
  params_or_null (some p) = p

  -- An exception of a notification's handler is logged and goes no further.
  abbrev notify : Option (S → G → S × Outcome (Unit {0})) → G → S → S
  notify none params s = s
  notify (some handler) params s = (handler s params).0

  abbrev pub reply_of : S × Outcome G → S × Reply G
  reply_of (s, returned g) = (s, result g)
  reply_of (s, threw why) = (s, failed (pos 1) why)

  abbrev pub call : Option (S → G → S × Outcome G) → G → S → S × Reply G
  call none params s = (s, no_reply)
  call (some handler) params s = reply_of (handler s params)

  abbrev pub process : Option RequestId → Bytes → G → S → S × Reply G
  process none method params s = (notify (find method r.notifications) params s, no_reply)
  process (some id) method params s = call (find method r.requests) params s

  unfoldable pub process_message : RpcRequest G → S → S × Reply G
  process_message req s = process req.id req.method (params_or_null req.params) s

  abbrev pub messages_of : Option RequestId → S × Reply G → S × List (RpcMessage G)
  messages_of id (s, result g) = (s, response id g ∷ [])
  messages_of id (s, failed code why) = (s, error_response id code why ∷ [])
  messages_of id (s, no_reply) = (s, [])

  unfoldable pub handle_message : RpcRequest G → S → S × List (RpcMessage G)
  unfolding process_message
  handle_message req s = messages_of req.id (process_message req s)

  abbrev pub not_initialized : RpcRequest G → RpcMessage G
  not_initialized req = error_response req.id (negsuc 32001) (codes "Server not initialized")

  abbrev pub invalid_request : RpcRequest G → RpcMessage G
  invalid_request req = error_response req.id (negsuc 32599) (codes "Invalid Request")

  abbrev in_phase : Phase → S × List (RpcMessage G) → Phase × S × List (RpcMessage G)
  in_phase p (s, out) = (p, s, out)

  -- One message, in the three loops of `run`.
  unfoldable pub step : Phase → S → RpcRequest G → Phase × S × List (RpcMessage G)
  unfolding handle_message
  step starting s req =
      if equal req.method (codes "initialize")
      then in_phase running (handle_message req s)
      else (starting, s, not_initialized req ∷ [])
  step running s req =
      in_phase (if equal req.method (codes "shutdown") then stopping else running)
        (handle_message req s)
  step stopping s req =
      if equal req.method (codes "exit")
      then (exited, s, [])
      else (stopping, s, invalid_request req ∷ [])
  step exited s req = (exited, s, [])

  abbrev pub sent_before :
      List (RpcMessage G) → Phase × S × List (RpcMessage G) → Phase × S × List (RpcMessage G)
  sent_before out (p, s, later) = (p, s, out ++ later)

  -- `run` on the messages that arrive: where it stands, the state, and what it has sent.
  unfoldable pub run : Phase → S → List (RpcRequest G) → Phase × S × List (RpcMessage G)
  unfolding step
  run p s [] = (p, s, [])
  run p s (req ∷ reqs) = let (p', s', out) = step p s req in sent_before out (run p' s' reqs)
