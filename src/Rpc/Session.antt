-- ===== src/Rpc/Session.antt =====
-- The whole life of the server of include/lsp/JsonRpcServer.h.
use slang_server.Common.{
  ℕ, zero, suc, Bool, true, false, not, List, [], ◌∷◌, ◌++◌, none, Bytes, equal, codes, map, all,
  replicate, ◌≡◌, ◌≢◌, refl, ◌∙◌, ap, arith, append_assoc, append-nil,
}
use slang_server.Rpc.{
  RpcRequest, RpcMessage, Phase, starting, running, stopping, exited, Registry, handle_message,
  not_initialized, invalid_request, sent_before, step, run,
}

-- No request of the list has this method.
abbrev pub none_is : {G : Type 0} → Bytes → List (RpcRequest G) → Bool
none_is method reqs = all (λ req. not (equal req.method method)) reqs

module _ {S G : Type 0} (r : Registry S G) where
  -- Every message is handled, one after the other.
  unfoldable pub handle_all : S → List (RpcRequest G) → S × List (RpcMessage G)
  handle_all s [] = (s, [])
  handle_all s (req ∷ reqs) =
      let (s', out) = handle_message r req s in
      let (s'', later) = handle_all s' reqs in (s'', out ++ later)

  abbrev after :
      S × List (RpcMessage G)
      → (S → Phase × S × List (RpcMessage G))
      → Phase × S × List (RpcMessage G)
  after (s, out) next = sent_before r out (next s)

  run_starting :
      (s : S) (pre more : List (RpcRequest G))
      → none_is (codes "initialize") pre ≡ true
      → run r starting s (pre ++ more)
        ≡ sent_before r (map (not_initialized r) pre) (run r starting s more)
  unfolding run step
  run_starting s [] more h = refl
  run_starting s (req ∷ pre) more h = ground (arith, run_starting s pre more)

  run_stopping :
      (s : S) (post more : List (RpcRequest G))
      → none_is (codes "exit") post ≡ true
      → run r stopping s (post ++ more)
        ≡ sent_before r (map (invalid_request r) post) (run r stopping s more)
  unfolding run step
  run_stopping s [] more h = refl
  run_stopping s (req ∷ post) more h = ground (arith, run_stopping s post more)

  step_running :
      (s : S) (req : RpcRequest G)
      → equal req.method (codes "shutdown") ≡ false
      → step r running s req ≡ (running, (handle_message r req s).0, (handle_message r req s).1)
  unfolding step
  step_running s req h = rw h

  run-cons :
      (p : Phase) (s : S) (req : RpcRequest G) (reqs : List (RpcRequest G))
      → run r p s (req ∷ reqs)
        ≡ sent_before r (step r p s req).2 (run r (step r p s req).0 (step r p s req).1 reqs)
  unfolding run
  run-cons p s req reqs = refl

  run-nil : (p : Phase) (s : S) → run r p s [] ≡ (p, s, [])
  unfolding run
  run-nil p s = refl

  after_assoc :
      (out later : List (RpcMessage G)) (t : Phase × S × List (RpcMessage G))
      → sent_before r out (sent_before r later t) ≡ sent_before r (out ++ later) t
  after_assoc out later (p, s, rest) = rw append_assoc

  run_running :
      (s : S) (mid more : List (RpcRequest G))
      → none_is (codes "shutdown") mid ≡ true
      → run r running s (mid ++ more) ≡ after (handle_all s mid) (λ s'. run r running s' more)
  unfolding handle_all
  run_running s [] more h = refl
  run_running s (req ∷ mid) more h =
      run-cons running s req (mid ++ more)
      ∙ rw (step_running s req (ground arith)) (
          rw (run_running (handle_message r req s).0 mid more (ground arith)) (
            after_assoc (handle_message r req s).1 (handle_all (handle_message r req s).0 mid).1 _))

  handle_all-concat :
      (s : S) (mid : List (RpcRequest G)) (last : RpcRequest G)
      → handle_all s (mid ++ last ∷ []) ≡ (
        (handle_message r last (handle_all s mid).0).0,
        (handle_all s mid).1 ++ (handle_message r last (handle_all s mid).0).1,
      )
  unfolding handle_all
  handle_all-concat s [] last = rw append-nil
  handle_all-concat s (req ∷ mid) last =
      rw (handle_all-concat (handle_message r req s).0 mid last) (rw append_assoc)

  step_shutdown :
      (s : S) (req : RpcRequest G)
      → req.method ≡ codes "shutdown"
      → step r running s req ≡ (stopping, (handle_message r req s).0, (handle_message r req s).1)
  unfolding step
  step_shutdown s req h = rw h

  step_initialize :
      (s : S) (req : RpcRequest G)
      → req.method ≡ codes "initialize"
      → step r starting s req ≡ (running, (handle_message r req s).0, (handle_message r req s).1)
  unfolding step
  step_initialize s req h = rw h

  step_exit :
      (s : S) (req : RpcRequest G)
      → req.method ≡ codes "exit"
      → step r stopping s req ≡ (exited, s, [])
  unfolding step
  step_exit s req h = rw h

  run_exited : (s : S) (reqs : List (RpcRequest G)) → run r exited s reqs ≡ (exited, s, [])
  unfolding run step
  run_exited s [] = refl
  run_exited s (req ∷ reqs) = rw (run_exited s reqs)

  run_to_exit :
      (s : S) (post rest : List (RpcRequest G)) (last : RpcRequest G)
      → none_is (codes "exit") post ≡ true
      → last.method ≡ codes "exit"
      → run r stopping s (post ++ last ∷ rest) ≡ (exited, s, map (invalid_request r) post)
  run_to_exit s post rest last h e =
      run_stopping s post (last ∷ rest) h
      ∙ rw (run-cons stopping s last rest)
          (rw (step_exit s last e) (rw (run_exited s rest) (rw append-nil)))

  run_whole :
      (s : S) (mid post rest : List (RpcRequest G)) (shut last : RpcRequest G)
      → none_is (codes "shutdown") mid ≡ true
      → shut.method ≡ codes "shutdown"
      → none_is (codes "exit") post ≡ true
      → last.method ≡ codes "exit"
      → let live = handle_all s (mid ++ shut ∷ []) in
        run r running s (mid ++ shut ∷ (post ++ last ∷ rest))
        ≡ (exited, live.0, live.1 ++ map (invalid_request r) post)
  run_whole s mid post rest shut last hm hs hq he =
      run_running s mid (shut ∷ (post ++ last ∷ rest)) hm
      ∙ rw (run-cons running (handle_all s mid).0 shut (post ++ last ∷ rest)) (
          rw (step_shutdown (handle_all s mid).0 shut hs) (
            rw (run_to_exit (handle_message r shut (handle_all s mid).0).0 post rest last hq he)
              (rw (handle_all-concat s mid shut) (rw append_assoc))))

  -- From `initialize` to `shutdown`, both included, the messages are handled one after the other;
  -- what comes before, and what comes between `shutdown` and `exit`, is answered by an error with
  -- its id and reaches no handler; nothing behind `exit` is read.
  pub session_lem :
      (s : S) (pre mid post rest : List (RpcRequest G)) (init shut exit_ : RpcRequest G)
      → none_is (codes "initialize") pre ≡ true
      → init.method ≡ codes "initialize"
      → none_is (codes "shutdown") mid ≡ true
      → shut.method ≡ codes "shutdown"
      → none_is (codes "exit") post ≡ true
      → exit_.method ≡ codes "exit"
      → let live = handle_all s (init ∷ (mid ++ shut ∷ [])) in
        run r starting s (pre ++ init ∷ (mid ++ shut ∷ (post ++ exit_ ∷ rest)))
        ≡ (exited, live.0, map (not_initialized r) pre ++ (live.1 ++ map (invalid_request r) post))
  session_lem s pre mid post rest init shut exit_ hp hi hm hs hq he =
      run_starting s pre (init ∷ (mid ++ shut ∷ (post ++ exit_ ∷ rest))) hp
      ∙ rw (run-cons starting s init (mid ++ shut ∷ (post ++ exit_ ∷ rest))) (
          rw (step_initialize s init hi) (
            rw (run_whole (handle_message r init s).0 mid post rest shut exit_ hm hs hq he)
              (unfold handle_all in rw append_assoc)))

  -- `readJson` gives a default request once the input has ended.
  abbrev pub default_request : RpcRequest G
  default_request = record { id = none; method = []; params = none }

  -- The error that a phase sends for it.
  abbrev pub phase_error : Phase → RpcMessage G
  phase_error starting = not_initialized r default_request
  phase_error p = invalid_request r default_request

  running_cons :
      (s : S) (reqs : List (RpcRequest G))
      → (run r running s (default_request ∷ reqs)).0
        ≡ (run r running (handle_message r default_request s).0 reqs).0
  running_cons s reqs =
      ap (λ t. t.0) (run-cons running s default_request reqs)
      ∙ rw (step_running s default_request refl) refl

  running_on : (n : ℕ) (s : S) → (run r running s (replicate n default_request)).0 ≡ running
  running_on zero s = ap (λ t. t.0) (run-nil running s)
  running_on (suc n) s =
      running_cons s (replicate n default_request)
      ∙ running_on n (handle_message r default_request s).0

  waiting_on :
      (n : ℕ) (p : Phase) (s : S)
      → p ≢ running
      → p ≢ exited
      → run r p s (replicate n default_request) ≡ (p, s, replicate n (phase_error p))
  unfolding run step
  waiting_on zero p s h k = refl
  waiting_on (suc n) starting s h k = rw (waiting_on n starting s h k)
  waiting_on (suc n) stopping s h k = rw (waiting_on n stopping s h k)
  waiting_on (suc n) running s h k = absurd (h refl)
  waiting_on (suc n) exited s h k = absurd (k refl)

  -- On default requests the server never leaves its phase, and before `initialize` and after
  -- `shutdown` each of them sends one more error and reaches no handler.
  pub run-default :
      (n : ℕ) (p : Phase) (s : S)
      → p ≢ exited
      → ((run r p s (replicate n default_request)).0 ≡ p)
        × (p ≢ running
            → run r p s (replicate n default_request) ≡ (p, s, replicate n (phase_error p)))
  run-default n running s k = (running_on n s, λ h. absurd (h refl))
  run-default n starting s k =
      (ap (λ t. t.0) (waiting_on n starting s (λ e. cc) k), λ h. waiting_on n starting s h k)
  run-default n stopping s k =
      (ap (λ t. t.0) (waiting_on n stopping s (λ e. cc) k), λ h. waiting_on n stopping s h k)
  run-default n exited s k = absurd (k refl)
