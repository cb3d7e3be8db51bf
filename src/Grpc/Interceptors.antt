-- ===== src/Grpc/Interceptors.antt =====
-- internal/platform/grpcx/interceptors.go.
use go_ddd.Prelude.{◌≡◌, refl, List, [], ◌∷◌, ◌++◌}
use go_ddd.Prelude.Text.{Text, codes}
use go_ddd.Prelude.Result.{Code, ok_code, unknown, internal, status_error, Result, ok, err}

-- How a unary handler ends.
pub data Reply (A : Type 0) : Type 0 where
  replies : Result A → Reply A
  crashes : Text → Reply A

-- Log records, without their durations.
pub data LogRecord : Type 0 where
  -- method, panic
  panic_logged : Text → Text → LogRecord
  -- method, code
  request_logged : Text → Code → LogRecord

-- The state behind a handler, with the log.
abbrev pub Logged : Type 0 → Type 0
Logged S = S × List LogRecord

abbrev pub Handler : Type 0 → Type 0 → Type 0
Handler S A = Logged S → Reply A × Logged S

-- A unary interceptor, for a method.
abbrev pub Interceptor : Type 0 → Type 0 → Type 0
Interceptor S A = Text → Handler S A → Handler S A

-- `status.Code`
unfoldable pub code_of : {A : Type 0} → Result A → Code
code_of (ok a) = ok_code
code_of (err (status_error c msg)) = c
code_of (err _) = unknown

module _ {S A : Type 0} where
  rescued : Text → Reply A × Logged S → Reply A × Logged S
  rescued method (replies r, s) = (replies r, s)
  rescued method (crashes p, (s, log)) = (
    replies (err (status_error internal (codes "internal server error"))),
    (s, log ++ panic_logged method p ∷ []),
  )

  -- `Recovery`
  unfoldable pub recovery : Interceptor S A
  unfolding rescued
  recovery method handler s = rescued method (handler s)

  noted : Text → Reply A × Logged S → Reply A × Logged S
  noted method (crashes p, s) = (crashes p, s)
  noted method (replies r, (s, log)) =
      (replies r, (s, log ++ request_logged method (code_of r) ∷ []))

  -- `AccessLog`: a panic passes it by.
  unfoldable pub access_log : Interceptor S A
  unfolding noted code_of
  access_log method handler s = noted method (handler s)

  -- The interceptors of `Build`, in their order.
  abbrev pub interceptors : List (Interceptor S A)
  interceptors = recovery ∷ access_log ∷ []

  -- What a call leaves, by how its handler ended.
  abbrev pub Settled : Text → Reply A × Logged S → Reply A × Logged S → Type 0
  Settled method (replies r, (s, log)) p =
      p ≡ (replies r, (s, log ++ request_logged method (code_of r) ∷ []))
  Settled method (crashes x, (s, log)) p = p ≡ (
    replies (err (status_error internal (codes "internal server error"))),
    (s, log ++ panic_logged method x ∷ []),
  )

  settles :
      (method : Text) (p : Reply A × Logged S) → Settled method p (rescued method (noted method p))
  unfolding rescued noted
  settles method (replies r, (s, log)) = refl
  settles method (crashes x, (s, log)) = refl

  -- What `grpc.ChainUnaryInterceptor` promises: the first interceptor is the outermost, and around
  -- the handler itself there is none.
  abbrev pub IsChain : (List (Interceptor S A) → Interceptor S A) → Type 0
  IsChain chain =
      ((method : Text) (handler : Handler S A) (s : Logged S)
        → chain [] method handler s ≡ handler s)
      × ((i : Interceptor S A) (is : List (Interceptor S A)) (method : Text) (handler : Handler S A)
            (s : Logged S)
          → chain (i ∷ is) method handler s ≡ i method (chain is method handler) s)

  -- No panic of a handler gets out of the server, if the chain runs its first interceptor
  -- outermost. A reply goes out as it is, with one record of its code; a panic becomes the status
  -- Internal without its text, and the log has the panic alone: no record of the request.
  pub interceptors_settle :
      (chain : List (Interceptor S A) → Interceptor S A) (method : Text) (handler : Handler S A)
      (s : Logged S)
      → IsChain chain
      → Settled method (handler s) (chain interceptors method handler s)
  unfolding recovery access_log
  interceptors_settle chain method handler s (bare, outer) =
      rw
        (
          outer recovery (access_log ∷ []) method handler s,
          outer access_log [] method handler s,
          bare method handler s,
        )
        (settles method (handler s))
