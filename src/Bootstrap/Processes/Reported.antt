-- ===== src/Bootstrap/Processes/Reported.antt =====
-- What a process reports of the errors of its loops.
use go_ddd.Prelude.{
  ℕ, ◌+◌, ◌≡◌, refl, ap, ◌∙◌, Bool, true, false, Option, none, some, List, [], ◌∷◌, ◌++◌, arith,
}
use go_ddd.Prelude.Result.{Error}
use go_ddd.Bootstrap.Processes.{
  Ending, hard, Joined, logged_by, log_hard, join, Background, relay_alone, relay_first, relay_last,
  run_background, HttpRun, serve_fails, shuts_down, shuts_down_unread, http_run, GrpcRun,
  listen_fails, serve_ends, stops_gracefully, stops_unread, grpc_run, of_error, Order,
  http_grpc_background, http_background_grpc, grpc_http_background, grpc_background_http,
  background_http_grpc, background_grpc_http, arrivals, Exit, finish, api_run,
}

-- The loops in the background.
abbrev pub endings : Background → List Ending
endings (relay_alone relay) = relay ∷ []
endings (relay_first relay bus) = relay ∷ bus ∷ []
endings (relay_last relay bus) = relay ∷ bus ∷ []

-- The errors of the servers, and those of them that Run leaves unread in its channel.
abbrev pub http_errors : HttpRun → List Error
http_errors (serve_fails e) = e ∷ []
http_errors (shuts_down none) = []
http_errors (shuts_down (some e)) = e ∷ []
http_errors (shuts_down_unread e none) = e ∷ []
http_errors (shuts_down_unread e (some x)) = e ∷ x ∷ []

abbrev pub http_unread : HttpRun → List Error
http_unread (serve_fails e) = []
http_unread (shuts_down o) = []
http_unread (shuts_down_unread e o) = e ∷ []

abbrev pub grpc_errors : GrpcRun → List Error
grpc_errors (listen_fails e) = e ∷ []
grpc_errors (serve_ends none) = []
grpc_errors (serve_ends (some e)) = e ∷ []
grpc_errors stops_gracefully = []
grpc_errors (stops_unread e) = e ∷ []

abbrev pub grpc_unread : GrpcRun → List Error
grpc_unread (listen_fails e) = []
grpc_unread (serve_ends o) = []
grpc_unread stops_gracefully = []
grpc_unread (stops_unread e) = e ∷ []

module _ (p : Error → Bool) where
  abbrev one : Bool → ℕ
  one true = 1
  one false = 0

  -- How many of the errors have the property.
  abbrev pub tally : Option Error → ℕ
  tally none = 0
  tally (some e) = one (p e)

  abbrev pub count : List Error → ℕ
  count [] = 0
  count (e ∷ es) = tally (some e) + count es

  abbrev pub total : List Ending → ℕ
  total [] = 0
  total (x ∷ xs) = tally (hard x) + total xs

  abbrev pub reported : Exit → ℕ
  reported x = tally x.error + count x.logged

  count-append : (xs ys : List Error) → count (xs ++ ys) ≡ count xs + count ys
  count-append [] ys = omega arith
  count-append (x ∷ xs) ys = omega (arith, count-append xs ys)

  count-logged_by :
      (o : Option Error) (es : List Error) → count (logged_by o es) ≡ tally o + count es
  unfolding logged_by
  count-logged_by none es = omega arith
  count-logged_by (some e) es = refl

  count-log_hard : (xs : List Ending) → count (log_hard xs) ≡ total xs
  unfolding log_hard
  count-log_hard [] = refl
  count-log_hard (x ∷ xs) =
      count-logged_by (hard x) (log_hard xs) ∙ ap (λ n. tally (hard x) + n) (count-log_hard xs)

  abbrev joined : Joined → ℕ
  joined j = tally (hard j.first) + count j.logged

  joined-join : (x : Ending) (xs : List Ending) → joined (join x xs) ≡ tally (hard x) + total xs
  unfolding join
  joined-join x xs = ap (λ n. tally (hard x) + n) (count-log_hard xs)

  joined-arrivals :
      (order : Order) (h g b : Ending)
      → joined (arrivals order h g b) ≡ tally (hard h) + tally (hard g) + tally (hard b)
  unfolding arrivals
  joined-arrivals http_grpc_background h g b = omega (arith, joined-join h (g ∷ b ∷ []))
  joined-arrivals http_background_grpc h g b = omega (arith, joined-join h (b ∷ g ∷ []))
  joined-arrivals grpc_http_background h g b = omega (arith, joined-join g (h ∷ b ∷ []))
  joined-arrivals grpc_background_http h g b = omega (arith, joined-join g (b ∷ h ∷ []))
  joined-arrivals background_http_grpc h g b = omega (arith, joined-join b (h ∷ g ∷ []))
  joined-arrivals background_grpc_http h g b = omega (arith, joined-join b (g ∷ h ∷ []))

  joined-run_background : (b : Background) → joined (run_background b) ≡ total (endings b)
  unfolding run_background
  joined-run_background (relay_alone relay) = joined-join relay []
  joined-run_background (relay_first relay bus) = joined-join relay (bus ∷ [])
  joined-run_background (relay_last relay bus) = omega (arith, joined-join bus (relay ∷ []))

  reported-finish :
      (before : List Error) (j : Joined) → reported (finish before j) ≡ count before + joined j
  unfolding finish
  reported-finish before j = omega (arith, count-append before j.logged)

  http_run-errors :
      (h : HttpRun) → tally (hard (http_run h)) + count (http_unread h) ≡ count (http_errors h)
  unfolding http_run of_error hard
  http_run-errors (serve_fails e) = refl
  http_run-errors (shuts_down none) = refl
  http_run-errors (shuts_down (some e)) = refl
  http_run-errors (shuts_down_unread e none) = omega arith
  http_run-errors (shuts_down_unread e (some x)) = omega arith

  grpc_run-errors :
      (g : GrpcRun) → tally (hard (grpc_run g)) + count (grpc_unread g) ≡ count (grpc_errors g)
  unfolding grpc_run of_error hard
  grpc_run-errors (listen_fails e) = refl
  grpc_run-errors (serve_ends none) = refl
  grpc_run-errors (serve_ends (some e)) = refl
  grpc_run-errors stops_gracefully = refl
  grpc_run-errors (stops_unread e) = omega arith

  -- In whatever order its parts end, the API process reports each error of the HTTP server, the
  -- gRPC server and the loops in the background exactly once, as what it returns or in the log,
  -- save that the context was cancelled, and save the error with which a server had stopped to
  -- serve when its Run took the end of the context first: that one is reported nowhere. Of every
  -- kind of errors, those reported and those left unread are together as many as there were.
  pub api_run-reported :
      (order : Order) (http : HttpRun) (grpc : GrpcRun) (background : Background)
      → reported (api_run order http grpc background)
          + (count (http_unread http) + count (grpc_unread grpc))
        ≡ count (http_errors http) + count (grpc_errors grpc) + total (endings background)
  unfolding api_run
  api_run-reported order http grpc background =
      let inner = run_background background in
      let all = arrivals order (http_run http) (grpc_run grpc) inner.first in
      omega (
        arith,
        reported-finish inner.logged all,
        joined-arrivals order (http_run http) (grpc_run grpc) inner.first,
        joined-run_background background,
        http_run-errors http,
        grpc_run-errors grpc,
      )
