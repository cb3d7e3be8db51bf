-- ===== src/Bootstrap/Processes.antt =====
-- How the loops of a process end: RunBackground (application.go), the servers' Run (httpx and
-- grpcx), and cmd/api and cmd/worker.
pub mod Reported
use go_ddd.Prelude.{
  ◌≡◌, refl, Bool, true, false, Option, none, some, List, [], ◌∷◌, ◌++◌, ◌⊎◌, inl, inr, All,
}
use go_ddd.Prelude.Result.{Error}

-- What a loop returns: nil, context.Canceled, or another error.
pub data Ending : Type 0 where
  stops cancelled : Ending
  fails : Error → Ending

-- `err != nil && !errors.Is(err, context.Canceled)`
unfoldable pub hard : Ending → Option Error
hard stops = none
hard cancelled = none
hard (fails e) = some e

-- What the first loop to end has returned, and the errors that are logged.
pub record Joined : Type 0 where
  pub first : Ending
  pub logged : List Error

logged_by : Option Error → List Error → List Error
logged_by none rest = rest
logged_by (some e) rest = e ∷ rest

log_hard : List Ending → List Error
unfolding logged_by hard
log_hard [] = []
log_hard (x ∷ xs) = logged_by (hard x) (log_hard xs)

-- The first of the loops is cancelled for the others, which are waited for in the order in which
-- they end.
join : Ending → List Ending → Joined
unfolding log_hard
join x xs = record { first = x; logged = log_hard xs }

-- `RunBackground`: with a bus that has no loop of its own the relay runs alone; otherwise the two
-- end one before the other.
pub data Background : Type 0 where
  relay_alone : Ending → Background
  relay_first relay_last : (relay bus : Ending) → Background

unfoldable pub run_background : Background → Joined
unfolding join
run_background (relay_alone relay) = join relay []
run_background (relay_first relay bus) = join relay (bus ∷ [])
run_background (relay_last relay bus) = join bus (relay ∷ [])

-- httpx.Server.Run: the select takes the error of serving, or that the context is done, and then
-- the shutdown answers. In the last case serving had failed as well, and its error is left in the
-- channel. The error ErrServerClosed is no failure.
pub data HttpRun : Type 0 where
  serve_fails : Error → HttpRun
  shuts_down : Option Error → HttpRun
  shuts_down_unread : Error → Option Error → HttpRun

of_error : Option Error → Ending
of_error none = stops
of_error (some e) = fails e

unfoldable pub http_run : HttpRun → Ending
unfolding of_error
http_run (serve_fails e) = fails e
http_run (shuts_down o) = of_error o
http_run (shuts_down_unread e o) = of_error o

-- grpcx.Server.Run: the address cannot be bound, serving ends by itself, or the context is done; in
-- the last case serving had ended with an error as well, which is left in the channel.
pub data GrpcRun : Type 0 where
  listen_fails : Error → GrpcRun
  serve_ends : Option Error → GrpcRun
  stops_gracefully : GrpcRun
  stops_unread : Error → GrpcRun

unfoldable pub grpc_run : GrpcRun → Ending
unfolding of_error
grpc_run (listen_fails e) = fails e
grpc_run (serve_ends o) = of_error o
grpc_run stops_gracefully = stops
grpc_run (stops_unread e) = stops

-- The order in which the three parts of the API process end.
pub data Order : Type 0 where
  http_grpc_background http_background_grpc grpc_http_background : Order
  grpc_background_http background_http_grpc background_grpc_http : Order

arrivals : Order → (http grpc background : Ending) → Joined
unfolding join
arrivals http_grpc_background h g b = join h (g ∷ b ∷ [])
arrivals http_background_grpc h g b = join h (b ∷ g ∷ [])
arrivals grpc_http_background h g b = join g (h ∷ b ∷ [])
arrivals grpc_background_http h g b = join g (b ∷ h ∷ [])
arrivals background_http_grpc h g b = join b (h ∷ g ∷ [])
arrivals background_grpc_http h g b = join b (g ∷ h ∷ [])

-- What `run` returns, and the errors that the process has logged.
pub record Exit : Type 0 where
  pub error : Option Error
  pub logged : List Error

finish : List Error → Joined → Exit
unfolding hard
finish before j = record { error = hard j.first; logged = before ++ j.logged }

-- `run` of cmd/api, once the application is built
unfoldable pub api_run : Order → HttpRun → GrpcRun → Background → Exit
unfolding arrivals finish http_run grpc_run run_background
api_run order http grpc background =
    let inner = run_background background in
    finish inner.logged (arrivals order (http_run http) (grpc_run grpc) inner.first)

-- `run` of cmd/worker
unfoldable pub worker_run : Background → Exit
unfolding finish run_background
worker_run background = let inner = run_background background in finish [] inner
