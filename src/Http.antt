-- ===== src/Http.antt =====
-- internal/platform/httpx/middleware.go, and internal/shared/infrastructure/logging.
pub mod Calls
pub mod Stack
pub mod Tag
use go_ddd.Prelude.{
  ℕ, suc, ◌+◌, ◌≡◌, Option, none, some, List, [], ◌∷◌, ◌++◌, ◌==◌, text_eq, length, if◌then◌else◌,
}
use go_ddd.Prelude.Int.{ℤ, pos}
use go_ddd.Prelude.Text.{Text, codes}
use go_ddd.Prelude.Map.{Map, get, put}

-- A call on an http.ResponseWriter. Writes succeed whole.
pub data Call : Type 0 where
  set_header : Text → Text → Call
  write_header : ℤ → Call
  write : Text → Call

-- What the server of net/http has of a response: the header that may still change, the status that
-- went out with its header, and the body.
pub record Response : Type 0 where
  pub header : Map Text
  pub sent : Option (ℤ × Map Text)
  pub body : Text

abbrev pub fresh_response : Response
fresh_response = record { header = []; sent = none; body = [] }

-- `WriteHeader`, for a status that is not informational: the first one counts.
pub send_by : Option (ℤ × Map Text) → ℤ → Response → Response
send_by none status r = record r { sent = some (status, r.header) }
send_by (some before) status r = r

pub send : ℤ → Response → Response
unfolding send_by
send status r = send_by r.sent status r

perform : Call → Response → Response
unfolding send
perform (set_header key value) r = record r { header = put r.header key value }
perform (write_header status) r = send status r
perform (write bytes) r = let r' = send (pos 200) r in record r' { body = r'.body ++ bytes }

unfoldable pub perform_all : List Call → Response → Response
unfolding perform
perform_all [] r = r
perform_all (c ∷ cs) r = perform_all cs (perform c r)

-- The attributes of a logger.
abbrev pub Attributes : Type 0
Attributes = List (Text × Text)

-- The context holds a logger, or none.
pub record Request : Type 0 where
  pub method : Text
  pub path : Text
  pub header : Map Text
  pub logger : Option Attributes

-- logging.Into
unfoldable pub into : Request → Attributes → Request
into r attributes = record r { logger = some attributes }

-- logging.From: slog.Default has no attributes.
unfoldable pub from : Request → Attributes
from r = elim r.logger [ none ↦ [] | some attributes ↦ attributes ]

-- logging.With
unfoldable pub with_attributes : Request → Attributes → Request
unfolding into from
with_attributes r attributes = into r (from r ++ attributes)

-- Log records, without their durations.
pub data LogRecord : Type 0 where
  -- attributes, method, path, panic
  panic_logged : Attributes → Text → Text → Text → LogRecord
  -- attributes, method, path, status, bytes
  request_logged : Attributes → Text → Text → ℤ → ℕ → LogRecord

-- The state `S` behind a handler, with the log and the count of the ids drawn.
pub record World (S : Type 0) : Type 0 where
  pub state : S
  pub log : List LogRecord
  pub ids : ℕ

pub data Ending : Type 0 where
  returns : Ending
  panics : Text → Ending

-- A handler is known by the calls that it makes on its writer, in order, and by how it ends.
abbrev pub Handler : Type 0 → Type 0
Handler S = Request → World S → List Call × Ending × World S

abbrev pub Middleware : Type 0 → Type 0
Middleware S = Handler S → Handler S

-- The canonical spelling of `X-Request-ID`.
abbrev pub request_id_header : Text
request_id_header = codes "X-Request-Id"

abbrev pub error_body : Text
error_body = codes "{\"error\":{\"code\":\"internal\",\"message\":\"internal server error\"}}"

-- `r.Header.Get`
header_of : Option Text → Text
header_of none = []
header_of (some v) = v

-- statusWriter
pub record StatusWriter : Type 0 where
  pub status : ℤ
  pub written : ℕ

watch : Call → StatusWriter → StatusWriter
watch (set_header key value) sw = sw
watch (write_header status) sw = record sw { status = status }
watch (write bytes) sw = record sw { written = sw.written + length bytes }

unfoldable pub watch_all : List Call → StatusWriter → StatusWriter
unfolding watch
watch_all [] sw = sw
watch_all (c ∷ cs) sw = watch_all cs (watch c sw)

module _ {S : Type 0} where
  -- `Apply`: the first of the list runs first.
  unfoldable pub apply : Handler S → List (Middleware S) → Handler S
  apply h [] = h
  apply h (m ∷ ms) = m (apply h ms)

  -- The id of the request, and the world after it: an id is drawn if the request has none.
  unfoldable pub request_id_for : (ℕ → Text) → Request → World S → Text × World S
  unfolding header_of
  request_id_for uuid r w =
      let given = header_of (get r.header request_id_header) in
      if given == [] then (uuid w.ids, record w { ids = suc w.ids }) else (given, w)

  tagged : Text → List Call × Ending × World S → List Call × Ending × World S
  tagged rid (calls, ending, w) = (set_header request_id_header rid ∷ calls, ending, w)

  -- `RequestID`, over a logger with these attributes
  unfoldable pub request_id : (ℕ → Text) → Attributes → Middleware S
  unfolding request_id_for tagged into
  request_id uuid attributes next r w =
      let (rid, w') = request_id_for uuid r w in
      tagged rid (next (into r (attributes ++ (codes "request_id", rid) ∷ [])) w')

  recovered : Request → List Call × Ending × World S → List Call × Ending × World S
  recovered r (calls, returns, w) = (calls, returns, w)
  recovered r (calls, panics p, w) = (
    calls ++ write_header (pos 500) ∷ write error_body ∷ [],
    returns,
    record w { log = w.log ++ panic_logged (from r) r.method r.path p ∷ [] },
  )

  -- `Recover`
  unfoldable pub recover : Middleware S
  unfolding recovered from
  recover next r w = recovered r (next r w)

  logged : Request → List Call × Ending × World S → List Call × Ending × World S
  logged r (calls, panics p, w) = (calls, panics p, w)
  logged r (calls, returns, w) =
      let sw = watch_all calls (record { status = pos 200; written = 0 }) in
      (
        calls,
        returns,
        record w {
          log = w.log ++ request_logged (from r) r.method r.path sw.status sw.written ∷ [];
        },
      )

  -- `AccessLog`: a panic passes it by.
  unfoldable pub access_log : Middleware S
  unfolding logged watch_all from
  access_log next r w = logged r (next r w)

  -- The order in which `Build` wraps the routes.
  unfoldable pub stack : (ℕ → Text) → Handler S → Handler S
  unfolding apply request_id access_log recover
  stack uuid h = apply h (request_id uuid [] ∷ access_log ∷ recover ∷ [])

  answered : List Call × Ending × World S → Option Response × World S
  answered (calls, panics p, w) = (none, w)
  answered (calls, returns, w) = (some (send (pos 200) (perform_all calls fresh_response)), w)

  -- The server of net/http: a handler that has written nothing sends 200; after a panic the
  -- connection is closed.
  unfoldable pub serve : Handler S → Request → World S → Option Response × World S
  unfolding answered send perform_all
  serve h r w = answered (h r w)
