-- ===== src/Bootstrap/Routes.antt =====
-- The routes of the API (application.go): the probes, the documents and the gateway.
pub mod Probes
use go_ddd.Prelude.{◌≡◌, Bool, true, false, Option, none, some, List, [], ◌∷◌, ◌++◌, text_eq}
use go_ddd.Prelude.Int.{ℤ, pos}
use go_ddd.Prelude.Text.{Text, codes}
use go_ddd.Prelude.Map.{Map}
use go_ddd.Prelude.Result.{Error}
use go_ddd.Shared.{error_text}
use go_ddd.Http.{Call, set_header, write_header, write, Request, World, Ending, returns, Handler}

-- encoding/json of a map of strings, and the embedded documents.
pub record Documents : Type 0 where
  pub encode_json : List (Text × Text) → Text
  pub openapi : Text
  pub docs : Text

-- `writeJSON`
write_json : Documents → ℤ → List (Text × Text) → List Call
write_json d status members =
    set_header (codes "Content-Type") (codes "application/json; charset=utf-8")
    ∷ write_header status
    ∷ write (d.encode_json members)
    ∷ []

readiness : Documents → Option Error → List Call
unfolding write_json
readiness d none = write_json d (pos 200) ((codes "status", codes "ready") ∷ [])
readiness d (some e) =
    write_json d (pos 503)
      ((codes "status", codes "unavailable") ∷ (codes "detail", error_text e) ∷ [])

module _ {S : Type 0} (d : Documents) where
  healthz : Handler S
  unfolding write_json
  healthz r w = (write_json d (pos 200) ((codes "status", codes "ok") ∷ []), returns, w)

  -- The pool answers to a ping, or there is none.
  unfoldable pub readyz : Option (S → Option Error) → Handler S
  unfolding readiness
  readyz none r w = (readiness d none, returns, w)
  readyz (some ping) r w = (readiness d (ping w.state), returns, w)

  document : Text → Text → Handler S
  document kind body r w = (set_header (codes "Content-Type") kind ∷ write body ∷ [], returns, w)

  -- The patterns and handlers of `registerOps`, `registerDocs` and the gateway, in their order.
  unfoldable pub routes : Option (S → Option Error) → Handler S → Map (Handler S)
  unfolding healthz document
  routes pool gateway =
      (codes "GET /healthz", healthz)
      ∷ (codes "GET /readyz", readyz pool)
      ∷ (codes "GET /openapi.json", document (codes "application/json; charset=utf-8") d.openapi)
      ∷ (codes "GET /docs", document (codes "text/html; charset=utf-8") d.docs)
      ∷ (codes "/api/v1/", gateway)
      ∷ []
