-- ===== src/Bootstrap/Routes/Probes.antt =====
-- What the readiness probe answers, through the middleware.
use go_ddd.Prelude.{
  ℕ, ◌≡◌, refl, ap, subst, ◌∙◌, Option, none, some, List, [], ◌∷◌, ◌++◌, append-nil, text_eq,
  text_beq, arith,
}
use go_ddd.Prelude.Int.{ℤ, pos}
use go_ddd.Prelude.Text.{Text, codes}
use go_ddd.Prelude.Map.{Map, get}
use go_ddd.Prelude.Result.{Error}
use go_ddd.Shared.{error_text}
use go_ddd.Http.{Request, Response, into, World, returns, Handler, request_id_for, stack, serve}
use go_ddd.Http.Calls.{sent_status}
use go_ddd.Http.Stack.{Answers, serve-stack}
use go_ddd.Bootstrap.Routes.{Documents, readyz, readiness, write_json, routes}

abbrev pub probe_status : Option Error → ℤ
probe_status none = pos 200
probe_status (some e) = pos 503

abbrev pub probe_members : Option Error → List (Text × Text)
probe_members none = (codes "status", codes "ready") ∷ []
probe_members (some e) = (codes "status", codes "unavailable") ∷ (codes "detail", error_text e) ∷ []

module _ {S : Type 0} where
  -- What http.ServeMux promises for a request whose method and path are those of a pattern.
  abbrev pub IsMux : (Map (Handler S) → Handler S) → Type 0
  IsMux mux =
      (table : Map (Handler S)) (h : Handler S) (r : Request) (w : World S)
      → get table (r.method ++ (codes " " ++ r.path)) ≡ some h
      → mux table r w ≡ h r w

  -- The error of the ping, if there is a pool and it fails.
  abbrev pub outage : Option (S → Option Error) → S → Option Error
  outage none s = none
  outage (some ping) s = ping s

  drawn-state :
      (uuid : ℕ → Text) (r : Request) (w : World S) → (request_id_for uuid r w).1.state ≡ w.state
  unfolding request_id_for
  drawn-state uuid r w = ground (arith)

  -- What the probe makes of a request.
  abbrev Answered : Documents → Option Error → S → Option Response × World S → Type 0
  Answered d down s p =
      (res : Response) × (p.0 ≡ some res)
      × (sent_status res ≡ some (probe_status down))
      × (res.body ≡ d.encode_json (probe_members down))
      × (p.1.state ≡ s)

  readiness-Answered :
      (d : Documents) (rid : Text) (r : Request) (w : World S) (down : Option Error)
      (p : Option Response × World S)
      → Answers rid r (readiness d down, returns, w) p
      → Answered d down w.state p
  unfolding readiness write_json
  readiness-Answered d rid r w none p ((res, answered, status, body), after) = (
    res,
    answered,
    status,
    body
        ∙ append-nil (d.encode_json (probe_members none) ++ [])
        ∙ append-nil (d.encode_json (probe_members none)),
    ap (λ v. v.state) after,
  )
  readiness-Answered d rid r w (some e) p ((res, answered, status, body), after) = (
    res,
    answered,
    status,
    body
        ∙ append-nil (d.encode_json (probe_members (some e)) ++ [])
        ∙ append-nil (d.encode_json (probe_members (some e))),
    ap (λ v. v.state) after,
  )

  readyz_lem :
      (d : Documents) (pool : Option (S → Option Error)) (r : Request) (w : World S)
      → readyz d pool r w ≡ (readiness d (outage pool w.state), returns, w)
  unfolding readyz
  readyz_lem d none r w = refl
  readyz_lem d (some ping) r w = refl

  -- GET /readyz of the API answers 503 with the error if there is a pool and its ping fails, and
  -- 200 otherwise, and leaves the state alone.
  pub serve-readyz :
      (d : Documents) (mux : Map (Handler S) → Handler S) (uuid : ℕ → Text)
      (pool : Option (S → Option Error)) (gateway : Handler S) (r : Request) (w : World S)
      → IsMux mux
      → r.method ≡ codes "GET"
      → r.path ≡ codes "/readyz"
      → let down = outage pool w.state in
        let p = serve (stack uuid (mux (routes d pool gateway))) r w in
        (res : Response) × (p.0 ≡ some res)
        × (sent_status res ≡ some (probe_status down))
        × (res.body ≡ d.encode_json (probe_members down))
        × (p.1.state ≡ w.state)
  unfolding routes get text_beq into
  serve-readyz d mux uuid pool gateway r w is_mux method path =
      let (rid, w') = request_id_for uuid r w in
      let r' = into r ((codes "request_id", rid) ∷ []) in
      let found : get (routes d pool gateway) (r.method ++ (codes " " ++ r.path))
          ≡ some (readyz d pool) =
        rw (method, path) refl in
      let probed : mux (routes d pool gateway) r' w'
          ≡ (readiness d (outage pool w'.state), returns, w') =
        is_mux (routes d pool gateway) (readyz d pool) r' w' found ∙ readyz_lem d pool r' w' in
      let answers = serve-stack uuid (mux (routes d pool gateway)) r w in
      let p = serve (stack uuid (mux (routes d pool gateway))) r w in
      subst (λ s. Answered d (outage pool s) s p) (drawn-state uuid r w)
        (readiness-Answered d rid r' w' (outage pool w'.state) p
          (subst (λ q. Answers rid r' q p) probed answers))
