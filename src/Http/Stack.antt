-- ===== src/Http/Stack.antt =====
-- The handler of the API process: the routes behind RequestID, AccessLog and Recover.
use go_ddd.Prelude.{
  ℕ, ◌+◌, ◌≡◌, refl, sym, ap, ◌∙◌, Option, some, List, [], ◌∷◌, ◌++◌, append_assoc, append-nil,
  arith, text_eq, length, length-append,
}
use go_ddd.Prelude.Int.{pos}
use go_ddd.Prelude.Text.{Text, codes}
use go_ddd.Http.{
  Call, set_header, Response, perform_all, Request, into, from, LogRecord, panic_logged,
  request_logged, World, Ending, returns, panics, Handler, request_id_header, error_body,
  StatusWriter, watch_all, request_id_for, tagged, recovered, logged, stack, answered, serve,
}
use go_ddd.Http.Calls.{
  first_status, last_status, bodies, or_status, fallback, added_body, sent_status, response,
  after_panic, last_status-append, watch_all-status, watch_all-written, response-status,
  response-body, after_panic-status, after_panic-bodies,
}

-- The records that the middleware adds: one for a panic, and one for the request, with the status
-- that was set last.
abbrev pub records : Request → List Call → Ending → List LogRecord
records r cs returns =
    request_logged (from r) r.method r.path (last_status (pos 200) cs) (length (bodies cs)) ∷ []
records r cs (panics p) =
    panic_logged (from r) r.method r.path p
    ∷ request_logged (from r) r.method r.path (pos 500) (length (bodies cs) + length error_body)
    ∷ []

-- The record that AccessLog makes of these calls.
abbrev line : Request → List Call → LogRecord
line r cs =
    let sw = watch_all cs (record { status = pos 200; written = 0 }) in
    request_logged (from r) r.method r.path sw.status sw.written

counted :
    (r : Request) (cs : List Call)
    → line r cs
      ≡ request_logged (from r) r.method r.path (last_status (pos 200) cs) (length (bodies cs))
counted r cs =
    let fresh : StatusWriter = record { status = pos 200; written = 0 } in
    ap (λ s. request_logged (from r) r.method r.path s (watch_all cs fresh).written)
      (watch_all-status cs fresh)
    ∙ ap (request_logged (from r) r.method r.path (last_status (pos 200) cs))
        (watch_all-written cs fresh ∙ omega arith)

counted_panic :
    (r : Request) (cs : List Call)
    → line r (after_panic cs)
      ≡ request_logged (from r) r.method r.path (pos 500) (length (bodies cs) + length error_body)
counted_panic r cs =
    counted r (after_panic cs)
    ∙ ap (λ s. request_logged (from r) r.method r.path s (length (bodies (after_panic cs))))
        (last_status-append (pos 200) (pos 500) cs error_body)
    ∙ ap (request_logged (from r) r.method r.path (pos 500))
        (ap length (after_panic-bodies cs) ∙ length-append (bodies cs) error_body)

module _ {S : Type 0} where
  -- What the stack leaves of a request, by what its routes have done.
  abbrev pub Answers :
      Text → Request → List Call × Ending × World S → Option Response × World S → Type 0
  Answers rid r (cs, ending, w) (answer, w') =
      ((res : Response) × (answer ≡ some res)
        × (sent_status res ≡ some (or_status (first_status cs) (fallback ending)))
        × (res.body ≡ bodies cs ++ added_body ending))
      × (w' ≡ record w { log = w.log ++ records r cs ending })

  stack_ends :
      (rid : Text) (r : Request) (p : List Call × Ending × World S)
      → Answers rid r p (answered (tagged rid (logged r (recovered r p))))
  unfolding answered tagged logged recovered perform_all
  stack_ends rid r (cs, returns, w) =
      let calls = set_header request_id_header rid ∷ cs in
      (
        (
          response calls,
          refl,
          response-status calls,
          response-body calls ∙ sym (append-nil (bodies cs)),
        ),
        ap (λ x. record w { log = w.log ++ x ∷ [] }) (counted r cs),
      )
  stack_ends rid r (cs, panics p, w) =
      let calls = set_header request_id_header rid ∷ cs in
      (
        (
          response (after_panic calls),
          refl,
          response-status (after_panic calls) ∙ ap some (after_panic-status calls),
          response-body (after_panic calls) ∙ after_panic-bodies calls,
        ),
        ap (λ x. record w { log = x })
            (append_assoc w.log (panic_logged (from r) r.method r.path p ∷ [])
                (line r (after_panic cs) ∷ [])
              ∙ ap (λ x. w.log ++ panic_logged (from r) r.method r.path p ∷ x ∷ [])
                  (counted_panic r cs)),
      )

  -- Whatever the routes do, also when they panic, the API answers, with what they wrote first.
  -- After a panic the status is 500 if none was sent before, and the error follows what was
  -- written. Two records at most are added to the log, a panic's and the request's, and both carry
  -- the id that was given or drawn.
  pub serve-stack :
      (uuid : ℕ → Text) (h : Handler S) (r : Request) (w : World S)
      → let tag = request_id_for uuid r w in
        let r' = into r ((codes "request_id", tag.0) ∷ []) in
        Answers tag.0 r' (h r' tag.1) (serve (stack uuid h) r w)
  unfolding serve stack
  serve-stack uuid h r w =
      let tag = request_id_for uuid r w in
      let r' = into r ((codes "request_id", tag.0) ∷ []) in stack_ends tag.0 r' (h r' tag.1)
