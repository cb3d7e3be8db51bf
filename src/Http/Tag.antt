-- ===== src/Http/Tag.antt =====
-- The id of a request on its response.
use go_ddd.Prelude.{
  ◌≡◌, ◌≢◌, refl, ◌∙◌, Option, none, some, List, [], ◌∷◌, ◌++◌, arith, text_eq, text_beq,
  text_beq_iff, text_beq_refl, All, All-append, ℕ, subst, some_inj, ◌⊎◌, inl, inr,
}
use go_ddd.Prelude.Int.{ℤ, pos}
use go_ddd.Prelude.Text.{Text, codes}
use go_ddd.Prelude.Map.{Map, get, put, get-put}
use go_ddd.Http.{
  Call, set_header, write_header, write, Response, fresh_response, send_by, send, perform,
  perform_all, Request, into, World, Ending, returns, panics, Handler, request_id_header,
  error_body, request_id_for, header_of, tagged, recovered, logged, stack, answered, serve,
}

-- The call leaves the id alone.
abbrev pub Spares : Call → Type 0
Spares (set_header key value) = key ≢ request_id_header
Spares (write_header status) = Unit
Spares (write bytes) = Unit

abbrev pub Shows : Text → Option (ℤ × Map Text) → Type 0
Shows rid none = Unit
Shows rid (some (status, header)) = get header request_id_header ≡ some rid

abbrev Tagged : Text → Response → Type 0
Tagged rid r = (get r.header request_id_header ≡ some rid) × Shows rid r.sent

send_by-Tagged :
    (rid : Text) (status : ℤ) (r : Response) (o : Option (ℤ × Map Text))
    → r.sent ≡ o
    → Tagged rid r
    → Tagged rid (send_by o status r)
unfolding send_by
send_by-Tagged rid status r none h t = (t.0, t.0)
send_by-Tagged rid status r (some x) h t = t

send-Tagged : (rid : Text) (status : ℤ) (r : Response) → Tagged rid r → Tagged rid (send status r)
unfolding send
send-Tagged rid status r t = send_by-Tagged rid status r r.sent refl t

perform-Tagged :
    (rid : Text) (c : Call) (r : Response) → Spares c → Tagged rid r → Tagged rid (perform c r)
unfolding perform
perform-Tagged rid (set_header key value) r spares t = (
  ground (
    arith,
    get-put r.header key request_id_header value,
    text_beq_iff key request_id_header,
    spares,
  ),
  t.1,
)
perform-Tagged rid (write_header status) r spares t = send-Tagged rid status r t
perform-Tagged rid (write bytes) r spares t = send-Tagged rid (pos 200) r t

perform_all-Tagged :
    (rid : Text) (cs : List Call) (r : Response)
    → All Spares cs
    → Tagged rid r
    → Tagged rid (perform_all cs r)
unfolding perform_all
perform_all-Tagged rid [] r spares t = t
perform_all-Tagged rid (c ∷ cs) r spares t =
    perform_all-Tagged rid cs (perform c r) spares.1 (perform-Tagged rid c r spares.0 t)

abbrev first_put : Text → Response
first_put rid = record fresh_response { header = put [] request_id_header rid }

first_put-Tagged : (rid : Text) → Tagged rid (first_put rid)
first_put-Tagged rid = (
  get-put [] request_id_header request_id_header rid ∙ rw (text_beq_refl request_id_header) refl,
  tt,
)

module _ {S : Type 0} where
  answered-Shows :
      (rid : Text) (r : Request) (p : List Call × Ending × World S) (res : Response)
      → All Spares p.0
      → (answered (tagged rid (logged r (recovered r p)))).0 ≡ some res
      → Tagged rid res
  unfolding answered tagged logged recovered perform_all perform
  answered-Shows rid r (cs, returns, w) res spares h = subst (Tagged rid) (some_inj h) (
      send-Tagged rid (pos 200) (perform_all cs (first_put rid))
        (perform_all-Tagged rid cs (first_put rid) spares (first_put-Tagged rid)))
  answered-Shows rid r (cs, panics p, w) res spares h =
      let all = cs ++ write_header (pos 500) ∷ write error_body ∷ [] in
      subst (Tagged rid) (some_inj h) (
        send-Tagged rid (pos 200) (perform_all all (first_put rid)) (
          perform_all-Tagged rid all (first_put rid)
            (All-append Spares cs (write_header (pos 500) ∷ write error_body ∷ []) spares
              (tt, (tt, tt)))
            (first_put-Tagged rid)))

  -- The id of a request: the one that it came with, if that is not empty, else the next that is
  -- drawn.
  abbrev pub Chosen : (ℕ → Text) → Request → World S → Text → Type 0
  Chosen uuid r w rid =
      ((get r.header request_id_header ≡ some rid) × (rid ≢ []))
      ⊎ (((get r.header request_id_header ≡ none) ⊎ (get r.header request_id_header ≡ some []))
          × (rid ≡ uuid w.ids))

  request_id_for-Chosen :
      (uuid : ℕ → Text) (r : Request) (w : World S) → Chosen uuid r w (request_id_for uuid r w).0
  unfolding request_id_for header_of text_beq
  request_id_for-Chosen uuid r w = go (get r.header request_id_header) refl
    where
      go :
          (o : Option Text)
          → get r.header request_id_header ≡ o
          → Chosen uuid r w (request_id_for uuid r w).0
      go none h = inr (inl h, rw h refl)
      go (some []) h = inr (inr h, rw h refl)
      go (some (c ∷ v)) h =
          inl (rw h (unfold text_beq in refl), rw h (λ e. absurd (ground (arith, e))))

  -- If the routes do not set the header X-Request-ID themselves, then the response carries the id
  -- of its request in this header: the one that the request came with, if that is not empty, and
  -- else the next id that is drawn.
  pub serve-request_id :
      (uuid : ℕ → Text) (h : Handler S) (r : Request) (w : World S) (res : Response)
      → let tag = request_id_for uuid r w in
        All Spares (h (into r ((codes "request_id", tag.0) ∷ [])) tag.1).0
        → (serve (stack uuid h) r w).0 ≡ some res
        → (rid : Text) × Chosen uuid r w rid
          × (get res.header request_id_header ≡ some rid)
          × Shows rid res.sent
  unfolding serve stack
  serve-request_id uuid h r w res spares answer =
      let tag = request_id_for uuid r w in
      let r' = into r ((codes "request_id", tag.0) ∷ []) in
      let (header, sent) = answered-Shows tag.0 r' (h r' tag.1) res spares answer in
      (tag.0, request_id_for-Chosen uuid r w, header, sent)
