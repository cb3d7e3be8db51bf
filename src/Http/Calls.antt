-- ===== src/Http/Calls.antt =====
-- What a list of calls sends, and what the access log counts of it.
use go_ddd.Prelude.{
  ◌+◌, ◌≡◌, refl, sym, ap, ◌∙◌, Option, none, some, List, [], ◌∷◌, ◌++◌, append_assoc, append-nil,
  arith, text_eq, length, length-append,
}
use go_ddd.Prelude.Int.{ℤ, pos}
use go_ddd.Prelude.Text.{Text}
use go_ddd.Http.{
  Call, set_header, write_header, write, Response, fresh_response, send_by, send, perform,
  perform_all, Ending, returns, panics, error_body, StatusWriter, watch, watch_all,
}

-- The status of the first call that sends one.
abbrev pub first_status : List Call → Option ℤ
first_status [] = none
first_status (set_header key value ∷ cs) = first_status cs
first_status (write_header status ∷ cs) = some status
first_status (write bytes ∷ cs) = some (pos 200)

abbrev pub last_status : ℤ → List Call → ℤ
last_status s [] = s
last_status s (set_header key value ∷ cs) = last_status s cs
last_status s (write_header status ∷ cs) = last_status status cs
last_status s (write bytes ∷ cs) = last_status s cs

abbrev pub bodies : List Call → Text
bodies [] = []
bodies (set_header key value ∷ cs) = bodies cs
bodies (write_header status ∷ cs) = bodies cs
bodies (write bytes ∷ cs) = bytes ++ bodies cs

abbrev pub or_status : Option ℤ → ℤ → ℤ
or_status none s = s
or_status (some t) s = t

-- The status that goes out when the handler sends none, and what is added after a panic.
abbrev pub fallback : Ending → ℤ
fallback returns = pos 200
fallback (panics p) = pos 500

abbrev pub added_body : Ending → Text
added_body returns = []
added_body (panics p) = error_body

abbrev pub sent_status : Response → Option ℤ
sent_status r = elim r.sent [ none ↦ none | some (status, header) ↦ some status ]

pub or_sent : Option ℤ → Option ℤ → Option ℤ
or_sent (some s) o = some s
or_sent none o = o

or_sent-some : (o o' : Option ℤ) (s : ℤ) → or_sent (or_sent o (some s)) o' ≡ or_sent o (some s)
unfolding or_sent
or_sent-some none o' s = refl
or_sent-some (some t) o' s = refl

status-send : (s : ℤ) (r : Response) → sent_status (send s r) ≡ or_sent (sent_status r) (some s)
unfolding send send_by or_sent
status-send s r = ground arith

body-send : (s : ℤ) (r : Response) → (send s r).body ≡ r.body
unfolding send send_by
body-send s r = ground arith

perform_all-status :
    (cs : List Call) (r : Response)
    → sent_status (perform_all cs r) ≡ or_sent (sent_status r) (first_status cs)
unfolding perform_all perform or_sent
perform_all-status [] r = ground arith
perform_all-status (set_header key value ∷ cs) r =
    perform_all-status cs (perform (set_header key value) r)
perform_all-status (write_header s ∷ cs) r =
    perform_all-status cs (perform (write_header s) r)
    ∙ ap (λ o. or_sent o (first_status cs)) (status-send s r)
    ∙ or_sent-some (sent_status r) (first_status cs) s
perform_all-status (write b ∷ cs) r =
    perform_all-status cs (perform (write b) r)
    ∙ ap (λ o. or_sent o (first_status cs)) (status-send (pos 200) r)
    ∙ or_sent-some (sent_status r) (first_status cs) (pos 200)

perform_all-body : (cs : List Call) (r : Response) → (perform_all cs r).body ≡ r.body ++ bodies cs
unfolding perform_all perform
perform_all-body [] r = sym (append-nil r.body)
perform_all-body (set_header key value ∷ cs) r =
    perform_all-body cs (perform (set_header key value) r)
perform_all-body (write_header s ∷ cs) r =
    perform_all-body cs (perform (write_header s) r) ∙ ap (λ b. b ++ bodies cs) (body-send s r)
perform_all-body (write b ∷ cs) r =
    perform_all-body cs (perform (write b) r)
    ∙ append_assoc (send (pos 200) r).body b (bodies cs)
    ∙ ap (λ x. x ++ (b ++ bodies cs)) (body-send (pos 200) r)

pub watch_all-status :
    (cs : List Call) (sw : StatusWriter) → (watch_all cs sw).status ≡ last_status sw.status cs
unfolding watch_all watch
watch_all-status [] sw = refl
watch_all-status (set_header key value ∷ cs) sw = watch_all-status cs sw
watch_all-status (write_header s ∷ cs) sw = watch_all-status cs (watch (write_header s) sw)
watch_all-status (write b ∷ cs) sw = watch_all-status cs (watch (write b) sw)

pub watch_all-written :
    (cs : List Call) (sw : StatusWriter)
    → (watch_all cs sw).written ≡ sw.written + length (bodies cs)
unfolding watch_all watch
watch_all-written [] sw = omega arith
watch_all-written (set_header key value ∷ cs) sw = watch_all-written cs sw
watch_all-written (write_header s ∷ cs) sw = watch_all-written cs (watch (write_header s) sw)
watch_all-written (write b ∷ cs) sw =
    omega (arith, watch_all-written cs (watch (write b) sw), length-append b (bodies cs))

pub first_status-append :
    (cs ds : List Call) → first_status (cs ++ ds) ≡ or_sent (first_status cs) (first_status ds)
unfolding or_sent
first_status-append [] ds = refl
first_status-append (set_header key value ∷ cs) ds = first_status-append cs ds
first_status-append (write_header s ∷ cs) ds = refl
first_status-append (write b ∷ cs) ds = refl

pub last_status-append :
    (s t : ℤ) (cs : List Call) (b : Text) → last_status s (cs ++ write_header t ∷ write b ∷ []) ≡ t
last_status-append s t [] b = refl
last_status-append s t (set_header key value ∷ cs) b = last_status-append s t cs b
last_status-append s t (write_header u ∷ cs) b = last_status-append u t cs b
last_status-append s t (write c ∷ cs) b = last_status-append s t cs b

pub bodies-append : (cs ds : List Call) → bodies (cs ++ ds) ≡ bodies cs ++ bodies ds
bodies-append [] ds = refl
bodies-append (set_header key value ∷ cs) ds = bodies-append cs ds
bodies-append (write_header s ∷ cs) ds = bodies-append cs ds
bodies-append (write b ∷ cs) ds =
    ap (λ x. b ++ x) (bodies-append cs ds) ∙ sym (append_assoc b (bodies cs) (bodies ds))

-- What the server answers to these calls.
abbrev pub response : List Call → Response
response cs = send (pos 200) (perform_all cs fresh_response)

pub response-status :
    (cs : List Call) → sent_status (response cs) ≡ some (or_status (first_status cs) (pos 200))
unfolding or_sent
response-status cs =
    status-send (pos 200) (perform_all cs fresh_response)
    ∙ ap (λ o. or_sent o (some (pos 200))) (perform_all-status cs fresh_response)
    ∙ go (first_status cs)
  where
    go : (o : Option ℤ) → or_sent o (some (pos 200)) ≡ some (or_status o (pos 200))
    go none = refl
    go (some s) = refl

pub response-body : (cs : List Call) → (response cs).body ≡ bodies cs
response-body cs =
    body-send (pos 200) (perform_all cs fresh_response) ∙ perform_all-body cs fresh_response

abbrev pub after_panic : List Call → List Call
after_panic cs = cs ++ write_header (pos 500) ∷ write error_body ∷ []

pub after_panic-status :
    (cs : List Call)
    → or_status (first_status (after_panic cs)) (pos 200) ≡ or_status (first_status cs) (pos 500)
unfolding or_sent
after_panic-status cs =
    ap (λ o. or_status o (pos 200))
      (first_status-append cs (write_header (pos 500) ∷ write error_body ∷ []))
    ∙ go (first_status cs)
  where
    go : (o : Option ℤ) → or_status (or_sent o (some (pos 500))) (pos 200) ≡ or_status o (pos 500)
    go none = refl
    go (some s) = refl

pub after_panic-bodies : (cs : List Call) → bodies (after_panic cs) ≡ bodies cs ++ error_body
after_panic-bodies cs = bodies-append cs (write_header (pos 500) ∷ write error_body ∷ [])
