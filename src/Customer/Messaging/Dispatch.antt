-- ===== src/Customer/Messaging/Dispatch.antt =====
-- What the dispatcher leaves alone.
use go_ddd.Prelude.{◌≡◌, refl, ◌∙◌, Option, none, some, List, [], ◌∷◌, text_eq}
use go_ddd.Prelude.Text.{Text}
use go_ddd.Prelude.Result.{ok}
use go_ddd.Prelude.Exec.{Exec}
use go_ddd.Shared.{DomainEvent}
use go_ddd.EventBus.{Event}
use go_ddd.Customer.Messaging.{dispatch, collect, collect_one, forward, to_integration_event}

module _ {S V : Type 0} (new_id : S → Text × S) (publisher : List Event → Exec S (Unit {0}))
    (view : S → V) (id_keeps : (s : S) → view (new_id s).1 ≡ view s) where
  collect_one-keeps :
      (e : Option (Text → Event)) (rest : S → List Event × S) (s : S)
      → ((s' : S) → view (rest s').1 ≡ view s')
      → view (collect_one new_id publisher e rest s).1 ≡ view s
  unfolding collect_one
  collect_one-keeps none rest s h = h s
  collect_one-keeps (some e) rest s h = h (new_id s).1 ∙ id_keeps s

  collect-keeps : (ds : List DomainEvent) (s : S) → view (collect new_id publisher ds s).1 ≡ view s
  unfolding collect
  collect-keeps [] s = refl
  collect-keeps (d ∷ ds) s =
      collect_one-keeps (to_integration_event d) (collect new_id publisher ds) s (collect-keeps ds)

  -- The publisher never fails and leaves the view alone.
  abbrev pub Quiet : Type 0
  Quiet =
      (es : List Event) (s : S) → ((publisher es s).0 ≡ ok tt) × (view (publisher es s).1 ≡ view s)

  forward-keeps :
      (p : List Event × S)
      → Quiet
      → ((forward new_id publisher p).0 ≡ ok tt) × (view (forward new_id publisher p).1 ≡ view p.1)
  unfolding forward
  forward-keeps ([], s) quiet = (refl, refl)
  forward-keeps (e ∷ es, s) quiet = quiet (e ∷ es) s

  pub dispatch-keeps :
      (ds : List DomainEvent) (s : S)
      → Quiet
      → ((dispatch new_id publisher ds s).0 ≡ ok tt)
        × (view (dispatch new_id publisher ds s).1 ≡ view s)
  unfolding dispatch
  dispatch-keeps [] s quiet = (refl, refl)
  dispatch-keeps (d ∷ ds) s quiet =
      let (done, kept) = forward-keeps (collect new_id publisher (d ∷ ds) s) quiet in
      (done, kept ∙ collect-keeps (d ∷ ds) s)
