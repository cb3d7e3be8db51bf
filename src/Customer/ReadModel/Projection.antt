-- ===== src/Customer/ReadModel/Projection.antt =====
-- The read model against the aggregate that raised the events.
pub mod Table
use go_ddd.Prelude.{
  ℕ, suc, ◌≡◌, refl, sym, ap, ◌∙◌, ◌≢◌, Option, none, some, List, [], ◌∷◌, ◌++◌, arith, text_eq,
  text_beq, text_beq_iff, text_beq_refl, All, if◌then◌else◌,
}
use mathlib.Core.List.{foldl}
use mathlib.Core.Option
use go_ddd.Prelude.Int.{pos, int_succ}
use go_ddd.Prelude.Text.{Text, codes}
use go_ddd.Prelude.Map.{get, put, get-put, SameBut}
use go_ddd.Prelude.Result.{ok}
use go_ddd.Shared.{
  Time, DomainEvent, customer_created, customer_email_changed, customer_deactivated, order_placed,
  user_registered, payment_completed,
}
use go_ddd.EventBus.{
  Event, Bus, new_bus, subscribe, recover, logging, publish, chain, handlers_of, run_handlers,
  Collected,
}
use go_ddd.Customer.Email.{CustomerId, Email, Status, active, deactivated}
use go_ddd.Customer.Aggregate.{Customer, new_customer}
use go_ddd.Customer.Aggregate.Lifecycle.{Call, run, Facts, evolve, facts, blank, replay-run_new}
use go_ddd.Customer.Aggregate.Story.{Later, Story-run, Story-new}
use go_ddd.Customer.Messaging.{
  to_integration_event, event_customer_created, event_customer_email_changed,
  event_customer_deactivated,
}
use go_ddd.Customer.ReadModel.{
  Row, Rows, on_created, on_email_changed, on_deactivated, register, non_zero, update,
}

-- The handlers of the read model behind the middleware that the bootstrap installs.
abbrev pub wired : Time → Bus Rows
wired now = record {
  handlers =
      (event_customer_created, recover (logging (on_created now)) ∷ [])
      ∷ (event_customer_email_changed, recover (logging on_email_changed) ∷ [])
      ∷ (event_customer_deactivated, recover (logging on_deactivated) ∷ [])
      ∷ [];
  mw = recover ∷ logging ∷ [];
}

register-wired : (now : Time) → register now (new_bus (recover ∷ logging ∷ [])) ≡ ok (wired now)
unfolding register new_bus subscribe handlers_of get put text_beq chain
register-wired now = refl

-- How the read model names a status.
abbrev pub shown : Status → Text
shown active = codes "active"
shown deactivated = codes "inactive"

abbrev pub row_of : Time → Facts → Row
row_of now f = record {
  id = f.id;
  name = f.name;
  email = f.email;
  status = shown f.status;
  created_at = non_zero now f.created_at;
}

with_id : Text → Option (Text → Event) → List Event
with_id k none = []
with_id k (some e) = e k ∷ []

-- The integration events, with the ids that `ids` gives from `n` on.
pub translate : (ℕ → Text) → ℕ → List DomainEvent → List Event
translate ids n [] = []
translate ids n (d ∷ ds) = with_id (ids n) (to_integration_event d) ++ translate ids (suc n) ds

abbrev nothing_before : Collected × Rows → Collected × Rows
nothing_before (r, rows) = (Option.map (λ ys. [] ++ ys) r, rows)

nothing_before_lem : (p : Collected × Rows) → nothing_before p ≡ p
nothing_before_lem (none, rows) = refl
nothing_before_lem (some xs, rows) = refl

module _ (now : Time) (ids : ℕ → Text) where
  abbrev feed : ℕ → List DomainEvent → Rows → Collected × Rows
  feed n ds rows = publish (wired now) (translate ids n ds) rows

  created_step :
      (n : ℕ) (id name email : Text) (at : Time) (ds : List DomainEvent) (rows : Rows)
      → feed n (customer_created id name email at ∷ ds) rows
        ≡ feed (suc n) ds (
            put rows id (
              row_of now (record {
                id = id;
                name = name;
                email = email;
                status = active;
                created_at = at;
                version = pos 1;
              })))
  unfolding translate with_id to_integration_event publish handlers_of get text_beq run_handlers
      recover logging on_created
  created_step n id name email at ds rows = nothing_before_lem (
      feed (suc n) ds (
        put rows id (
          row_of now (record {
            id = id;
            name = name;
            email = email;
            status = active;
            created_at = at;
            version = pos 1;
          }))))

  email_step :
      (n : ℕ) (id old new : Text) (at : Time) (ds : List DomainEvent) (rows : Rows)
      → feed n (customer_email_changed id old new at ∷ ds) rows
        ≡ feed (suc n) ds (update id (λ row. record row { email = new }) rows)
  unfolding translate with_id to_integration_event publish handlers_of get text_beq run_handlers
      recover logging on_email_changed
  email_step n id old new at ds rows =
      nothing_before_lem (feed (suc n) ds (update id (λ row. record row { email = new }) rows))

  deactivated_step :
      (n : ℕ) (id reason : Text) (at : Time) (ds : List DomainEvent) (rows : Rows)
      → feed n (customer_deactivated id reason at ∷ ds) rows
        ≡ feed (suc n) ds (update id (λ row. record row { status = codes "inactive" }) rows)
  unfolding translate with_id to_integration_event publish handlers_of get text_beq run_handlers
      recover logging on_deactivated
  deactivated_step n id reason at ds rows =
      nothing_before_lem
        (feed (suc n) ds (update id (λ row. record row { status = codes "inactive" }) rows))

  pub get-update :
      (id k : Text) (f : Row → Row) (rows : Rows) (row : Row)
      → get rows id ≡ some row
      → get (update id f rows) k ≡ (if text_beq id k then some (f row) else get rows k)
  unfolding update
  get-update id k f rows row h = rw (h, update) (get-put rows id k (f row))

  -- The row of the customer shows the facts, and no other row has changed.
  abbrev Shows : Text → Facts → Rows → Rows → Type 0
  Shows id f before rows =
      (get rows id ≡ some (row_of now f)) × ((k : Text) → id ≢ k → get rows k ≡ get before k)

  Shows-update :
      (id : Text) (f : Facts) (before rows : Rows) (g : Row → Row)
      → Shows id f before rows
      → (get (update id g rows) id ≡ some (g (row_of now f)))
        × ((k : Text) → id ≢ k → get (update id g rows) k ≡ get before k)
  Shows-update id f before rows g h = (
    ground (arith, get-update id id g rows (row_of now f) h.0, text_beq_refl id),
    λ k ne.
        ground (arith, get-update id k g rows (row_of now f) h.0, text_beq_iff id k, ne, h.1 k ne),
  )

  feed-Later :
      (n : ℕ) (id : Text) (ds : List DomainEvent) (f : Facts) (before rows : Rows)
      → All (Later id) ds
      → Shows id f before rows
      → ((feed n ds rows).0 ≡ some []) × Shows id (foldl evolve f ds) before (feed n ds rows).1
  unfolding translate publish evolve
  feed-Later n id [] f before rows own h = (refl, h)
  feed-Later n id (customer_email_changed k old new at ∷ ds) f before rows own h =
      rw (own.0, email_step n id old new at ds rows)
        (feed-Later (suc n) id ds (record f { email = new; version = int_succ f.version }) before
          (update id (λ row. record row { email = new }) rows) own.1
          (Shows-update id f before rows (λ row. record row { email = new }) h))
  feed-Later n id (customer_deactivated k reason at ∷ ds) f before rows own h =
      rw (own.0, deactivated_step n id reason at ds rows)
        (feed-Later (suc n) id ds (record f { status = deactivated; version = int_succ f.version })
          before (update id (λ row. record row { status = codes "inactive" }) rows) own.1
          (Shows-update id f before rows (λ row. record row { status = codes "inactive" }) h))
  feed-Later n id (customer_created i m e at ∷ ds) f before rows own h = absurd own.0
  feed-Later n id (order_placed i c at ∷ ds) f before rows own h = absurd own.0
  feed-Later n id (user_registered i e at ∷ ds) f before rows own h = absurd own.0
  feed-Later n id (payment_completed i o at ∷ ds) f before rows own h = absurd own.0

-- When all the integration events of a customer, whatever calls it has been through since it was
-- made, reach the read model in order, each handler succeeds, its row shows the customer as it is,
-- and no other row has changed.
pub publish-shows :
    (now : Time) (ids : ℕ → Text) (n : ℕ) (rows : Rows) (id : CustomerId) (name : Text)
    (email : Email) (at : Time) (c : Customer) (xs : List Call)
    → new_customer id name email at ≡ ok c
    → let p = publish (wired now) (translate ids n (run c xs).root.events) rows in
      (p.0 ≡ some [])
      × (get p.1 (run c xs).id.value ≡ some (row_of now (facts (run c xs))))
      × SameBut (run c xs).id.value rows p.1
unfolding evolve
publish-shows now ids n rows id name email at c xs made =
    let end = run c xs in
    let (name', email', at', ds, told, own) =
      (Story-run c xs (Story-new id name email at c made)).0 in
    let first : Facts = record {
      id = end.id.value;
      name = name';
      email = email';
      status = active;
      created_at = at';
      version = pos 1;
    } in
    let truth : foldl evolve first ds ≡ facts end =
      ap (foldl evolve blank) (sym told) ∙ replay-run_new id name email at c xs made in
    let (done, (shows, kept)) =
      feed-Later now ids (suc n) end.id.value ds first rows
        (put rows end.id.value (row_of now first)) own
        (
          ground (
            arith,
            text_beq_refl end.id.value,
            get-put rows end.id.value end.id.value (row_of now first),
          ),
          λ k ne. ground (
            arith,
            ne,
            text_beq_iff end.id.value k,
            get-put rows end.id.value k (row_of now first),
          ),
        ) in
    rw (told, created_step now ids n end.id.value name' email' at' ds rows)
      (done, shows ∙ ap (λ f. some (row_of now f)) truth, kept)
