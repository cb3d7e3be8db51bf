-- ===== src/Customer/ReadModel/Projection/Table.antt =====
-- The read model in Postgres against the one in memory.
use mathlib.Core.Option
use go_ddd.Prelude.{
  inl, inr, Bool-cases, Option-cases, ℕ, suc, ◌≡◌, refl, sym, ap, ◌∙◌, none, List, [], ◌∷◌, text_eq,
  text_beq, All,
}
use go_ddd.Prelude.Int.{pos}
use go_ddd.Prelude.Text.{Text, codes}
use go_ddd.Prelude.Map.{get, put}
use go_ddd.Prelude.Result.{ok}
use go_ddd.Shared.{
  Time, DomainEvent, customer_created, customer_email_changed, customer_deactivated, order_placed,
  user_registered, payment_completed,
}
use go_ddd.EventBus.{
  Bus, new_bus, subscribe, recover, logging, publish, chain, handlers_of, run_handlers, Collected,
}
use go_ddd.Customer.Email.{CustomerId, Email, active}
use go_ddd.Customer.Aggregate.{Customer, new_customer}
use go_ddd.Customer.Aggregate.Lifecycle.{Call, run}
use go_ddd.Customer.Aggregate.Story.{Later, Story-run, Story-new}
use go_ddd.Customer.Messaging.{
  to_integration_event, event_customer_created, event_customer_email_changed,
  event_customer_deactivated,
}
use go_ddd.Customer.ReadModel.{
  Row, in_column, Rows, on_created_table, on_email_changed_table, on_deactivated_table,
  register_table, update, upserted,
}
use go_ddd.Customer.ReadModel.Projection.{
  wired, row_of, translate, with_id, nothing_before_lem, feed, created_step, email_step,
  deactivated_step,
}

-- The handlers over the table behind the middleware of the bootstrap.
abbrev pub wired_table : (Time → Time) → Time → Bus Rows
wired_table column now = record {
  handlers =
      (event_customer_created, recover (logging (on_created_table column now)) ∷ [])
      ∷ (event_customer_email_changed, recover (logging on_email_changed_table) ∷ [])
      ∷ (event_customer_deactivated, recover (logging on_deactivated_table) ∷ [])
      ∷ [];
  mw = recover ∷ logging ∷ [];
}

register_table-wired_table :
    (column : Time → Time) (now : Time)
    → register_table column now (new_bus (recover ∷ logging ∷ [])) ≡ ok (wired_table column now)
unfolding register_table new_bus subscribe handlers_of get put text_beq chain
register_table-wired_table column now = refl

module _ (column : Time → Time) where
  -- The rows of the memory as the table keeps them.
  abbrev pub in_columns : Rows → Rows
  in_columns [] = []
  in_columns ((k, row) ∷ rows) = (k, in_column column row) ∷ in_columns rows

  get-in_columns :
      (rows : Rows) (k : Text)
      → get (in_columns rows) k ≡ Option.map (in_column column) (get rows k)
  unfolding get
  get-in_columns [] k = refl
  get-in_columns ((j, row) ∷ rows) k = elim (Bool-cases (text_beq j k)) [
    | inl hit ↦ rw hit refl
    | inr miss ↦ rw miss (get-in_columns rows k)
  ]

  put-in_columns :
      (rows : Rows) (k : Text) (row : Row)
      → put (in_columns rows) k (in_column column row) ≡ in_columns (put rows k row)
  unfolding put
  put-in_columns [] k row = refl
  put-in_columns ((j, x) ∷ rows) k row = elim (Bool-cases (text_beq j k)) [
    | inl hit ↦ rw hit refl
    | inr miss ↦ rw miss (ap (λ r. (j, in_column column x) ∷ r) (put-in_columns rows k row))
  ]

  update-in_columns :
      (rows : Rows) (k : Text) (f : Row → Row)
      → ((row : Row) → f (in_column column row) ≡ in_column column (f row))
      → update k f (in_columns rows) ≡ in_columns (update k f rows)
  unfolding update
  update-in_columns rows k f same = elim (Option-cases (get rows k)) [
    | inl gone ↦
        rw (update, get-in_columns rows k ∙ ap (Option.map (in_column column)) gone, gone) refl
    | inr (row, here) ↦
        rw (update, get-in_columns rows k ∙ ap (Option.map (in_column column)) here, here)
          (ap (put (in_columns rows) k) (same row) ∙ put-in_columns rows k (f row))
  ]

module _ (column : Time → Time) (now : Time) (ids : ℕ → Text) where
  abbrev feed_table : ℕ → List DomainEvent → Rows → Collected × Rows
  feed_table n ds rows = publish (wired_table column now) (translate ids n ds) rows

  -- The same errors, and the rows as the table keeps them.
  abbrev pub Keeps : Collected × Rows → Collected × Rows → Type 0
  Keeps table memory = table ≡ (memory.0, in_columns column memory.1)

  created_table_step :
      (n : ℕ) (id name email : Text) (at : Time) (ds : List DomainEvent) (rows : Rows)
      → get rows id ≡ none
      → feed_table n (customer_created id name email at ∷ ds) (in_columns column rows)
        ≡ feed_table (suc n) ds (
            in_columns column (
              put rows id (
                row_of now (record {
                  id = id;
                  name = name;
                  email = email;
                  status = active;
                  created_at = at;
                  version = pos 1;
                }))))
  unfolding translate with_id to_integration_event publish handlers_of get text_beq run_handlers
      recover logging on_created_table upserted
  created_table_step n id name email at ds rows new =
      let memory_row = row_of now (record {
        id = id;
        name = name;
        email = email;
        status = active;
        created_at = at;
        version = pos 1;
      }) in
      let row = in_column column memory_row in
      let old = in_columns column rows in
      nothing_before_lem (feed_table (suc n) ds (put old id (upserted (get old id) row)))
      ∙ ap (λ o. feed_table (suc n) ds (put old id (upserted o row)))
          (get-in_columns column rows id ∙ ap (Option.map (in_column column)) new)
      ∙ ap (feed_table (suc n) ds) (put-in_columns column rows id memory_row)

  email_table_step :
      (n : ℕ) (id old new : Text) (at : Time) (ds : List DomainEvent) (rows : Rows)
      → feed_table n (customer_email_changed id old new at ∷ ds) rows
        ≡ feed_table (suc n) ds (update id (λ row. record row { email = new }) rows)
  unfolding translate with_id to_integration_event publish handlers_of get text_beq run_handlers
      recover logging on_email_changed_table
  email_table_step n id old new at ds rows =
      nothing_before_lem
        (feed_table (suc n) ds (update id (λ row. record row { email = new }) rows))

  deactivated_table_step :
      (n : ℕ) (id reason : Text) (at : Time) (ds : List DomainEvent) (rows : Rows)
      → feed_table n (customer_deactivated id reason at ∷ ds) rows
        ≡ feed_table (suc n) ds (update id (λ row. record row { status = codes "inactive" }) rows)
  unfolding translate with_id to_integration_event publish handlers_of get text_beq run_handlers
      recover logging on_deactivated_table
  deactivated_table_step n id reason at ds rows =
      nothing_before_lem
        (feed_table (suc n) ds (update id (λ row. record row { status = codes "inactive" }) rows))

  feed_table-feed :
      (n : ℕ) (id : Text) (ds : List DomainEvent) (rows : Rows)
      → All (Later id) ds
      → Keeps (feed_table n ds (in_columns column rows)) (feed now ids n ds rows)
  feed_table-feed n id [] rows own = unfold translate publish in refl
  feed_table-feed n id (customer_email_changed k old new at ∷ ds) rows own =
      let change = λ (row : Row). record row { email = new } in
      email_table_step n k old new at ds (in_columns column rows)
      ∙ ap (feed_table (suc n) ds) (update-in_columns column rows k change (λ row. refl))
      ∙ feed_table-feed (suc n) id ds (update k change rows) own.1
      ∙ ap (λ p. (p.0, in_columns column p.1)) (sym (email_step now ids n k old new at ds rows))
  feed_table-feed n id (customer_deactivated k reason at ∷ ds) rows own =
      let change = λ (row : Row). record row { status = codes "inactive" } in
      deactivated_table_step n k reason at ds (in_columns column rows)
      ∙ ap (feed_table (suc n) ds) (update-in_columns column rows k change (λ row. refl))
      ∙ feed_table-feed (suc n) id ds (update k change rows) own.1
      ∙ ap (λ p. (p.0, in_columns column p.1))
          (sym (deactivated_step now ids n k reason at ds rows))
  feed_table-feed n id (customer_created i m e at ∷ ds) rows own = absurd own.0
  feed_table-feed n id (order_placed i c at ∷ ds) rows own = absurd own.0
  feed_table-feed n id (user_registered i e at ∷ ds) rows own = absurd own.0
  feed_table-feed n id (payment_completed i o at ∷ ds) rows own = absurd own.0

-- If the table has the rows of the read model in memory, as its columns keep them, and the events
-- of a customer whom neither has are delivered in order, then it has them again afterwards: each
-- row the same but for what a column of type TIMESTAMPTZ keeps of its time of creation. The
-- handlers return the same errors.
pub publish-wired_table :
    (column : Time → Time) (now : Time) (ids : ℕ → Text) (n : ℕ) (rows : Rows) (id : CustomerId)
    (name : Text) (email : Email) (at : Time) (c : Customer) (xs : List Call)
    → new_customer id name email at ≡ ok c
    → get rows (run c xs).id.value ≡ none
    → Keeps column now ids
        (publish
          (wired_table column now)
          (translate ids n (run c xs).root.events)
          (in_columns column rows))
        (publish (wired now) (translate ids n (run c xs).root.events) rows)
publish-wired_table column now ids n rows id name email at c xs made absent =
    let key = (run c xs).id.value in
    let (name', email', at', ds, told, own) =
      (Story-run c xs (Story-new id name email at c made)).0 in
    rw told (
      created_table_step column now ids n key name' email' at' ds rows absent
      ∙ feed_table-feed column now ids (suc n) key ds
          (put rows key (
            row_of now (record {
              id = key;
              name = name';
              email = email';
              status = active;
              created_at = at';
              version = pos 1;
            })))
          own
      ∙ ap (λ p. (p.0, in_columns column p.1))
          (sym (created_step now ids n key name' email' at' ds rows)))
