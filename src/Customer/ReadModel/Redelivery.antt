-- ===== src/Customer/ReadModel/Redelivery.antt =====
-- The read model when the outbox delivers an event once more.
use go_ddd.Prelude.{ℕ, ◌≡◌, sym, ◌∙◌, some, List, [], subst}
use go_ddd.Prelude.Text.{Text}
use go_ddd.Prelude.Map.{get, SameBut}
use go_ddd.Prelude.Result.{ok}
use go_ddd.Shared.{Time}
use go_ddd.EventBus.{publish}
use go_ddd.Customer.Email.{CustomerId, Email}
use go_ddd.Customer.Aggregate.{Customer, new_customer}
use go_ddd.Customer.Aggregate.Lifecycle.{Call, run, facts}
use go_ddd.Customer.Aggregate.Story.{Story-run, Story-new}
use go_ddd.Customer.ReadModel.{Rows}
use go_ddd.Customer.ReadModel.Projection.{wired, translate, row_of, publish-shows}

SameBut-trans : (id : Text) (a b c : Rows) → SameBut id a b → SameBut id b c → SameBut id a c
SameBut-trans id a b c h h' k ne = h' k ne ∙ h k ne

-- When the event that a customer was created is delivered once more after all its events, the
-- handler succeeds and the row shows the customer as it was created: what its later events had
-- changed is lost. No other row changes.
pub created_again :
    (now : Time) (ids : ℕ → Text) (n : ℕ) (rows : Rows) (id : CustomerId) (name : Text)
    (email : Email) (at : Time) (c : Customer) (xs : List Call)
    → new_customer id name email at ≡ ok c
    → let before = (publish (wired now) (translate ids n (run c xs).root.events) rows).1 in
      let p = publish (wired now) (translate ids n c.root.events) before in
      (p.0 ≡ some [])
      × (get p.1 (run c xs).id.value ≡ some (row_of now (facts c)))
      × SameBut (run c xs).id.value rows p.1
unfolding run
created_again now ids n rows id name email at c xs made =
    let before = (publish (wired now) (translate ids n (run c xs).root.events) rows).1 in
    let p = publish (wired now) (translate ids n c.root.events) before in
    let same = (Story-run c xs (Story-new id name email at c made)).1 in
    let (done, shows, kept) = publish-shows now ids n before id name email at c [] made in
    let (first_done, first_shows, others) =
      publish-shows now ids n rows id name email at c xs made in
    (
      done,
      subst (λ i. get p.1 i.value ≡ some (row_of now (facts c))) (sym same) shows,
      SameBut-trans (run c xs).id.value rows before p.1 others
          (subst (λ i. SameBut i.value before p.1) (sym same) kept),
    )
