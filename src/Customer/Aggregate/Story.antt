-- ===== src/Customer/Aggregate/Story.antt =====
-- What the recorded events of a customer look like.
use go_ddd.Prelude.{
  ◌≡◌, refl, ap, ◌∙◌, ◌⊎◌, inl, inr, List, [], ◌∷◌, ◌++◌, arith, text_eq, All, All-append,
}
use go_ddd.Prelude.Text.{Text}
use go_ddd.Prelude.Result.{ok}
use go_ddd.Shared.{
  Time, DomainEvent, customer_created, customer_email_changed, customer_deactivated, record_event,
}
use go_ddd.Customer.Email.{CustomerId, Email}
use go_ddd.Customer.Aggregate.{Customer, new_customer, change_email, deactivate}
use go_ddd.Customer.Aggregate.Lifecycle.{Call, changes_email, deactivates, call, run}

-- A later event of the customer.
abbrev pub Later : Text → DomainEvent → Type 0
Later id (customer_email_changed k old new at) = k ≡ id
Later id (customer_deactivated k reason at) = k ≡ id
Later id _ = ⊥

-- The first event says that the customer was created, the others come later.
abbrev pub Story : Customer → Type 0
Story c =
    (name : Text) × (email : Text) × (at : Time) × (ds : List DomainEvent) × (c.root.events
      ≡ customer_created c.id.value name email at ∷ ds)
    × All (Later c.id.value) ds

-- The event of a call that changes the customer.
abbrev said : Customer → Call → DomainEvent
said c (changes_email new now) = customer_email_changed c.id.value c.email.value new.value now
said c (deactivates reason now) = customer_deactivated c.id.value reason now

said-Later : (c : Customer) (x : Call) → Later c.id.value (said c x)
said-Later c (changes_email new now) = refl
said-Later c (deactivates reason now) = refl

call-said :
    (c : Customer) (x : Call)
    → ((call c x).id ≡ c.id)
      × (((call c x).root.events ≡ c.root.events)
          ⊎ ((call c x).root.events ≡ c.root.events ++ said c x ∷ []))
unfolding call change_email deactivate record_event
call-said c (changes_email new now) = ground arith
call-said c (deactivates reason now) = ground arith

Story-call : (c : Customer) (x : Call) → Story c → Story (call c x)
Story-call c x (name, email, at, ds, told, own) =
    let (same, grown) = call-said c x in
    elim grown [
      | inl kept ↦ (name, email, at, ds, kept ∙ rw same told, rw same own)
      | inr more ↦ (
        name,
        email,
        at,
        ds ++ said c x ∷ [],
        more ∙ rw same (ap (λ es. es ++ said c x ∷ []) told),
        rw same (All-append (Later c.id.value) ds (said c x ∷ []) own (said-Later c x, tt)),
      )
    ]

pub Story-run :
    (c : Customer) (xs : List Call) → Story c → (Story (run c xs)) × ((run c xs).id ≡ c.id)
unfolding run
Story-run c [] h = (h, refl)
Story-run c (x ∷ xs) h =
    let (told, same) = Story-run (call c x) xs (Story-call c x h) in
    (told, same ∙ (call-said c x).0)

pub Story-new :
    (id : CustomerId) (name : Text) (email : Email) (at : Time) (c : Customer)
    → new_customer id name email at ≡ ok c
    → Story c
unfolding new_customer record_event
Story-new id name email at c h = (name, email.value, at, [], ground (arith, h), tt)
