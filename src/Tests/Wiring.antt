-- ===== src/Tests/Wiring.antt =====
-- The commands, the queries and the orders at concrete inputs.
use go_ddd.Prelude.{none, ◌≡◌, refl, ◌≢◌, List, [], ◌∷◌, some, arith, text_beq}
use go_ddd.Prelude.Int.{pos}
use go_ddd.Prelude.Map.{get, put, delete}
use go_ddd.Prelude.Text.{Text, codes, index_byte, count_byte, contains_byte}
use go_ddd.Prelude.Text.Trim.{trim_space}
use go_ddd.Prelude.Text.Trim.Lower.{to_lower}
use go_ddd.Prelude.Result.{ok, err, err_conflict}
use go_ddd.Shared.{Time, customer_created, pull_events, record_event}
use go_ddd.Customer.Email.{CustomerId, new_email, check_email, new_customer_id, is_zero, active}
use go_ddd.Customer.Aggregate.{validate_name, new_customer, to_snapshot, Snapshot, Customer}
use go_ddd.Customer.Repository.{exists_by_email, save, ensure_available}
use go_ddd.Customer.Messaging.{dispatch, to_integration_event}
use go_ddd.Outbox.{pending, publish, add}
use go_ddd.Customer.Commands.Recorded.{create_customer-records, created_event}
use go_ddd.Customer.Commands.Race.{interleaved, interleaved-shares}
use go_ddd.Customer.Repository.Index.{IsIndexed}
use go_ddd.Customer.Commands.{World, new_world, memory_deps, create_customer, noop}
use go_ddd.Customer.Commands.Tidy.{Command, creates, changes, run, run_all}
use go_ddd.Customer.Commands.Uniqueness.{HasUniqueEmails, run_all_unique, run-error}
use go_ddd.Tests.{tables, uuid, clock, ada, first_id}

abbrev commands : List Command
commands =
    creates (codes "Ada") (codes " Ada@X.io")
    ∷ creates (codes "Bob") (codes "ada@x.io")
    ∷ changes (codes "u0") (codes "bob@x.io")
    ∷ []

ada_is_valid : new_email tables (codes " Ada@X.io") ≡ ok ada
unfolding new_email check_email to_lower trim_space index_byte count_byte contains_byte text_beq
ada_is_valid = refl

abbrev after_all : World
after_all = run_all tables uuid clock commands new_world

run_all_unique_example : IsIndexed after_all.repo × HasUniqueEmails after_all.repo
run_all_unique_example = run_all_unique tables uuid clock commands

abbrev with_ada : World
with_ada = (run tables uuid clock (creates (codes "Ada") (codes "ada@x.io")) new_world).1

taken :
    (run tables uuid clock (creates (codes "Bob") (codes "ada@x.io")) with_ada).0 ≡ err err_conflict
unfolding run create_customer memory_deps noop dispatch new_email check_email to_lower trim_space
    index_byte count_byte contains_byte new_customer_id new_customer validate_name is_zero
    record_event pull_events ensure_available exists_by_email save get put delete text_beq
    to_snapshot publish add to_integration_event
taken = refl

run-error_example :
    ((run tables uuid clock (creates (codes "Bob") (codes "ada@x.io")) with_ada).1.repo
      ≡ with_ada.repo)
    × ((run tables uuid clock (creates (codes "Bob") (codes "ada@x.io")) with_ada).1.outbox
        ≡ with_ada.outbox)
run-error_example =
    run-error tables uuid clock (creates (codes "Bob") (codes "ada@x.io")) with_ada err_conflict
      taken

create_customer-records_example :
    let p =
      create_customer tables
        (memory_deps tables uuid clock)
        (codes "Ada")
        (codes " Ada@X.io")
        new_world in
    (p.0 ≡ ok (codes "u0"))
    × (get p.1.repo.by_id (codes "u0")
        ≡ some (record {
          id = codes "u0";
          name = codes "Ada";
          email = codes "ada@x.io";
          status = codes "active";
          created_at = 1;
          version = pos 1;
        }))
    × (p.1.outbox.order ≡ codes "u1" ∷ [])
    × (p.1.outbox.by_id
        ≡ (
          codes "u1",
          record {
            event =
                created_event tables uuid clock
                  (codes "u0")
                  (codes "Ada")
                  (codes "ada@x.io")
                  new_world;
            status = pending;
            attempts = pos 0;
            created_at = 2;
            published_at = none;
            last_error = [];
          },
        )
          ∷ [])
unfolding new_customer_id validate_name exists_by_email get text_beq
create_customer-records_example =
    create_customer-records tables uuid clock (codes "Ada") (codes " Ada@X.io") ada first_id
      new_world ada_is_valid refl refl refl refl refl

abbrev second_id : CustomerId
second_id = record { value = codes "u1" }

interleaved-shares_example :
    let p =
      interleaved tables uuid clock first_id (codes "Ada") second_id (codes "Bob") ada new_world in
    (p.0 ≡ ok tt ∷ ok tt ∷ ok tt ∷ ok tt ∷ [])
    × ((s : Snapshot) × (s' : Snapshot) × (get p.1.repo.by_id (codes "u0") ≡ some s)
        × (get p.1.repo.by_id (codes "u1") ≡ some s')
        × (s.email ≡ s'.email))
unfolding exists_by_email get new_customer validate_name is_zero text_beq
interleaved-shares_example =
    interleaved-shares tables uuid clock first_id second_id (codes "Ada") (codes "Bob") ada
      new_world refl refl refl apart (λ at. ((made first_id (codes "Ada") at), refl))
      (λ at. ((made second_id (codes "Bob") at), refl))
  where
    made : CustomerId → Text → Time → Customer
    made id name at = record {
      root = record { events = customer_created id.value name ada.value at ∷ [] };
      id = id;
      name = name;
      email = ada;
      status = active;
      created_at = at;
      version = pos 1;
    }

    apart : first_id.value ≢ second_id.value
    apart e = absurd (ground (arith, e))
