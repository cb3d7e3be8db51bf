-- ===== src/Customer/Aggregate/Lifecycle.antt =====
-- A Customer through any sequence of calls: its events, its version and its last state.
use mathlib.Core.List.{foldl, foldl-append}
use go_ddd.Prelude.{
  ℕ, suc, ◌+◌, ◌≤◌, ◌<◌, ◌≡◌, refl, sym, ap, ◌∙◌, List, [], ◌∷◌, ◌++◌, arith, text_eq, length,
}
use go_ddd.Prelude.Int.{ℤ, pos, int_succ, max_int}
use go_ddd.Prelude.Text.{Text}
use go_ddd.Prelude.Result.{Result, ok, err}
use go_ddd.Shared.{
  Time, DomainEvent, customer_created, customer_email_changed, customer_deactivated,
}
use go_ddd.Customer.Email.{CustomerId, Email, Status, active, deactivated}
use go_ddd.Customer.Aggregate.{Customer, new_customer, change_email, deactivate}

pub data Call : Type 0 where
  changes_email : Email → Time → Call
  deactivates : Text → Time → Call

-- A call that fails leaves the aggregate as it was.
abbrev settle : Customer → Result Customer → Customer
settle c (ok c') = c'
settle c (err e) = c

unfoldable pub call : Customer → Call → Customer
call c (changes_email new now) = settle c (change_email c new now)
call c (deactivates reason now) = deactivate c reason now

unfoldable pub run : Customer → List Call → Customer
run c [] = c
run c (x ∷ xs) = run (call c x) xs

-- What the events of one customer say of it.
pub record Facts : Type 0 where
  pub id : Text
  pub name : Text
  pub email : Text
  pub status : Status
  pub created_at : Time
  pub version : ℤ

unfoldable pub evolve : Facts → DomainEvent → Facts
evolve f (customer_created id name email now) = record {
  id = id;
  name = name;
  email = email;
  status = active;
  created_at = now;
  version = pos 1;
}
evolve f (customer_email_changed id old new now) = record f {
  email = new;
  version = int_succ f.version;
}
evolve f (customer_deactivated id reason now) = record f {
  status = deactivated;
  version = int_succ f.version;
}
evolve f _ = f

abbrev pub facts : Customer → Facts
facts c = record {
  id = c.id.value;
  name = c.name;
  email = c.email.value;
  status = c.status;
  created_at = c.created_at;
  version = c.version;
}

abbrev pub blank : Facts
blank = record { id = []; name = []; email = []; status = active; created_at = 0; version = pos 0 }

abbrev pub replay : Customer → Facts
replay c = foldl evolve blank c.root.events

replay-call : (c : Customer) (x : Call) → replay c ≡ facts c → replay (call c x) ≡ facts (call c x)
unfolding call change_email deactivate evolve
replay-call c (changes_email new now) h = ground (
  arith,
  foldl-append evolve blank c.root.events
      (customer_email_changed c.id.value c.email.value new.value now ∷ []),
)
replay-call c (deactivates reason now) h = ground (
  arith,
  foldl-append evolve blank c.root.events (customer_deactivated c.id.value reason now ∷ []),
)

replay-run :
    (c : Customer) (xs : List Call) → replay c ≡ facts c → replay (run c xs) ≡ facts (run c xs)
unfolding run
replay-run c [] h = h
replay-run c (x ∷ xs) h = replay-run (call c x) xs (replay-call c x h)

replay-new :
    (id : CustomerId) (name : Text) (email : Email) (now : Time) (c : Customer)
    → new_customer id name email now ≡ ok c
    → (replay c ≡ facts c) × (c.version ≡ pos 1) × (length c.root.events ≡ 1)
unfolding new_customer evolve
replay-new id name email now c h = ground arith

-- After any calls on a customer just made, and until its events are pulled, they alone give the
-- state of the aggregate back: id, name, address, status, time of creation and version.
pub replay-run_new :
    (id : CustomerId) (name : Text) (email : Email) (now : Time) (c : Customer) (xs : List Call)
    → new_customer id name email now ≡ ok c
    → replay (run c xs) ≡ facts (run c xs)
replay-run_new id name email now c xs h = replay-run c xs (replay-new id name email now c h).0

length_snoc : (xs : List DomainEvent) (x : DomainEvent) → length (xs ++ x ∷ []) ≡ suc (length xs)
length_snoc [] x = refl
length_snoc (y ∷ ys) x = ap suc (length_snoc ys x)

int_succ_pos : (n : ℕ) → n < max_int → int_succ (pos n) ≡ pos (suc n)
unfolding int_succ
int_succ_pos n h = ground arith

abbrev Counted : Customer → ℕ → Type 0
Counted c n = (c.version ≡ pos (length c.root.events)) × (length c.root.events ≤ n)

call-Counted :
    (c : Customer) (x : Call) (n : ℕ) → n < max_int → Counted c n → Counted (call c x) (suc n)
unfolding call change_email deactivate
call-Counted c (changes_email new now) n lt h = ground (
  arith,
  length_snoc c.root.events (customer_email_changed c.id.value c.email.value new.value now),
  int_succ_pos (length c.root.events),
)
call-Counted c (deactivates reason now) n lt h = ground (
  arith,
  length_snoc c.root.events (customer_deactivated c.id.value reason now),
  int_succ_pos (length c.root.events),
)

run-Counted :
    (c : Customer) (xs : List Call) (n : ℕ)
    → n + length xs ≤ max_int
    → Counted c n
    → Counted (run c xs) (n + length xs)
unfolding run
run-Counted c [] n fits h = (h.0, omega (arith, h.1))
run-Counted c (x ∷ xs) n fits h =
    let ih = run-Counted (call c x) xs (suc n) (omega arith) (call-Counted c x n (omega arith) h) in
    (ih.0, omega (arith, ih.1))

-- While the calls do not outnumber the `int`s, the version counts the recorded events: each call
-- that changes the aggregate raises it by one and records one event, and no other does either.
pub version-run_new :
    (id : CustomerId) (name : Text) (email : Email) (now : Time) (c : Customer) (xs : List Call)
    → new_customer id name email now ≡ ok c
    → 1 + length xs ≤ max_int
    → (run c xs).version ≡ pos (length (run c xs).root.events)
version-run_new id name email now c xs h fits =
    let (_, one, single) = replay-new id name email now c h in
    (run-Counted c xs 1 fits (one ∙ ap pos (sym single), omega arith)).0

call-deactivated : (c : Customer) (x : Call) → c.status ≡ deactivated → call c x ≡ c
unfolding call change_email deactivate
call-deactivated c (changes_email new now) h = ground arith
call-deactivated c (deactivates reason now) h = ground arith

-- A deactivated customer never changes again.
pub run-deactivated : (c : Customer) (xs : List Call) → c.status ≡ deactivated → run c xs ≡ c
unfolding run
run-deactivated c [] h = refl
run-deactivated c (x ∷ xs) h = rw (call-deactivated c x h) (run-deactivated c xs h)
