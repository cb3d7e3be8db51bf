-- ===== src/Customer/Repository/Index.antt =====
-- The index of addresses of the repository in memory, and what each repository makes of a stale
-- write.
use go_ddd.Prelude.{
  ◌≡◌, refl, sym, ◌∙◌, ◌≢◌, ◌⊎◌, inl, inr, Option, none, some, arith, text_eq, text_beq,
  text_beq_iff, text_beq_refl, Bool-cases, some_inj,
}
use go_ddd.Prelude.Text.{Text}
use go_ddd.Prelude.Map.{Map, get, get-put, get-delete}
use go_ddd.Prelude.Result.{Error, err}
use go_ddd.Customer.Aggregate.{Customer, Snapshot, to_snapshot}
use go_ddd.Customer.Repository.{
  Repository, new_repository, release, write, is_newer, save_snapshot, save,
}

-- Each row stands under its own id, and the index holds exactly the addresses of the rows.
pub record IsIndexed (r : Repository) : Type 0 where
  pub own : (id : Text) (s : Snapshot) → get r.by_id id ≡ some s → s.id ≡ id
  pub indexed :
      (id : Text) (s : Snapshot) → get r.by_id id ≡ some s → get r.by_email s.email ≡ some id
  pub backed :
      (email id : Text)
      → get r.by_email email ≡ some id
      → (s : Snapshot) × (get r.by_id id ≡ some s) × (s.email ≡ email)

pub new_repository-IsIndexed : IsIndexed new_repository
unfolding get
new_repository-IsIndexed = record {
  own = λ id s h. absurd (ground (arith, h));
  indexed = λ id s h. absurd (ground (arith, h));
  backed = λ email id h. absurd (ground (arith, h));
}

-- Nobody else has the address.
abbrev pub Free : Repository → Snapshot → Type 0
Free r snap = (id : Text) → get r.by_email snap.email ≡ some id → id ≡ snap.id

get-release :
    (old : Option Snapshot) (snap : Snapshot) (index : Map Text) (email id : Text)
    → snap.email ≢ email
    → get (release old snap index) email ≡ some id
    → (get index email ≡ some id) × ((s : Snapshot) → old ≡ some s → s.email ≢ email)
unfolding release
get-release none snap index email id ne h = (h, λ s eq e. absurd (ground (arith, eq)))
get-release (some x) snap index email id ne h = (
  ground (
    arith,
    text_beq_iff x.email snap.email,
    get-delete index x.email email,
    text_beq_iff x.email email,
  ),
  λ s eq e. absurd (
      ground (
        arith,
        eq,
        e,
        text_beq_iff x.email snap.email,
        get-delete index x.email email,
        text_beq_iff x.email email,
      )),
)

release-get :
    (old : Option Snapshot) (snap : Snapshot) (index : Map Text) (email : Text)
    → ((s : Snapshot) → old ≡ some s → s.email ≢ email)
    → get (release old snap index) email ≡ get index email
unfolding release
release-get none snap index email ne = refl
release-get (some x) snap index email ne =
    ground (arith, ne x refl, get-delete index x.email email, text_beq_iff x.email email)

get-write_row :
    (r : Repository) (snap : Snapshot) (id : Text) (s : Snapshot)
    → get (write snap r).by_id id ≡ some s
    → ((snap.id ≡ id) × (s ≡ snap)) ⊎ ((snap.id ≢ id) × (get r.by_id id ≡ some s))
unfolding write
get-write_row r snap id s h =
    ground (arith, h, get-put r.by_id snap.id id snap, text_beq_iff snap.id id)

get-write_email :
    (r : Repository) (snap : Snapshot) (email id : Text)
    → get (write snap r).by_email email ≡ some id
    → ((snap.email ≡ email) × (id ≡ snap.id))
      ⊎ ((snap.email ≢ email)
          × (get r.by_email email ≡ some id)
          × ((s : Snapshot) → get r.by_id snap.id ≡ some s → s.email ≢ email))
unfolding write
get-write_email r snap email id h = elim (Bool-cases (text_beq snap.email email)) [
  | inl same ↦ inl (
      ground (
        arith,
        h,
        same,
        text_beq_iff snap.email email,
        get-put (release (get r.by_id snap.id) snap r.by_email) snap.email email snap.id,
      ))
  | inr ne ↦
      let apart : snap.email ≢ email = ground (arith, ne, text_beq_iff snap.email email) in
      let h' : get (release (get r.by_id snap.id) snap r.by_email) email ≡ some id = ground (
        arith,
        h,
        ne,
        get-put (release (get r.by_id snap.id) snap r.by_email) snap.email email snap.id,
      ) in
      let (before, kept) = get-release (get r.by_id snap.id) snap r.by_email email id apart h' in
      inr (apart, before, kept)
]

email_at :
    (r : Repository) (snap : Snapshot) → get (write snap r).by_email snap.email ≡ some snap.id
unfolding write
email_at r snap = ground (
  arith,
  text_beq_refl snap.email,
  get-put (release (get r.by_id snap.id) snap r.by_email) snap.email snap.email snap.id,
)

email_apart :
    (r : Repository) (snap : Snapshot) (email : Text)
    → snap.email ≢ email
    → ((s : Snapshot) → get r.by_id snap.id ≡ some s → s.email ≢ email)
    → get (write snap r).by_email email ≡ get r.by_email email
unfolding write
email_apart r snap email ne kept = ground (
  arith,
  ne,
  text_beq_iff snap.email email,
  get-put (release (get r.by_id snap.id) snap r.by_email) snap.email email snap.id,
  release-get (get r.by_id snap.id) snap r.by_email email kept,
)

module _ (r : Repository) (snap : Snapshot) (ix : IsIndexed r) (free : Free r snap) where
  write_indexed :
      (id : Text) (s : Snapshot)
      → get (write snap r).by_id id ≡ some s
      → get (write snap r).by_email s.email ≡ some id
  write_indexed id s h = elim (get-write_row r snap id s h) [
    | inl (same, e) ↦ rw (e, sym same) (email_at r snap)
    | inr (ne, h') ↦
        let listed = ix.indexed id s h' in
        let apart : snap.email ≢ s.email = λ e. ne (sym (free id (rw e listed))) in
        email_apart r snap s.email apart
          (λ x at e. ne (some_inj (sym (rw e at (ix.indexed snap.id x at)) ∙ listed)))
        ∙ listed
  ]

  write_backed :
      (email id : Text)
      → get (write snap r).by_email email ≡ some id
      → (s : Snapshot) × (get (write snap r).by_id id ≡ some s) × (s.email ≡ email)
  unfolding write
  write_backed email id h = elim (get-write_email r snap email id h) [
    | inl (same, e) ↦
        (snap, ground (arith, e, text_beq_refl snap.id, get-put r.by_id snap.id id snap), same)
    | inr (ne, h', kept) ↦
        let (s, at, e) = ix.backed email id h' in
        let apart : snap.id ≢ id = λ same. kept s (rw same at) e in
        (s, ground (arith, apart, at, text_beq_iff snap.id id, get-put r.by_id snap.id id snap), e)
  ]

  write-IsIndexed : IsIndexed (write snap r)
  write-IsIndexed = record {
    own = λ id s h. ground (arith, get-write_row r snap id s h, ix.own id s);
    indexed = write_indexed;
    backed = write_backed;
  }

pub save-err : (r : Repository) (c : Customer) (e : Error) → (save c r).0 ≡ err e → (save c r).1 ≡ r
unfolding save save_snapshot
save-err r c e h = ground (arith, h)

-- A save keeps an exact index exact when nobody else has the customer's address, whether it
-- succeeds or not.
pub save-IsIndexed :
    (r : Repository) (c : Customer) → IsIndexed r → Free r (to_snapshot c) → IsIndexed (save c r).1
unfolding save save_snapshot
save-IsIndexed r c ix free =
    elim (Bool-cases (is_newer (get r.by_id (to_snapshot c).id) (to_snapshot c))) [
      | inl stale ↦ rw stale ix
      | inr fresh ↦ rw fresh (write-IsIndexed r (to_snapshot c) ix free)
    ]

-- Two rows of an exact index never share an address.
pub unique_email :
    (r : Repository) (id id' : Text) (s s' : Snapshot)
    → IsIndexed r
    → get r.by_id id ≡ some s
    → get r.by_id id' ≡ some s'
    → s.email ≡ s'.email
    → id ≡ id'
unique_email r id id' s s' ix h h' e =
    some_inj (sym (ix.indexed id s h) ∙ rw e (ix.indexed id' s' h'))
