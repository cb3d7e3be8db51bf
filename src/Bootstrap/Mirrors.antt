-- ===== src/Bootstrap/Mirrors.antt =====
-- When the read model shows the customers, and what keeps it so.
use go_ddd.Prelude.{
  suc, ◌≡◌, ◌≢◌, Option, text_beq_iff, text_beq_refl, refl, sym, ap, subst, ◌∙◌, inl, inr, none,
  some, List, [], ◌∷◌, ◌++◌, arith, text_eq, text_beq, length, length-append, Bool-cases,
}
use mathlib.Core.Option
use go_ddd.Prelude.Int.{ℤ}
use go_ddd.Prelude.Text.{Text, codes}
use go_ddd.Prelude.Map.{Map, get, put, get-put}
use go_ddd.Shared.{Time}
use go_ddd.Customer.Aggregate.{Snapshot}
use go_ddd.Customer.Repository.{Repository}
use go_ddd.Customer.ReadModel.{Row, non_zero}
use go_ddd.Customer.ReadModel.Projection.{get-update}
use go_ddd.Customer.Commands.Effects.{created, changed}
use go_ddd.Contexts.{Welcome}
use go_ddd.Bootstrap.{Behind}
use go_ddd.Bootstrap.Feed.{observe, observe-created, observe-changed}

-- The row of a customer.
abbrev pub row_at : Time → Snapshot → Row
row_at now s = record {
  id = s.id;
  name = s.name;
  email = s.email;
  status = s.status;
  created_at = non_zero now s.created_at;
}

-- The welcome of a customer: to its address, by its name.
abbrev pub welcome_of : Snapshot → Welcome
welcome_of s = record { to = s.email; name = s.name }

-- The read model has exactly the customers, each as it is; these welcomes were sent, in this order,
-- and there are as many as customers.
abbrev pub Mirrors : Time → List Welcome → Repository → Behind → Type 0
Mirrors now due repo b =
    ((id : Text) → get b.rows id ≡ Option.map (row_at now) (get repo.by_id id))
    × (b.welcomes ≡ due)
    × (length due ≡ length repo.by_id)

length-put_new :
    {V : Type 0} (m : Map V) (k : Text) (v : V)
    → get m k ≡ none
    → length (put m k v) ≡ suc (length m)
unfolding get put
length-put_new [] k v h = refl
length-put_new ((j, x) ∷ m) k v h = ground (arith, length-put_new m k v)

length-put_old :
    {V : Type 0} (m : Map V) (k : Text) (v x : V) → get m k ≡ some x → length (put m k v) ≡ length m
unfolding get put
length-put_old [] k v x h = absurd (ground (arith, h))
length-put_old ((j, y) ∷ m) k v x h = ground (arith, length-put_old m k v x)

-- The customers that were added, as they are.
abbrev pub newcomers : Map Snapshot → Map Snapshot → List Snapshot
newcomers before [] = []
newcomers before ((k, s) ∷ m) =
    let rest = newcomers before m in elim (get before k) [ none ↦ s ∷ rest | some old ↦ rest ]

get_here : (k : Text) (s : Snapshot) (m : Map Snapshot) → get ((k, s) ∷ m) k ≡ some s
unfolding get
get_here k s m = rw (text_beq_refl k) refl

get_later :
    (j k : Text) (x : Snapshot) (m : Map Snapshot) → get m k ≢ none → get ((j, x) ∷ m) k ≢ none
unfolding get
get_later j k x m h = elim (Bool-cases (text_beq j k)) [
  | inl same ↦ rw same (λ e. absurd (ground (arith, e)))
  | inr other ↦ rw other h
]

-- Nobody is new if every customer was there.
pub newcomers-none :
    (before m : Map Snapshot)
    → ((k : Text) → get m k ≢ none → get before k ≢ none)
    → newcomers before m ≡ []
newcomers-none before [] h = refl
newcomers-none before ((k, s) ∷ m) h =
    go (get before k) refl (newcomers-none before m (λ j there. h j (get_later k j s m there)))
  where
    known : get before k ≢ none
    known = h k (λ e. absurd (ground (arith, sym (get_here k s m) ∙ e)))

    go :
        (o : Option Snapshot)
        → get before k ≡ o
        → newcomers before m ≡ []
        → (elim o [ none ↦ s ∷ newcomers before m | some old ↦ newcomers before m ]) ≡ []
    go none h ih = absurd (known h)
    go (some old) h ih = ih

newcomers-append :
    (before m : Map Snapshot) (k : Text) (s : Snapshot)
    → get before k ≡ none
    → newcomers before (m ++ (k, s) ∷ []) ≡ newcomers before m ++ s ∷ []
newcomers-append before [] k s new = rw (newcomers, new) refl
newcomers-append before ((j, x) ∷ m) k s new = go (get before j) (newcomers-append before m k s new)
  where
    go :
        (o : Option Snapshot)
        → newcomers before (m ++ (k, s) ∷ []) ≡ newcomers before m ++ s ∷ []
        → (elim o [
          | none ↦ x ∷ newcomers before (m ++ (k, s) ∷ [])
          | some old ↦ newcomers before (m ++ (k, s) ∷ [])
        ])
          ≡ (elim o [ none ↦ x ∷ newcomers before m | some old ↦ newcomers before m ]) ++ s ∷ []
    go none ih = ap (λ ss. x ∷ ss) ih
    go (some old) ih = ih

put_at_end :
    (m : Map Snapshot) (k : Text) (s : Snapshot) → get m k ≡ none → put m k s ≡ m ++ (k, s) ∷ []
unfolding get put
put_at_end [] k s h = refl
put_at_end ((j, y) ∷ m) k s h = ground (arith, put_at_end m k s)

pub newcomers-put_new :
    (m : Map Snapshot) (k : Text) (s : Snapshot) → get m k ≡ none → newcomers m (put m k s) ≡ s ∷ []
newcomers-put_new m k s new =
    ap (newcomers m) (put_at_end m k s new)
    ∙ newcomers-append m m k s new
    ∙ ap (λ ss. ss ++ s ∷ []) (newcomers-none m m (λ j there. there))

pub newcomers-put_old :
    (m : Map Snapshot) (k : Text) (s old : Snapshot)
    → get m k ≡ some old
    → newcomers m (put m k s) ≡ []
newcomers-put_old m k s old found = newcomers-none m (put m k s) (λ j there.
    elim (Bool-cases (text_beq k j)) [
      | inl same ↦ λ e. absurd (ground (arith, found, e, ap (get m) ((text_beq_iff k j).0 same)))
      | inr other ↦ λ e. there (get-put m k j s ∙ rw other e)
    ])

module _ (now : Time) where
  pub created-Mirrors :
      (due : List Welcome) (repo repo' : Repository) (b : Behind) (s : Snapshot) (gid : Text)
      → s.status ≡ codes "active"
      → get repo.by_id s.id ≡ none
      → repo'.by_id ≡ put repo.by_id s.id s
      → Mirrors now due repo b
      → Mirrors now
          (due ++ welcome_of s ∷ [])
          repo'
          (observe now b (created gid s.id s.name s.email s.created_at))
  created-Mirrors due repo repo' b s gid status new stored (shows, sent, count) =
      subst (Mirrors now (due ++ welcome_of s ∷ []) repo')
        (sym (observe-created now b gid s.id s.name s.email s.created_at))
        (
          λ id. elim (Bool-cases (text_beq s.id id)) [
            | inl same ↦
                rw
                  (
                    stored,
                    get-put b.rows s.id id (record (row_at now s) { status = codes "active" }),
                    get-put repo.by_id s.id id s,
                    same,
                    status,
                  )
                  refl
            | inr other ↦
                rw
                  (
                    stored,
                    get-put b.rows s.id id (record (row_at now s) { status = codes "active" }),
                    get-put repo.by_id s.id id s,
                    other,
                  )
                  (shows id)
          ],
          ap (λ ws. ws ++ welcome_of s ∷ []) sent,
          length-append due (welcome_of s ∷ [])
              ∙ omega (arith, count, ap length stored, length-put_new repo.by_id s.id s new),
        )

  pub changed-Mirrors :
      (due : List Welcome) (repo repo' : Repository) (b : Behind) (s : Snapshot)
      (gid old new : Text) (version : ℤ) (at : Time)
      → get repo.by_id s.id ≡ some s
      → repo'.by_id ≡ put repo.by_id s.id (record s { email = new; version = version })
      → Mirrors now due repo b
      → Mirrors now due repo' (observe now b (changed gid s.id old new at))
  changed-Mirrors due repo repo' b s gid old new version at found stored (shows, sent, count) =
      let s' : Snapshot = record s { email = new; version = version } in
      let known : get b.rows s.id ≡ some (row_at now s) =
        shows s.id ∙ ap (Option.map (row_at now)) found in
      subst (Mirrors now due repo') (sym (observe-changed now b gid s.id old new at)) (
        λ id. elim (Bool-cases (text_beq s.id id)) [
          | inl same ↦
              rw
                (
                  stored,
                  get-update now (λ n. []) s.id id (λ r. record r { email = new }) b.rows
                      (row_at now s) known,
                  get-put repo.by_id s.id id s',
                  same,
                )
                refl
          | inr other ↦
              rw
                (
                  stored,
                  get-update now (λ n. []) s.id id (λ r. record r { email = new }) b.rows
                      (row_at now s) known,
                  get-put repo.by_id s.id id s',
                  other,
                )
                (shows id)
        ],
        sent,
        count ∙ sym (ap length stored ∙ length-put_old repo.by_id s.id s' s found),
      )
