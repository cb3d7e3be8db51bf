-- ===== src/Outbox/Consistent.antt =====
-- The order of the store names its messages, each once, and every operation keeps it so.
use go_ddd.Prelude.{
  ◌≡◌, refl, sym, ap, ◌∙◌, ◌≢◌, inl, inr, none, some, List, [], ◌∷◌, ◌++◌, map, arith, text_eq,
  text_beq_iff, All, All-append, Option-cases,
}
use go_ddd.Prelude.Text.{Text}
use go_ddd.Prelude.Map.{Map, get, put}
use go_ddd.Shared.{Time}
use go_ddd.EventBus.{Event}
use go_ddd.Outbox.{
  Message, Store, new_store, add_one, add, publish, mark_one, mark_published, mark_failed,
  fresh_message,
}

-- The keys, in the order of the entries.
abbrev pub keys : Map Message → List Text
keys = map (λ e. e.0)

-- The messages stand under their own ids.
abbrev pub Own : Text × Message → Type 0
Own (gid, m) = m.event.id ≡ gid

-- No id stands twice.
abbrev pub Distinct : List Text → Type 0
Distinct [] = Unit
Distinct (k ∷ ks) = All (λ j. j ≢ k) ks × Distinct ks

pub record IsConsistent (s : Store) : Type 0 where
  pub listed : s.order ≡ keys s.by_id
  pub distinct : Distinct (keys s.by_id)
  pub own : All Own s.by_id

pub new_store-IsConsistent : IsConsistent new_store
new_store-IsConsistent = record { listed = refl; distinct = tt; own = tt }

absent_of_get : (k : Text) (m : Map Message) → get m k ≡ none → All (λ j. j ≢ k) (keys m)
unfolding get
absent_of_get k [] h = tt
absent_of_get k ((j, x) ∷ m) h = ground (arith, text_beq_iff j k, absent_of_get k m)

pub put_new :
    (m : Map Message) (k : Text) (x : Message) → get m k ≡ none → put m k x ≡ m ++ (k, x) ∷ []
unfolding get put
put_new [] k x h = refl
put_new ((j, y) ∷ m) k x h = ground (arith, put_new m k x)

keys-put_old :
    (m : Map Message) (k : Text) (x y : Message) → get m k ≡ some y → keys (put m k x) ≡ keys m
unfolding get put
keys-put_old [] k x y h = cc
keys-put_old ((j, z) ∷ m) k x y h = ground (arith, keys-put_old m k x y)

pub keys-append :
    (m : Map Message) (k : Text) (x : Message) → keys (m ++ (k, x) ∷ []) ≡ keys m ++ k ∷ []
keys-append [] k x = refl
keys-append (e ∷ m) k x = ap (◌∷◌ e.0) (keys-append m k x)

Distinct-append :
    (ks : List Text) (k : Text) → All (λ j. j ≢ k) ks → Distinct ks → Distinct (ks ++ k ∷ [])
Distinct-append [] k a d = (tt, tt)
Distinct-append (j ∷ ks) k a d =
    (All-append (λ i. i ≢ j) ks (k ∷ []) d.0 ((λ e. a.0 (sym e)), tt), Distinct-append ks k a.1 d.1)

Own-put :
    (m : Map Message) (k : Text) (x : Message) → All Own m → x.event.id ≡ k → All Own (put m k x)
unfolding put
Own-put [] k x all e = (e, tt)
Own-put ((j, y) ∷ m) k x all e = ground (arith, text_beq_iff j k, Own-put m k x all.1 e)

get-Own : (m : Map Message) (k : Text) (x : Message) → All Own m → get m k ≡ some x → x.event.id ≡ k
unfolding get
get-Own [] k x all h = cc
get-Own ((j, y) ∷ m) k x all h = ground (arith, text_beq_iff j k, get-Own m k x all.1)

-- A message that is there is overwritten in its place, with the event it had.
overwrite-IsConsistent :
    (s : Store) (k : Text) (x y : Message)
    → IsConsistent s
    → get s.by_id k ≡ some y
    → x.event ≡ y.event
    → IsConsistent (record s { by_id = put s.by_id k x })
overwrite-IsConsistent s k x y c h e =
    let same = keys-put_old s.by_id k x y h in
    record {
      listed = c.listed ∙ sym same;
      distinct = rw same c.distinct;
      own = Own-put s.by_id k x c.own (ap (λ v. v.id) e ∙ get-Own s.by_id k y c.own h);
    }

add_one-IsConsistent :
    (s : Store) (e : Event) (now : Time) → IsConsistent s → IsConsistent (add_one s e now)
unfolding add_one
add_one-IsConsistent s e now c = elim (Option-cases (get s.by_id e.id)) [
  | inr (dup, h) ↦ rw (h, add_one) c
  | inl h ↦
      let grown : keys (put s.by_id e.id (fresh_message e now)) ≡ keys s.by_id ++ e.id ∷ [] =
        ap keys (put_new s.by_id e.id (fresh_message e now) h)
        ∙ keys-append s.by_id e.id (fresh_message e now) in
      rw (h, add_one)
        (record {
          listed = ap (λ ks. ks ++ e.id ∷ []) c.listed ∙ sym grown;
          distinct =
              rw grown
                (Distinct-append (keys s.by_id) e.id (absent_of_get e.id s.by_id h) c.distinct);
          own = Own-put s.by_id e.id (fresh_message e now) c.own refl;
        })
]

pub add-IsConsistent :
    (s : Store) (es : List Event) (now : Time) → IsConsistent s → IsConsistent (add s es now)
unfolding add
add-IsConsistent s [] now c = c
add-IsConsistent s (e ∷ es) now c =
    add-IsConsistent (add_one s e now) es now (add_one-IsConsistent s e now c)

pub publish-IsConsistent :
    (s : Store) (es : List Event) (now : Time) → IsConsistent s → IsConsistent (publish s es now)
unfolding publish
publish-IsConsistent s [] now c = c
publish-IsConsistent s (e ∷ es) now c = add-IsConsistent s (e ∷ es) now c

-- An event with a new id comes last.
pub publish_new :
    (s : Store) (e : Event) (now : Time)
    → get s.by_id e.id ≡ none
    → (publish s (e ∷ []) now).by_id ≡ s.by_id ++ (e.id, fresh_message e now) ∷ []
unfolding publish add add_one
publish_new s e now h = rw (h, add_one) (put_new s.by_id e.id (fresh_message e now) h)

-- A new event goes to the end of the store.
pub publish_added :
    (s : Store) (e : Event) (now : Time)
    → get s.by_id e.id ≡ none
    → publish s (e ∷ []) now
      ≡ record { order = s.order ++ e.id ∷ []; by_id = s.by_id ++ (e.id, fresh_message e now) ∷ [] }
unfolding publish add add_one
publish_added s e now h =
    rw (h, add_one)
      (ap (λ m. record { order = s.order ++ e.id ∷ []; by_id = m })
        (put_new s.by_id e.id (fresh_message e now) h))

mark_one-IsConsistent :
    (s : Store) (gid : Text) (now : Time) → IsConsistent s → IsConsistent (mark_one s gid now)
unfolding mark_one
mark_one-IsConsistent s gid now c = elim (Option-cases (get s.by_id gid)) [
  | inl h ↦ rw (h, mark_one) c
  | inr (m, h) ↦ rw (h, mark_one) (overwrite-IsConsistent s gid _ m c h refl)
]

pub mark_published-IsConsistent :
    (s : Store) (gids : List Text) (now : Time)
    → IsConsistent s
    → IsConsistent (mark_published s gids now)
unfolding mark_published
mark_published-IsConsistent s [] now c = c
mark_published-IsConsistent s (g ∷ gs) now c =
    mark_published-IsConsistent (mark_one s g now) gs now (mark_one-IsConsistent s g now c)

pub mark_failed-IsConsistent :
    (s : Store) (gid reason : Text) → IsConsistent s → IsConsistent (mark_failed s gid reason)
unfolding mark_failed
mark_failed-IsConsistent s gid reason c = elim (Option-cases (get s.by_id gid)) [
  | inl h ↦ rw (h, mark_failed) c
  | inr (m, h) ↦ rw (h, mark_failed) (overwrite-IsConsistent s gid _ m c h refl)
]
