-- ===== src/Outbox/Reachable.antt =====
-- The store after any operations.
use go_ddd.Prelude.{◌≡◌, some, List, [], ◌∷◌, text_eq}
use go_ddd.Prelude.Int.{ℤ}
use go_ddd.Prelude.Text.{Text}
use go_ddd.Shared.{Time}
use go_ddd.EventBus.{Event}
use go_ddd.Outbox.{Store, new_store, mark_published, mark_failed, fetch_pending, publish}
use go_ddd.Outbox.Consistent.{
  IsConsistent, new_store-IsConsistent, add-IsConsistent, mark_published-IsConsistent,
  mark_failed-IsConsistent,
}
use go_ddd.Outbox.Fetch.{unpublished, first, fetch_pending-first}

pub data Operation : Type 0 where
  publishes : List Event → Time → Operation
  marks_published : List Text → Time → Operation
  marks_failed : Text → Text → Operation

pub operate : Store → Operation → Store
operate s (publishes es now) = publish s es now
operate s (marks_published gids now) = mark_published s gids now
operate s (marks_failed gid reason) = mark_failed s gid reason

pub operate_all : Store → List Operation → Store
operate_all s [] = s
operate_all s (x ∷ xs) = operate_all (operate s x) xs

operate-IsConsistent : (s : Store) (x : Operation) → IsConsistent s → IsConsistent (operate s x)
unfolding operate publish
operate-IsConsistent s (publishes [] now) c = c
operate-IsConsistent s (publishes (e ∷ es) now) c = add-IsConsistent s (e ∷ es) now c
operate-IsConsistent s (marks_published gids now) c = mark_published-IsConsistent s gids now c
operate-IsConsistent s (marks_failed gid reason) c = mark_failed-IsConsistent s gid reason c

operate_all-IsConsistent :
    (s : Store) (xs : List Operation) → IsConsistent s → IsConsistent (operate_all s xs)
unfolding operate_all
operate_all-IsConsistent s [] c = c
operate_all-IsConsistent s (x ∷ xs) c =
    operate_all-IsConsistent (operate s x) xs (operate-IsConsistent s x c)

-- After any operations on a new store, in any order and with any ids, the store is consistent, and
-- FetchPending returns, without a panic, the oldest messages that are not published, failed ones
-- included, as many as a positive limit allows.
pub operate_all-fetch_pending :
    (xs : List Operation) (limit : ℤ)
    → IsConsistent (operate_all new_store xs)
      × (fetch_pending (operate_all new_store xs) limit
          ≡ some (first limit (unpublished (operate_all new_store xs).by_id)))
operate_all-fetch_pending xs limit =
    let c = operate_all-IsConsistent new_store xs new_store-IsConsistent in
    (c, fetch_pending-first (operate_all new_store xs) limit c)
