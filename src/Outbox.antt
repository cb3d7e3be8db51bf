-- ===== src/Outbox.antt =====
-- internal/eventbus/outbox: the message store, its publisher and the relay.
pub mod Consistent
pub mod Fetch
pub mod Reachable
pub mod Relay
use go_ddd.Prelude.{
  ℕ, zero, suc, ◌+◌, ◌-◌, ◌*◌, ◌/◌, ◌%◌, ◌^◌, ◌≤◌, ◌<◌, min, ◌≡◌, refl, sym, ap, ◌∙◌, ◌≢◌, ◌↔◌, ◌⊎◌,
  inl, inr, Bool, true, false, ◌&&◌, ◌||◌, not, Option, none, some, List, [], ◌∷◌, ◌++◌, map,
  append_assoc, append-nil, arith, ltb, leb, nat_beq, nat_beq_iff, ◌==◌, text_eq, text_beq,
  text_beq_iff, text_beq_refl, length, length-append, take, drop, length-take, length-drop,
  take-append-drop, All, All-append, All-filter, filter, Bool-cases, Option-cases, if◌then◌else◌,
}
use go_ddd.Prelude.Int.{ℤ, pos, int_succ, ltb_ℤ, leb_ℤ}
use go_ddd.Prelude.Text.{Text, codes}
use go_ddd.Prelude.Map.{Map, get, put}
use go_ddd.Shared.{Time}
use go_ddd.EventBus.{Event}

pub data Status : Type 0 where
  pending published failed : Status

pub record Message : Type 0 where
  pub event : Event
  pub status : Status
  pub attempts : ℤ
  pub created_at : Time
  pub published_at : Option Time
  pub last_error : Text

-- MemoryStore. `order` holds the ids in the order of insertion.
pub record Store : Type 0 where
  pub order : List Text
  pub by_id : Map Message

abbrev pub new_store : Store
new_store = record { order = []; by_id = [] }

abbrev pub fresh_message : Event → Time → Message
fresh_message e now = record {
  event = e;
  status = pending;
  attempts = pos 0;
  created_at = now;
  published_at = none;
  last_error = [];
}

add_one : Store → Event → Time → Store
add_one s e now = elim (get s.by_id e.id) [
  | some dup ↦ s
  | none ↦ record { order = s.order ++ e.id ∷ []; by_id = put s.by_id e.id (fresh_message e now) }
]

-- `Add`; the clock stands still in one call.
unfoldable pub add : Store → List Event → Time → Store
unfolding add_one
add s [] now = s
add s (e ∷ es) now = add (add_one s e now) es now

unfoldable pub is_published : Status → Bool
is_published published = true
is_published _ = false

-- The rounds of the loop of `FetchPending`. `none` is the panic of a nil message.
fetch_loop : Map Message → ℤ → List Text → List Message → Option (List Message)
fetch_loop m limit [] out = some out
fetch_loop m limit (gid ∷ rest) out = elim (get m gid) [
  | none ↦ none
  | some x ↦
      if is_published x.status
      then fetch_loop m limit rest out
      else if ltb_ℤ (pos 0) limit && leb_ℤ limit (pos (length (out ++ x ∷ [])))
      then some (out ++ x ∷ [])
      else fetch_loop m limit rest (out ++ x ∷ [])
]

unfoldable pub fetch_pending : Store → ℤ → Option (List Message)
unfolding fetch_loop is_published
fetch_pending s limit = fetch_loop s.by_id limit s.order []

mark_one : Store → Text → Time → Store
mark_one s gid now = elim (get s.by_id gid) [
  | none ↦ s
  | some m ↦ record s {
    by_id =
        put s.by_id gid (record m { status = published; published_at = some now; last_error = [] });
  }
]

unfoldable pub mark_published : Store → List Text → Time → Store
unfolding mark_one
mark_published s [] now = s
mark_published s (gid ∷ gids) now = mark_published (mark_one s gid now) gids now

unfoldable pub mark_failed : Store → Text → Text → Store
unfolding int_succ
mark_failed s gid reason = elim (get s.by_id gid) [
  | none ↦ s
  | some m ↦ record s {
    by_id =
        put s.by_id gid
          (record m { status = failed; attempts = int_succ m.attempts; last_error = reason });
  }
]

count_unpublished : Map Message → ℕ
count_unpublished [] = 0
count_unpublished ((gid, m) ∷ rest) =
    let n = count_unpublished rest in if is_published m.status then n else suc n

unfoldable pub pending_count : Store → ℕ
unfolding count_unpublished is_published
pending_count s = count_unpublished s.by_id

-- publisher.go: nothing to add is no call of the store.
unfoldable pub publish : Store → List Event → Time → Store
unfolding add
publish s [] now = s
publish s (e ∷ es) now = add s (e ∷ es) now
