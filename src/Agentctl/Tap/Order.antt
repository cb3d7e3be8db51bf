-- ===== src/Agentctl/Tap/Order.antt =====
-- The order in which the partitions of a cluster are listed.
use go_ddd.Prelude.{
  ◌≤◌, ◌<◌, ◌≡◌, refl, sym, ap, subst, ◌∙◌, ◌⊎◌, inl, inr, true, false, not, List, [], ◌∷◌, arith,
  filter, All, ◌==◌, text_eq, text_beq_iff, Bool-cases, ltb,
}
use mathlib.Core.List.{Permᴰ}
use go_ddd.Prelude.Text.{Text, text_ltb, text_ltb_total}
use go_ddd.Prelude.Result.{ok, ok_inj}
use go_ddd.Agentctl.Tap.{
  Partition, Cluster, is_internal, partition_less, insert, sort_partitions, list_partitions, listed,
}

-- The order of texts by their bytes, a prefix first.
abbrev pub Precedes : Text → Text → Type 0
Precedes s [] = ⊥
Precedes [] (y ∷ ys) = Unit
Precedes (x ∷ xs) (y ∷ ys) = (x < y) ⊎ ((x ≡ y) × Precedes xs ys)

abbrev pub NotAfter : Partition → Partition → Type 0
NotAfter p q = ((p.topic ≡ q.topic) × (p.id ≤ q.id)) ⊎ Precedes p.topic q.topic

-- Each partition comes after none of those behind it.
abbrev pub Ascending : List Partition → Type 0
Ascending [] = Unit
Ascending (p ∷ ps) = All (NotAfter p) ps × Ascending ps

-- The partitions of the topics whose names do not begin with an underscore.
abbrev pub outward : List Partition → List Partition
outward = filter (λ p. not (is_internal p.topic))

Precedes-text_ltb : (s t : Text) → text_ltb s t ≡ true → Precedes s t
unfolding text_ltb
Precedes-text_ltb s [] h = absurd (ground (arith, h))
Precedes-text_ltb [] (y ∷ ys) h = tt
Precedes-text_ltb (x ∷ xs) (y ∷ ys) h = elim (Bool-cases (ltb x y)) [
  | inl lower ↦ inl (ground (arith, lower))
  | inr not_lower ↦
      inr (ground (arith, h, not_lower), Precedes-text_ltb xs ys (ground (arith, h, not_lower)))
]

Precedes-trans : (s t u : Text) → Precedes s t → Precedes t u → Precedes s u
Precedes-trans s t [] h k = k
Precedes-trans s [] (z ∷ zs) h k = absurd h
Precedes-trans [] (y ∷ ys) (z ∷ zs) h k = tt
Precedes-trans (x ∷ xs) (y ∷ ys) (z ∷ zs) (inl h) (inl k) = inl (omega (arith, h, k))
Precedes-trans (x ∷ xs) (y ∷ ys) (z ∷ zs) (inl h) (inr (e, k)) = inl (omega (arith, h, e))
Precedes-trans (x ∷ xs) (y ∷ ys) (z ∷ zs) (inr (e, h)) (inl k) = inl (omega (arith, k, e))
Precedes-trans (x ∷ xs) (y ∷ ys) (z ∷ zs) (inr (e, h)) (inr (e', k)) =
    inr (e ∙ e', Precedes-trans xs ys zs h k)

NotAfter-trans : (p q r : Partition) → NotAfter p q → NotAfter q r → NotAfter p r
NotAfter-trans p q r (inl (t, n)) (inl (t', n')) = inl (t ∙ t', omega (arith, n, n'))
NotAfter-trans p q r (inl (t, n)) (inr k) = inr (subst (λ x. Precedes x r.topic) (sym t) k)
NotAfter-trans p q r (inr h) (inl (t, n)) = inr (subst (Precedes p.topic) t h)
NotAfter-trans p q r (inr h) (inr k) = inr (Precedes-trans p.topic q.topic r.topic h k)

NotAfter-less : (p q : Partition) → partition_less p q ≡ true → NotAfter p q
unfolding partition_less
NotAfter-less p q h = elim (Bool-cases (p.topic == q.topic)) [
  | inl same ↦ inl ((text_beq_iff p.topic q.topic).0 same, ground (arith, h, same))
  | inr other ↦ inr (Precedes-text_ltb p.topic q.topic (ground (arith, h, other)))
]

NotAfter-not_less : (p q : Partition) → partition_less p q ≡ false → NotAfter q p
unfolding partition_less
NotAfter-not_less p q h = elim (Bool-cases (p.topic == q.topic)) [
  | inl same ↦ inl (sym ((text_beq_iff p.topic q.topic).0 same), ground (arith, h, same))
  | inr other ↦ inr (
      Precedes-text_ltb q.topic p.topic (
        text_ltb_total p.topic q.topic
          (λ e. absurd (ground (arith, other, (text_beq_iff p.topic q.topic).1 e)))
          (ground (arith, h, other))))
]

All-NotAfter :
    (p q : Partition) (qs : List Partition)
    → NotAfter p q
    → All (NotAfter q) qs
    → All (NotAfter p) qs
All-NotAfter p q [] h a = tt
All-NotAfter p q (r ∷ qs) h a = (NotAfter-trans p q r h a.0, All-NotAfter p q qs h a.1)

All-insert :
    (x p : Partition) (qs : List Partition)
    → NotAfter x p
    → All (NotAfter x) qs
    → All (NotAfter x) (insert p qs)
unfolding insert
All-insert x p [] h a = (h, tt)
All-insert x p (q ∷ qs) h a = elim (Bool-cases (partition_less q p)) [
  | inl later ↦ rw later (a.0, All-insert x p qs h a.1)
  | inr here ↦ rw here (h, a)
]

insert-Ascending : (p : Partition) (qs : List Partition) → Ascending qs → Ascending (insert p qs)
unfolding insert
insert-Ascending p [] a = (tt, tt)
insert-Ascending p (q ∷ qs) a = elim (Bool-cases (partition_less q p)) [
  | inl later ↦
      rw later (All-insert q p qs (NotAfter-less q p later) a.0, insert-Ascending p qs a.1)
  | inr here ↦
      let first = NotAfter-not_less q p here in rw here ((first, All-NotAfter p q qs first a.0), a)
]

Permᴰ-refl : (ps : List Partition) → Permᴰ ps ps
Permᴰ-refl [] = Permᴰ.nil
Permᴰ-refl (p ∷ ps) = Permᴰ.cons refl (Permᴰ-refl ps)

insert-perm : (p : Partition) (qs : List Partition) → Permᴰ (insert p qs) (p ∷ qs)
unfolding insert
insert-perm p [] = Permᴰ-refl (p ∷ [])
insert-perm p (q ∷ qs) = elim (Bool-cases (partition_less q p)) [
  | inl later ↦ rw later (Permᴰ.trans (Permᴰ.cons refl (insert-perm p qs)) (Permᴰ.swap refl refl))
  | inr here ↦ rw here (Permᴰ-refl (p ∷ q ∷ qs))
]

sort-sorted : (ps : List Partition) → Permᴰ (sort_partitions ps) ps × Ascending (sort_partitions ps)
unfolding sort_partitions
sort-sorted [] = (Permᴰ.nil, tt)
sort-sorted (p ∷ ps) =
    let (same, sorted) = sort-sorted ps in
    (
      Permᴰ.trans (insert-perm p (sort_partitions ps)) (Permᴰ.cons refl same),
      insert-Ascending p (sort_partitions ps) sorted,
    )

-- The list holds the partitions of the outward topics, each as often as the cluster answers it, in
-- ascending order.
pub list_partitions-sorted :
    (brokers : List Text) (c : Cluster) (all ps : List Partition)
    → c.partitions ≡ ok all
    → list_partitions brokers c ≡ ok ps
    → Permᴰ ps (outward all) × Ascending ps
unfolding list_partitions listed
list_partitions-sorted [] c all ps answers h = absurd (ground (arith, h))
list_partitions-sorted (b ∷ bs) c all ps answers h =
    let made : sort_partitions (outward all) ≡ ps = ok_inj (sym (ap listed answers) ∙ h) in
    subst (λ qs. Permᴰ qs (outward all) × Ascending qs) made (sort-sorted (outward all))
