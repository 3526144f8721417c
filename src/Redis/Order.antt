-- ===== src/Redis/Order.antt =====
-- The laws of the entries of a sorted set: ordered by score, one entry for each member.
use antretix.Common.{
  ℕ, zero, suc, ◌≤◌, ◌<◌, ◌≡◌, refl, Bool, true, false, ◌||◌, List, [], ◌∷◌, ◌++◌, some, arith, All,
  length, drop, Bool-cases, inl, inr, subst,
}
use antretix.Redis.Entries.{
  Member, Entry, id, tick, member_eq, has, without, insert, precedes, rank_of,
}

abbrev pub IsOrdered : List Entry → Type 0
IsOrdered [] = Unit
IsOrdered (e ∷ es) = All (λ f. e.score ≤ f.score) es × (has e.member es ≡ false) × IsOrdered es

pub member_eq_self : (m : Member) → member_eq m m ≡ true
member_eq_self (id a) = ground arith
member_eq_self (tick t n) = ground arith

pub member_eq-eq : (m n : Member) → member_eq m n ≡ true → m ≡ n
member_eq-eq (id a) (id b) h = ground arith
member_eq-eq (tick t n) (tick t' n') h = ground arith
member_eq-eq (id a) (tick t n) h = cc
member_eq-eq (tick t n) (id a) h = cc

module _ (P : Entry → Type 0) where
  All-insert :
      (tie : Member → Member → Bool) (e : Entry) (es : List Entry)
      → P e
      → All P es
      → All P (insert tie e es)
  All-insert tie e [] p h = (p, tt)
  All-insert tie e (f ∷ es) p h = elim (Bool-cases (precedes tie e f)) [
    | inl before ↦ rw before (p, h)
    | inr behind ↦ rw behind (h.0, All-insert tie e es p h.1)
  ]

  pub All-without : (m : Member) (es : List Entry) → All P es → All P (without m es)
  All-without m [] h = tt
  All-without m (e ∷ es) h = ground (arith, All-without m es h.1)

pub has-insert :
    (tie : Member → Member → Bool) (m : Member) (e : Entry) (es : List Entry)
    → has m (insert tie e es) ≡ (member_eq m e.member || has m es)
has-insert tie m e [] = refl
has-insert tie m e (f ∷ es) = ground (arith, has-insert tie m e es)

pub has-without_ne :
    (m n : Member) (es : List Entry) → has m es ≡ false → has m (without n es) ≡ false
has-without_ne m n [] h = refl
has-without_ne m n (e ∷ es) h = ground (arith, has-without_ne m n es)

pub has-without_self : (m : Member) (es : List Entry) → has m (without m es) ≡ false
has-without_self m [] = refl
has-without_self m (e ∷ es) = ground (arith, has-without_self m es)

pub has-without_other :
    (m n : Member) (es : List Entry) → member_eq m n ≡ false → has m (without n es) ≡ has m es
has-without_other m n [] h = refl
has-without_other m n (e ∷ es) h = elim (Bool-cases (member_eq n e.member)) [
  | inl hit ↦
      let same = member_eq-eq n e.member hit in
      let other : member_eq m e.member ≡ false = subst (λ k. member_eq m k ≡ false) same h in
      ground (arith, has-without_other m n es h)
  | inr miss ↦ ground (arith, has-without_other m n es h)
]

pub without_absent : (m : Member) (es : List Entry) → has m es ≡ false → without m es ≡ es
without_absent m [] h = refl
without_absent m (e ∷ es) h = ground (arith, without_absent m es)

pub length-insert :
    (tie : Member → Member → Bool) (e : Entry) (es : List Entry)
    → length (insert tie e es) ≡ suc (length es)
length-insert tie e [] = refl
length-insert tie e (f ∷ es) = ground (arith, length-insert tie e es)

pub length-without-le : (m : Member) (es : List Entry) → length (without m es) ≤ length es
length-without-le m [] = omega arith
length-without-le m (e ∷ es) = ground (arith, length-without-le m es)

pub All-le :
    (a b : ℕ) (es : List Entry) → a ≤ b → All (λ f. b ≤ f.score) es → All (λ f. a ≤ f.score) es
All-le a b [] h k = tt
All-le a b (e ∷ es) h k = (omega arith, All-le a b es h k.1)

pub insert-IsOrdered :
    (tie : Member → Member → Bool) (e : Entry) (es : List Entry)
    → has e.member es ≡ false
    → IsOrdered es
    → IsOrdered (insert tie e es)
insert-IsOrdered tie e [] h o = (tt, refl, tt)
insert-IsOrdered tie e (f ∷ es) h o = elim (Bool-cases (precedes tie e f)) [
  | inl before ↦ rw before ((ground arith, All-le e.score f.score es (ground arith) o.0), h, o)
  | inr behind ↦ rw behind (
    All-insert (λ g. f.score ≤ g.score) tie e es (ground arith) o.0,
    ground (
      arith,
      has-insert tie f.member e es,
      member_eq-eq f.member e.member,
      member_eq_self e.member,
    ),
    insert-IsOrdered tie e es (ground arith) o.2,
  )
]

pub without-IsOrdered : (m : Member) (es : List Entry) → IsOrdered es → IsOrdered (without m es)
without-IsOrdered m [] o = tt
without-IsOrdered m (e ∷ es) o = elim (Bool-cases (member_eq m e.member)) [
  | inl hit ↦ rw hit (without-IsOrdered m es o.2)
  | inr miss ↦ rw miss (
    All-without (λ f. e.score ≤ f.score) m es o.0,
    has-without_ne e.member m es o.1,
    without-IsOrdered m es o.2,
  )
]

pub drop-IsOrdered : (n : ℕ) (es : List Entry) → IsOrdered es → IsOrdered (drop n es)
drop-IsOrdered zero es o = o
drop-IsOrdered (suc n) [] o = tt
drop-IsOrdered (suc n) (e ∷ es) o = drop-IsOrdered n es o.2

-- An entry with the highest score goes to the end.
pub insert_last :
    (tie : Member → Member → Bool) (e : Entry) (es : List Entry)
    → All (λ f. f.score < e.score) es
    → insert tie e es ≡ es ++ e ∷ []
insert_last tie e [] h = refl
insert_last tie e (f ∷ es) h = ground (arith, insert_last tie e es h.1)

pub rank_of_last :
    (e : Entry) (es : List Entry)
    → has e.member es ≡ false
    → rank_of e.member (es ++ e ∷ []) ≡ some (length es)
rank_of_last e [] h = rw (member_eq_self e.member)
rank_of_last e (f ∷ es) h = ground (arith, rank_of_last e es)

pub rank_of-has :
    (m : Member) (es : List Entry) → has m es ≡ true → (r : ℕ) × (rank_of m es ≡ some r)
rank_of-has m [] h = cc
rank_of-has m (e ∷ es) h = elim (Bool-cases (member_eq m e.member)) [
  | inl hit ↦ (0, rw hit)
  | inr miss ↦ let (r, f) = rank_of-has m es (ground arith) in (suc r, rw (miss, f))
]
