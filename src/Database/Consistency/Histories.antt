-- ===== src/Database/Consistency/Histories.antt =====
-- Any number of buyers, payments and releases: PostgreSQL runs the functions one after another, as
-- the locks of their UPDATEs order them.
use antretix.Common.{
  ℕ, ◌≡◌, refl, find, ◌∙◌, Bool, inl, inr, List, [], ◌∷◌, map, arith, All, Option-cases,
}
use antretix.Database.Schema.{TicketCategory, Database}
use antretix.Database.Functions.{ReserveArgs, reserve_order, hold}
use antretix.Database.Settlement.{ReleaseReason, pay_order, release_order, is_releasable}
use antretix.Database.Consistency.{DistinctIds, Counted, IsConsistent, after}
use antretix.Database.Consistency.Reserving.{reserve_order_cases, reserve_order-IsConsistent}
use antretix.Database.Consistency.Settling.{
  pay_order_cases, pay_order-IsConsistent, release_order_total, release_order-IsConsistent,
}

pub data Statement : Type 0 where
  reserve : ReserveArgs → Statement
  pay : ℕ → ℕ → List ℕ → ℕ → Statement
  release : ℕ → ReleaseReason → Bool → ℕ → Statement

abbrev pub execute : Database → Statement → Database
execute db (reserve p) = after db (reserve_order db p)
execute db (pay order ref codes now) = after db (pay_order db order ref codes now)
execute db (release order reason require_expired now) =
    after db (release_order db order reason require_expired now)

abbrev pub run : Database → List Statement → Database
run db [] = db
run db (st ∷ sts) = run (execute db st) sts

pub execute-IsConsistent :
    (db : Database) (st : Statement) → IsConsistent db → IsConsistent (execute db st)
execute-IsConsistent db (reserve p) v = reserve_order-IsConsistent db p v
execute-IsConsistent db (pay order ref codes now) v =
    pay_order-IsConsistent db order ref codes now v
execute-IsConsistent db (release order reason require_expired now) v =
    release_order-IsConsistent db order reason require_expired now v

pub run-IsConsistent :
    (db : Database) (sts : List Statement) → IsConsistent db → IsConsistent (run db sts)
run-IsConsistent db [] v = v
run-IsConsistent db (st ∷ sts) v =
    run-IsConsistent (execute db st) sts (execute-IsConsistent db st v)

-- What an event puts on sale: the quota of each category.
abbrev pub quota_of : TicketCategory → ℕ × ℕ
quota_of c = (c.id, c.quota)

abbrev pub quotas : Database → List (ℕ × ℕ)
quotas db = map quota_of db.categories

quotas-map :
    (g : TicketCategory → TicketCategory)
    → ((c : TicketCategory) → ((g c).id ≡ c.id) × ((g c).quota ≡ c.quota))
    → (cs : List TicketCategory) → map quota_of (map g cs) ≡ map quota_of cs
quotas-map g same [] = refl
quotas-map g same (c ∷ cs) = ground (arith, same c, quotas-map g same cs)

quotas-release :
    (db : Database) (order : ℕ) (reason : ReleaseReason) (require_expired : Bool) (now : ℕ)
    → IsConsistent db
    → quotas (after db (release_order db order reason require_expired now)) ≡ quotas db
unfolding release_order
quotas-release db order reason require_expired now v =
    elim (Option-cases (find (is_releasable order require_expired now) db.orders)) [
      | inl e ↦ rw (e, release_order)
      | inr (o, f) ↦
          rw (release_order_total db order reason require_expired now o v f)
            (quotas-map _ (λ c. ground arith) db.categories)
    ]

quotas-execute :
    (db : Database) (st : Statement) → IsConsistent db → quotas (execute db st) ≡ quotas db
quotas-execute db (reserve p) v = elim (reserve_order_cases db p) [
  | inl same ↦ rw same
  | inr (c, _, _, _, _, result) ↦ rw result (quotas-map (hold p) (λ c. ground arith) db.categories)
]
quotas-execute db (pay order ref codes now) v = elim (pay_order_cases db order ref codes now) [
  | inl same ↦ rw same
  | inr (o, ts, _, _, result) ↦ rw result (quotas-map _ (λ c. ground arith) db.categories)
]
quotas-execute db (release order reason require_expired now) v =
    quotas-release db order reason require_expired now v

quotas-run :
    (db : Database) (sts : List Statement) → IsConsistent db → quotas (run db sts) ≡ quotas db
quotas-run db [] v = refl
quotas-run db (st ∷ sts) v =
    quotas-run (execute db st) sts (execute-IsConsistent db st v) ∙ quotas-execute db st v

-- An event before its first order.
abbrev pub on_offer : List TicketCategory → Database
on_offer cs = record { events = []; categories = cs; orders = []; items = []; tickets = [] }

abbrev pub Unsold : TicketCategory → Type 0
Unsold c = (c.sold ≡ 0) × (c.reserved ≡ 0)

Unsold-Counted : (cs : List TicketCategory) → All Unsold cs → All (Counted [] []) cs
Unsold-Counted [] h = tt
Unsold-Counted (c ∷ cs) h = (
  record { sold_exact = h.0.0; reserved_exact = h.0.1; within_quota = omega arith },
  Unsold-Counted cs h.1,
)

pub Unsold-IsConsistent :
    (cs : List TicketCategory) → DistinctIds cs → All Unsold cs → IsConsistent (on_offer cs)
Unsold-IsConsistent cs d u = record { paired = tt; keyed = d; counted = Unsold-Counted cs u }

-- From an event whose category ids are distinct, with nothing sold or reserved, whatever
-- reservations, payments and releases follow one another, the quotas stay, and in every category
-- `sold` is the number of tickets in PAID orders, `reserved` the number in PENDING ones, and their
-- sum at most the quota.
pub run_never_oversells :
    (cs : List TicketCategory) (sts : List Statement)
    → DistinctIds cs
    → All Unsold cs
    → let db = run (on_offer cs) sts in
      (quotas db ≡ quotas (on_offer cs)) × All (Counted db.orders db.items) db.categories
run_never_oversells cs sts d u =
    let start = Unsold-IsConsistent cs d u in
    (quotas-run (on_offer cs) sts start, (run-IsConsistent (on_offer cs) sts start).counted)
