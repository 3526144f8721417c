-- ===== src/Core/Reconcile/Healing.antt =====
-- When the reconciliation corrects the stock in Redis.
use antretix.Common.{
  ℕ, ◌≡◌, ◌≢◌, ◌∙◌, ap, ◌⊎◌, inl, inr, Bool-cases, Bool, true, false, Option, some, arith,
}
use antretix.Common.Int.{
  ℤ, pos, ◌+ℤ◌, ◌-ℤ◌, ◌<ℤ◌, ◌≤ℤ◌, +ℤ_parts, -ℤ_parts, eq_of_parts, eqb_ℤ, leb_ℤ,
}
use antretix.Shared.Keys
use antretix.Shared.Keys.{key_eq, key_eq_self}
use antretix.Redis.{Redis}
use antretix.Database.Schema.{TicketCategory}
use antretix.Lua.Stock.Exact.{stock_of}
use antretix.Core.Reconcile.{
  ReconcileRow, diff_field, runs_field, db_available_of, runs_of, settle_diff, reconcile_category,
}

abbrev pub report : ℕ → TicketCategory → ℤ → Bool → ReconcileRow
report e c n healed = record {
  event_id = e;
  category_id = c.id;
  category_name = c.name;
  db_available = db_available_of c;
  redis_stock = n;
  diff = n -ℤ db_available_of c;
  healed = healed;
}

sub_self : (a b : ℤ) → eqb_ℤ (a -ℤ b) (pos 0) ≡ true → a ≡ b
sub_self a b h = eq_of_parts a b (ground (arith, -ℤ_parts a b))

sub_back : (a b : ℤ) → a +ℤ (pos 0 -ℤ (a -ℤ b)) ≡ b
sub_back a b =
    eq_of_parts (a +ℤ (pos 0 -ℤ (a -ℤ b))) b
      (omega (arith, +ℤ_parts a (pos 0 -ℤ (a -ℤ b)), -ℤ_parts (pos 0) (a -ℤ b), -ℤ_parts a b))

module _ (R : Redis) where
  open R use {Store, slot, hset, pexpire, slot-del, slot-incrby, slot-hset, slot-pexpire}

  settle_diff_none :
      (s : Store) (e c : ℕ) (diff : ℤ)
      → eqb_ℤ diff (pos 0) ≡ true
      → let (healed, s') = settle_diff R s e c diff in
        (healed ≡ false)
        × (stock_of R s' e c ≡ stock_of R s e c)
        × ((d : ℤ) → runs_of R s' e c d ≡ pos 1)
  unfolding settle_diff runs_of
  settle_diff_none s e c diff z =
      (grind (arith), grind (arith, slot-del), λ d. grind (arith, slot-del, key_eq_self))

  runs_of_tracked :
      (s : Store) (e c time : ℕ) (diff runs : ℤ)
      → let k = Keys.reconcile_diff e c in
        runs_of R (pexpire (hset (hset s k diff_field diff) k runs_field runs) k time) e c diff
        ≡ runs +ℤ pos 1
  unfolding runs_of
  runs_of_tracked s e c time diff runs =
      let k = Keys.reconcile_diff e c in
      let s1 = hset s k diff_field diff in
      let s2 = hset s1 k runs_field runs in
      let h = slot-pexpire s2 k time k in
      let g = slot-hset s1 k runs_field runs k in
      let f = slot-hset s k diff_field diff k in rw (h, g, f, key_eq_self k) (ground arith)

  settle_diff_early :
      (s : Store) (e c : ℕ) (diff : ℤ)
      → eqb_ℤ diff (pos 0) ≡ false
      → leb_ℤ (pos 3) (runs_of R s e c diff) ≡ false
      → let (healed, s') = settle_diff R s e c diff in
        (healed ≡ false)
        × (stock_of R s' e c ≡ stock_of R s e c)
        × (runs_of R s' e c diff ≡ runs_of R s e c diff +ℤ pos 1)
  unfolding settle_diff
  settle_diff_early s e c diff n few = (
    grind (arith),
    grind (arith, slot-hset, slot-pexpire),
    rw (n, few) (runs_of_tracked s e c 600000 diff (runs_of R s e c diff)),
  )

  settle_diff_heals :
      (s : Store) (e c : ℕ) (diff n : ℤ)
      → eqb_ℤ diff (pos 0) ≡ false
      → leb_ℤ (pos 3) (runs_of R s e c diff) ≡ true
      → stock_of R s e c ≡ some n
      → let (healed, s') = settle_diff R s e c diff in
        (healed ≡ true)
        × (stock_of R s' e c ≡ some (n +ℤ (pos 0 -ℤ diff)))
        × ((d : ℤ) → runs_of R s' e c d ≡ pos 1)
  unfolding settle_diff runs_of
  settle_diff_heals s e c diff n x y z = (
    grind arith,
    grind (arith, slot-del, slot-incrby, key_eq_self),
    λ d. grind (arith, slot-del, key_eq_self),
  )

  -- How often in a row this difference has been seen, this round included.
  abbrev pub rounds_of : Store → ℕ → TicketCategory → ℤ → ℤ
  rounds_of s e c n = runs_of R s e c.id (n -ℤ db_available_of c)

  abbrev pub Agrees : Store → ℕ → TicketCategory → ℤ → Option ReconcileRow × Store → Type 0
  Agrees s e c n (row, s') =
      (n ≡ db_available_of c)
      × (row ≡ some (report e c n false))
      × (stock_of R s' e c.id ≡ some n)
      × ((m : ℤ) → rounds_of s' e c m ≡ pos 1)

  abbrev pub Waits : Store → ℕ → TicketCategory → ℤ → Option ReconcileRow × Store → Type 0
  Waits s e c n (row, s') =
      (rounds_of s e c n <ℤ pos 3)
      × (row ≡ some (report e c n false))
      × (stock_of R s' e c.id ≡ some n)
      × (rounds_of s' e c n ≡ rounds_of s e c n +ℤ pos 1)

  abbrev pub Heals : Store → ℕ → TicketCategory → ℤ → Option ReconcileRow × Store → Type 0
  Heals s e c n (row, s') =
      (pos 3 ≤ℤ rounds_of s e c n)
      × (row ≡ some (report e c n true))
      × (stock_of R s' e c.id ≡ some (db_available_of c))
      × ((m : ℤ) → rounds_of s' e c m ≡ pos 1)

  reconcile_known :
      (s : Store) (e : ℕ) (c : TicketCategory) (n : ℤ)
      → stock_of R s e c.id ≡ some n
      → let (healed, s') = settle_diff R s e c.id (n -ℤ db_available_of c) in
        reconcile_category R s e c ≡ (some (report e c n healed), s')
  unfolding reconcile_category
  reconcile_known s e c n h = ground arith

  -- A round for a category with a stock in Redis does one of three things. It finds the stock equal
  -- to what PostgreSQL has left, changes nothing in it and counts from one again. It finds a
  -- difference for less than the third time in a row, leaves the stock and counts one more. Or it
  -- finds the same difference for at least the third time, sets the stock to what PostgreSQL has
  -- left, reports that, and counts from one again.
  pub reconcile_category_result :
      (s : Store) (e : ℕ) (c : TicketCategory) (n : ℤ)
      → stock_of R s e c.id ≡ some n
      → let result = reconcile_category R s e c in
        Agrees s e c n result ⊎ Waits s e c n result ⊎ Heals s e c n result
  reconcile_category_result s e c n h =
      let diff = n -ℤ db_available_of c in
      rw (reconcile_known s e c n h) (elim (Bool-cases (eqb_ℤ diff (pos 0))) [
        | inl zero_diff ↦
            let same = sub_self n (db_available_of c) zero_diff in
            let (healed, stock, rounds) = settle_diff_none s e c.id diff zero_diff in
            inl (same, ap (λ b. some (report e c n b)) healed, stock ∙ h, λ m. rounds _)
        | inr other ↦ elim (Bool-cases (leb_ℤ (pos 3) (runs_of R s e c.id diff))) [
          | inl often ↦
              let (healed, stock, rounds) = settle_diff_heals s e c.id diff n other often h in
              inr (
                inr (
                  ground arith,
                  ap (λ b. some (report e c n b)) healed,
                  stock ∙ ap some (sub_back n (db_available_of c)),
                  λ m. rounds _,
                ))
          | inr seldom ↦
              let (healed, stock, rounds) = settle_diff_early s e c.id diff other seldom in
              inr (inl (ground arith, ap (λ b. some (report e c n b)) healed, stock ∙ h, rounds))
        ]
      ])

  -- A round that sees a difference for less than the third time.
  waits :
      (s : Store) (e : ℕ) (c : TicketCategory) (n : ℤ)
      → stock_of R s e c.id ≡ some n
      → n ≢ db_available_of c
      → rounds_of s e c n <ℤ pos 3
      → Waits s e c n (reconcile_category R s e c)
  waits s e c n h differs few = elim (reconcile_category_result s e c n h) [
    | inl agrees ↦ absurd (differs agrees.0)
    | inr (inl w) ↦ w
    | inr (inr many) ↦ let often = many.0 in ground arith
  ]

  heals :
      (s : Store) (e : ℕ) (c : TicketCategory) (n : ℤ)
      → stock_of R s e c.id ≡ some n
      → n ≢ db_available_of c
      → pos 3 ≤ℤ rounds_of s e c n
      → Heals s e c n (reconcile_category R s e c)
  heals s e c n h differs often = elim (reconcile_category_result s e c n h) [
    | inl agrees ↦ absurd (differs agrees.0)
    | inr (inl early) ↦ let few = early.0 in ground arith
    | inr (inr w) ↦ w
  ]

  -- A difference that is new and stays is corrected in the third round and not before: when nothing
  -- else touches the category, the stock is what it was after two rounds, and what PostgreSQL has
  -- left after the third.
  pub reconcile_category_third :
      (s : Store) (e : ℕ) (c : TicketCategory) (n : ℤ)
      → stock_of R s e c.id ≡ some n
      → n ≢ db_available_of c
      → rounds_of s e c n ≡ pos 1
      → let s1 = (reconcile_category R s e c).1 in
        let s2 = (reconcile_category R s1 e c).1 in
        let s3 = (reconcile_category R s2 e c).1 in
        (stock_of R s1 e c.id ≡ some n)
        × (stock_of R s2 e c.id ≡ some n)
        × (stock_of R s3 e c.id ≡ some (db_available_of c))
  unfolding ◌+ℤ◌
  reconcile_category_third s e c n h differs fresh =
      let s1 = (reconcile_category R s e c).1 in
      let s2 = (reconcile_category R s1 e c).1 in
      let (_, _, stock1, rounds1) = waits s e c n h differs (rw fresh (omega arith)) in
      let twice : rounds_of s1 e c n ≡ pos 2 = rounds1 ∙ ap (λ r. r +ℤ pos 1) fresh in
      let (_, _, stock2, rounds2) = waits s1 e c n stock1 differs (rw twice (omega arith)) in
      let thrice : rounds_of s2 e c n ≡ pos 3 = rounds2 ∙ ap (λ r. r +ℤ pos 1) twice in
      let (_, _, stock3, _) = heals s2 e c n stock2 differs (rw thrice (omega arith)) in
      (stock1, stock2, stock3)
