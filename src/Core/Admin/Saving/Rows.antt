-- ===== src/Core/Admin/Saving/Rows.antt =====
-- upsertEvent: the row of a category and the deltas of its quota.
use antretix.Common.{
  ℕ, suc, ◌+◌, ◌≡◌, refl, sym, ◌∙◌, ap, subst, false, some, List, [], ◌∷◌, map, arith, leb, ◌==◌,
  if◌then◌else◌, find, find_holds, Bool-cases, Option-cases, inl, inr,
}
use antretix.Common.Int.{ℤ, pos, ◌+ℤ◌, ◌-ℤ◌, eqb_ℤ, eq_of_parts, +ℤ_parts, -ℤ_parts}
use antretix.Database.Schema.{TicketCategory, Database}
use antretix.Database.Functions.{Sql, done, exception}
use antretix.Core.Admin.Saving.{
  CategoryInput, Ids, StockDelta, set_category, is_category, new_category, add_delta,
  save_categories, and_delta,
}

-- What the deltas add up to for one category.
abbrev pub delta_of : ℕ → List StockDelta → ℤ
delta_of k [] = pos 0
delta_of k (d ∷ ds) = (if d.category_id == k then d.delta else pos 0) +ℤ delta_of k ds

pub add_zero : (n : ℤ) → n +ℤ pos 0 ≡ n
add_zero n = eq_of_parts (n +ℤ pos 0) n (omega (arith, +ℤ_parts n (pos 0)))

zero_add : (n : ℤ) → pos 0 +ℤ n ≡ n
zero_add n = eq_of_parts (pos 0 +ℤ n) n (omega (arith, +ℤ_parts (pos 0) n))

pub add_assoc : (a b c : ℤ) → a +ℤ b +ℤ c ≡ a +ℤ (b +ℤ c)
add_assoc a b c =
    eq_of_parts (a +ℤ b +ℤ c) (a +ℤ (b +ℤ c))
      (omega (arith, +ℤ_parts a b, +ℤ_parts (a +ℤ b) c, +ℤ_parts b c, +ℤ_parts a (b +ℤ c)))

is_category-set_category :
    (e k g i : ℕ) (input : CategoryInput) (c : TicketCategory)
    → is_category e k (set_category input g i c) ≡ is_category e k c
is_category-set_category e k g i input c = ground arith

find-set_category :
    (cs : List TicketCategory) (e k g i : ℕ) (input : CategoryInput) (c : TicketCategory)
    → find (is_category e k) cs ≡ some c
    → find (is_category e k) (map (set_category input g i) cs) ≡ some (set_category input g i c)
find-set_category [] e k g i input c h = cc
find-set_category (d ∷ cs) e k g i input c h =
    let same = is_category-set_category e k g i input d in
    elim (Bool-cases (is_category e k d)) [
      | inl hit ↦
          let first : find (is_category e k) (d ∷ cs) ≡ some d = rw hit refl in
          let found : d ≡ c = cc in
          rw (same ∙ hit) (ap (λ t. some (set_category input g i t)) found)
      | inr miss ↦
          let later : find (is_category e k) (d ∷ cs) ≡ find (is_category e k) cs = rw miss refl in
          rw (same ∙ miss) (find-set_category cs e k g i input c (sym later ∙ h))
    ]

-- The row of a category after the loop: its counters are untouched, and its quota has changed by
-- the deltas.
abbrev pub Moved : ℕ → ℕ → TicketCategory → List StockDelta → Database → Type 0
Moved e k c deltas db =
    (c' : TicketCategory) × (find (is_category e k) db.categories ≡ some c')
    × (c'.sold ≡ c.sold)
    × (c'.reserved ≡ c.reserved)
    × (pos c'.quota ≡ pos c.quota +ℤ delta_of k deltas)

-- No identifier that is drawn is that of the category.
abbrev pub IsFresh : Ids → ℕ → Type 0
IsFresh ids k = (i : ℕ) → (ids.category_id i == k) ≡ false

-- The same of a loop that may have been rolled back.
abbrev pub MovedIn : ℕ → ℕ → TicketCategory → Sql (List StockDelta) → Type 0
MovedIn e k c exception = Unit
MovedIn e k c (done deltas db) = Moved e k c deltas db

delta_of-add_delta :
    (k g : ℕ) (delta : ℤ) (ds : List StockDelta)
    → delta_of k (add_delta g delta ds) ≡ (if g == k then delta else pos 0) +ℤ delta_of k ds
delta_of-add_delta k g delta ds = elim (Bool-cases (eqb_ℤ delta (pos 0))) [
  | inl nothing ↦
      let zero_delta : delta ≡ pos 0 = ground arith in
      rw (nothing, zero_delta) (ground (arith, zero_add (delta_of k ds)))
  | inr some_delta ↦ rw some_delta refl
]

-- One category of the input moves the row of a category by its delta.
quota_moves :
    (cs : List TicketCategory) (e k given index : ℕ) (input : CategoryInput)
    (c current : TicketCategory)
    → find (is_category e k) cs ≡ some c
    → find (is_category e given) cs ≡ some current
    → pos (set_category input given index c).quota
      ≡ pos c.quota +ℤ (if given == k then pos input.quota -ℤ pos current.quota else pos 0)
quota_moves cs e k given index input c current here there =
    let own = find_holds (is_category e k) cs c here in
    elim (Bool-cases (given == k)) [
      | inl same ↦
          let one : given ≡ k = ground arith in
          let found = subst (λ g. find (is_category e g) cs ≡ some current) one there in
          let alike : c ≡ current = cc in
          let new_quota : (set_category input given index c).quota ≡ input.quota = ground arith in
          let delta = pos input.quota -ℤ pos current.quota in
          rw (same, new_quota)
            (eq_of_parts (pos input.quota) (pos c.quota +ℤ delta) (
              omega (
                arith,
                +ℤ_parts (pos c.quota) delta,
                -ℤ_parts (pos input.quota) (pos current.quota),
                ap TicketCategory.quota alike,
              )))
      | inr other ↦ rw (other, add_zero (pos c.quota)) (ground arith)
    ]

and_delta-MovedIn :
    (rest : Sql (List StockDelta)) (cs : List TicketCategory) (e k given index : ℕ)
    (input : CategoryInput) (c current : TicketCategory)
    → find (is_category e k) cs ≡ some c
    → find (is_category e given) cs ≡ some current
    → MovedIn e k (set_category input given index c) rest
    → MovedIn e k c (and_delta given (pos input.quota -ℤ pos current.quota) rest)
and_delta-MovedIn exception cs e k given index input c current here there moved = tt
and_delta-MovedIn (done deltas db) cs e k given index input c current here there moved =
    let (c', found, sold, reserved, quota) = moved in
    let delta = pos input.quota -ℤ pos current.quota in
    let step : ℤ = if given == k then delta else pos 0 in
    (
      c',
      found,
      sold ∙ ground arith,
      reserved ∙ ground arith,
      quota
          ∙ ap (λ q. q +ℤ delta_of k deltas)
              (quota_moves cs e k given index input c current here there)
          ∙ add_assoc (pos c.quota) step (delta_of k deltas)
          ∙ ap (λ d. pos c.quota +ℤ d) (sym (delta_of-add_delta k given delta deltas)),
    )

pub save_categories-MovedIn :
    (inputs : List CategoryInput) (db : Database) (e k index : ℕ) (ids : Ids) (c : TicketCategory)
    → IsFresh ids k
    → find (is_category e k) db.categories ≡ some c
    → MovedIn e k c (save_categories db e ids index inputs)
unfolding save_categories
save_categories-MovedIn [] db e k index ids c fresh here =
    (c, here, refl, refl, sym (add_zero (pos c.quota)))
save_categories-MovedIn (input ∷ inputs) db e k index ids c fresh here =
    elim (Option-cases input.id) [
      | inl new ↦
          let row = new_category input e (ids.category_id index) index in
          let passed : find (is_category e k) (row ∷ db.categories) ≡ some c =
            rw (fresh index) here in
          rw (save_categories, new)
            (save_categories-MovedIn inputs (record db { categories = row ∷ db.categories }) e k
              (suc index) ids c fresh passed)
      | inr (given, updates) ↦ elim (Option-cases (find (is_category e given) db.categories)) [
        | inl absent ↦ rw (save_categories, updates, absent) tt
        | inr (current, there) ↦
            elim (Bool-cases (leb (current.sold + current.reserved) input.quota)) [
              | inl room ↦
                  let cs = map (set_category input given index) db.categories in
                  let next =
                    save_categories-MovedIn inputs (record db { categories = cs }) e k (suc index)
                      ids (set_category input given index c) fresh
                      (find-set_category db.categories e k given index input c here) in
                  rw (save_categories, updates, there, room)
                    (and_delta-MovedIn _ db.categories e k given index input c current here there
                      next)
              | inr short ↦ rw (save_categories, updates, there, short) tt
            ]
      ]
    ]
