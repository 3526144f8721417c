-- ===== src/Redis/Entries.antt =====
-- What a Redis key holds, and the entries of a sorted set from the lowest to the highest: the
-- documented data model behind ZADD, ZRANK and the other commands of the program.
use antretix.Common.{
  ℕ, suc, Bool, false, ◌&&◌, ◌||◌, Option, none, some, List, [], ◌∷◌, ltb, leb, ◌==◌, if◌then◌else◌,
  keep, ◌-◌,
}
use antretix.Common.Int.{ℤ, pos}
use antretix.Shared.Constants.{QueueStatus}

-- A member is the identifier of a user or a request, or the word `{ms}:{count}` that admit.lua
-- writes for a tick of the admission.
pub data Member : Type 0 where
  id : ℕ → Member
  tick : ℕ → ℕ → Member

abbrev pub member_eq : Member → Member → Bool
member_eq (id a) (id b) = a == b
member_eq (tick t n) (tick t' n') = (t == t') && (n == n')
member_eq _ _ = false

pub record Entry : Type 0 where
  pub member : Member
  pub score : ℕ

-- A word: a queue status, or any other, such as the owner of a lock.
pub data Text : Type 0 where
  queue_status : QueueStatus → Text
  word : ℕ → Text

-- What one key holds. Each key family of keys.ts is used at one type, and the parts for the other
-- types are empty.
pub record Slot : Type 0 where
  pub counter : Option ℤ  -- a string that is an integer
  pub text : Option Text  -- any other string
  pub zset : List Entry  -- a sorted set
  pub field : ℕ → Option ℤ  -- a hash of integers
  pub members : List ℕ  -- a set
  pub ttl : Option ℕ  -- the milliseconds that are left, if the key expires

abbrev pub vacant : Slot
vacant = record {
  counter = none;
  text = none;
  zset = [];
  field = λ f. none;
  members = [];
  ttl = none;
}

-- A sorted set that loses its last entry is no key any more, and has no time to live.
abbrev ttl_of : List Entry → Option ℕ → Option ℕ
ttl_of [] t = none
ttl_of (e ∷ es) t = t

abbrev pub with_zset : Slot → List Entry → Slot
with_zset h es = record h { zset = es; ttl = ttl_of es h.ttl }

-- A key after `d` milliseconds.
abbrev pub pass : ℕ → Slot → Slot
pass d h = elim h.ttl [
  | none ↦ h
  | some t ↦ if leb t d then vacant else record h { ttl = some (t - d) }
]

-- SADD
abbrev pub with_member : ℕ → List ℕ → List ℕ
with_member x [] = x ∷ []
with_member x (y ∷ ys) = if x == y then y ∷ ys else y ∷ with_member x ys

-- tonumber(GET or '0')
abbrev pub or_zero : Option ℤ → ℤ
or_zero none = pos 0
or_zero (some n) = n

-- ZSCORE
abbrev pub score_of : Member → List Entry → Option ℕ
score_of m [] = none
score_of m (e ∷ es) = if member_eq m e.member then some e.score else score_of m es

abbrev pub suc_rank : Option ℕ → Option ℕ
suc_rank none = none
suc_rank (some r) = some (suc r)

-- ZRANK
abbrev pub rank_of : Member → List Entry → Option ℕ
rank_of m [] = none
rank_of m (e ∷ es) = if member_eq m e.member then some 0 else suc_rank (rank_of m es)

abbrev pub has : Member → List Entry → Bool
has m [] = false
has m (e ∷ es) = member_eq m e.member || has m es

-- ZREM
abbrev pub without : Member → List Entry → List Entry
without m [] = []
without m (e ∷ es) = if member_eq m e.member then without m es else e ∷ without m es

-- ZREMRANGEBYSCORE -inf max, and ZRANGEBYSCORE over the two halves of the scores.
abbrev pub above : ℕ → List Entry → List Entry
above max = keep (λ e. ltb max e.score)

abbrev pub at_most : ℕ → List Entry → List Entry
at_most max = keep (λ e. leb e.score max)

abbrev pub since : ℕ → List Entry → List Entry
since min = keep (λ e. leb min e.score)

-- Where an entry goes: by score, and by the order of the members among equal scores.
abbrev pub precedes : (Member → Member → Bool) → Entry → Entry → Bool
precedes tie e f = ltb e.score f.score || ((e.score == f.score) && tie e.member f.member)

abbrev pub insert : (Member → Member → Bool) → Entry → List Entry → List Entry
insert tie e [] = e ∷ []
insert tie e (f ∷ es) = if precedes tie e f then e ∷ f ∷ es else f ∷ insert tie e es

-- ZADD
abbrev pub zadd_entries : (Member → Member → Bool) → ℕ → Member → List Entry → List Entry
zadd_entries tie score m es = insert tie (record { member = m; score = score }) (without m es)
