-- ===== src/Redis/Server.antt =====
-- The commands that write, with their documented effects.
use antretix.Common.{ℕ, ◌≡◌, Bool, none, some, drop, if◌then◌else◌, ◌==◌}
use antretix.Common.Int.{ℤ, ◌+ℤ◌, ◌-ℤ◌}
use antretix.Shared.Keys.{Key, key_eq}
use antretix.Redis.Entries.{
  Slot, Text, Member, vacant, with_zset, pass, or_zero, with_member, has, without, above,
  zadd_entries,
}

pub record Redis : Type 1 where
  pub Store : Type 0
  pub slot : Store → Key → Slot
  -- the order of the members among equal scores
  pub tie : Member → Member → Bool
  pub set_number : Store → Key → ℤ → Store  -- SET key n
  pub set_text : Store → Key → Text → Store  -- SET key w
  pub set_text_px : Store → Key → Text → ℕ → Store  -- SET key w PX ms
  pub set_number_nx : Store → Key → ℤ → Store  -- SET key n NX
  pub del : Store → Key → Store
  pub incrby : Store → Key → ℤ → Store
  pub decrby : Store → Key → ℤ → Store
  pub pexpire : Store → Key → ℕ → Store
  pub hset : Store → Key → ℕ → ℤ → Store
  pub sadd : Store → Key → ℕ → Store
  pub zadd : Store → Key → ℕ → Member → Store
  pub zadd_nx : Store → Key → ℕ → Member → Store
  pub zadd_xx : Store → Key → ℕ → Member → Store
  pub zrem : Store → Key → Member → Store
  pub zremrangebyscore : Store → Key → ℕ → Store  -- from -inf to the number
  pub zpopmin : Store → Key → ℕ → Store  -- what it pops is the front of the sorted set
  pub elapse : Store → ℕ → Store  -- so many milliseconds pass
  pub slot-set_number :
      (s : Store) (k : Key) (n : ℤ) (j : Key)
      → slot (set_number s k n) j
        ≡ (if key_eq k j then record vacant { counter = some n } else slot s j)
  pub slot-set_text :
      (s : Store) (k : Key) (w : Text) (j : Key)
      → slot (set_text s k w) j ≡ (if key_eq k j then record vacant { text = some w } else slot s j)
  pub slot-set_text_px :
      (s : Store) (k : Key) (w : Text) (t : ℕ) (j : Key)
      → slot (set_text_px s k w t) j
        ≡ (if key_eq k j then record vacant { text = some w; ttl = some t } else slot s j)
  pub slot-set_number_nx :
      (s : Store) (k : Key) (n : ℤ) (j : Key)
      → slot (set_number_nx s k n) j ≡ (
          if key_eq k j
          then elim (slot s k).counter [
            | none ↦ record vacant { counter = some n }
            | some m ↦ slot s j
          ]
          else slot s j)
  pub slot-del :
      (s : Store) (k j : Key) → slot (del s k) j ≡ (if key_eq k j then vacant else slot s j)
  pub slot-incrby :
      (s : Store) (k : Key) (n : ℤ) (j : Key)
      → slot (incrby s k n) j ≡ (
          if key_eq k j
          then record (slot s k) { counter = some (or_zero (slot s k).counter +ℤ n) }
          else slot s j)
  pub slot-decrby :
      (s : Store) (k : Key) (n : ℤ) (j : Key)
      → slot (decrby s k n) j ≡ (
          if key_eq k j
          then record (slot s k) { counter = some (or_zero (slot s k).counter -ℤ n) }
          else slot s j)
  pub slot-pexpire :
      (s : Store) (k : Key) (t : ℕ) (j : Key)
      → slot (pexpire s k t) j
        ≡ (if key_eq k j then record (slot s k) { ttl = some t } else slot s j)
  pub slot-hset :
      (s : Store) (k : Key) (f : ℕ) (n : ℤ) (j : Key)
      → slot (hset s k f n) j ≡ (
          if key_eq k j
          then record (slot s k) { field = λ g. if f == g then some n else (slot s k).field g }
          else slot s j)
  pub slot-sadd :
      (s : Store) (k : Key) (x : ℕ) (j : Key)
      → slot (sadd s k x) j ≡ (
          if key_eq k j
          then record (slot s k) { members = with_member x (slot s k).members }
          else slot s j)
  pub slot-zadd :
      (s : Store) (k : Key) (score : ℕ) (m : Member) (j : Key)
      → slot (zadd s k score m) j ≡ (
          if key_eq k j
          then record (slot s k) { zset = zadd_entries tie score m (slot s k).zset }
          else slot s j)
  pub slot-zadd_nx :
      (s : Store) (k : Key) (score : ℕ) (m : Member) (j : Key)
      → slot (zadd_nx s k score m) j ≡ (
          if key_eq k j
          then record (slot s k) {
            zset =
                if has m (slot s k).zset
                then (slot s k).zset
                else zadd_entries tie score m (slot s k).zset;
          }
          else slot s j)
  pub slot-zadd_xx :
      (s : Store) (k : Key) (score : ℕ) (m : Member) (j : Key)
      → slot (zadd_xx s k score m) j ≡ (
          if key_eq k j
          then record (slot s k) {
            zset =
                if has m (slot s k).zset
                then zadd_entries tie score m (slot s k).zset
                else (slot s k).zset;
          }
          else slot s j)
  pub slot-zrem :
      (s : Store) (k : Key) (m : Member) (j : Key)
      → slot (zrem s k m) j
        ≡ (if key_eq k j then with_zset (slot s k) (without m (slot s k).zset) else slot s j)
  pub slot-zremrangebyscore :
      (s : Store) (k : Key) (limit : ℕ) (j : Key)
      → slot (zremrangebyscore s k limit) j
        ≡ (if key_eq k j then with_zset (slot s k) (above limit (slot s k).zset) else slot s j)
  pub slot-zpopmin :
      (s : Store) (k : Key) (n : ℕ) (j : Key)
      → slot (zpopmin s k n) j
        ≡ (if key_eq k j then with_zset (slot s k) (drop n (slot s k).zset) else slot s j)
  pub slot-elapse : (s : Store) (d : ℕ) (j : Key) → slot (elapse s d) j ≡ pass d (slot s j)
