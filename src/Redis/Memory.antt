-- ===== src/Redis/Memory.antt =====
-- A store in memory that meets the documented effects: the interface can be met, and the scripts
-- can be run on concrete inputs.
use antretix.Common.{refl, Bool, true, none, some, drop, leb, if◌then◌else◌, ◌==◌}
use antretix.Common.Int.{◌+ℤ◌, ◌-ℤ◌}
use antretix.Shared.Keys.{Key, key_eq}
use antretix.Redis.Entries.{
  Slot, Member, id, vacant, with_zset, pass, or_zero, with_member, has, without, above,
  zadd_entries,
}
use antretix.Redis.Server.{Redis}

abbrev pub Table : Type 0
Table = Key → Slot

abbrev put : Table → Key → Slot → Table
put s k h = λ j. if key_eq k j then h else s j

abbrev by_id : Member → Member → Bool
by_id (id a) (id b) = leb a b
by_id _ _ = true

abbrev pub memory : Redis
memory = record {
  Store = Table;
  slot = λ s j. s j;
  tie = by_id;
  set_number = λ s k n. put s k (record vacant { counter = some n });
  set_text = λ s k w. put s k (record vacant { text = some w });
  set_text_px = λ s k w t. put s k (record vacant { text = some w; ttl = some t });
  set_number_nx = λ s k n j.
      if key_eq k j
      then elim (s k).counter [ none ↦ record vacant { counter = some n } | some m ↦ s j ]
      else s j;
  del = λ s k. put s k vacant;
  incrby = λ s k n. put s k (record (s k) { counter = some (or_zero (s k).counter +ℤ n) });
  decrby = λ s k n. put s k (record (s k) { counter = some (or_zero (s k).counter -ℤ n) });
  pexpire = λ s k t. put s k (record (s k) { ttl = some t });
  hset =
      λ s k f n. put s k (record (s k) { field = λ g. if f == g then some n else (s k).field g });
  sadd = λ s k x. put s k (record (s k) { members = with_member x (s k).members });
  zadd = λ s k score m. put s k (record (s k) { zset = zadd_entries by_id score m (s k).zset });
  zadd_nx = λ s k score m. put s k (record (s k) {
    zset = if has m (s k).zset then (s k).zset else zadd_entries by_id score m (s k).zset;
  });
  zadd_xx = λ s k score m. put s k (record (s k) {
    zset = if has m (s k).zset then zadd_entries by_id score m (s k).zset else (s k).zset;
  });
  zrem = λ s k m. put s k (with_zset (s k) (without m (s k).zset));
  zremrangebyscore = λ s k limit. put s k (with_zset (s k) (above limit (s k).zset));
  zpopmin = λ s k n. put s k (with_zset (s k) (drop n (s k).zset));
  elapse = λ s d j. pass d (s j);
  slot-set_number = λ s k n j. refl;
  slot-set_text = λ s k w j. refl;
  slot-set_text_px = λ s k w t j. refl;
  slot-set_number_nx = λ s k n j. refl;
  slot-del = λ s k j. refl;
  slot-incrby = λ s k n j. refl;
  slot-decrby = λ s k n j. refl;
  slot-pexpire = λ s k t j. refl;
  slot-hset = λ s k f n j. refl;
  slot-sadd = λ s k x j. refl;
  slot-zadd = λ s k score m j. refl;
  slot-zadd_nx = λ s k score m j. refl;
  slot-zadd_xx = λ s k score m j. refl;
  slot-zrem = λ s k m j. refl;
  slot-zremrangebyscore = λ s k limit j. refl;
  slot-zpopmin = λ s k n j. refl;
  slot-elapse = λ s d j. refl;
}
