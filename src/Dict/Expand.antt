-- ===== src/Dict/Expand.antt =====
-- Growing, of storage/dict.c: the two settings, `dict_expand`, and the tests before it. The memory
-- for a new array is always there: `xfiredb_zalloc` ends the program if it is not.
pub mod Laws
use xfire_db.Base.{
  ℕ, ◌+◌, ◌-◌, ◌*◌, ◌/◌, ◌^◌, Bool, true, false, ◌&&◌, ◌||◌, List, [], ◌∷◌, ◌==◌, ltb, leb,
  if◌then◌else◌, replicate, u64,
}
use xfire_db.Base.Int.{ℤ, pos, negsuc}
use xfire_db.Dict.{Chain, DictMap, Dict, Config, minimal_size}
use xfire_db.Dict.Size.{real_size}

-- `dict_set_can_expand`, by `!!x`
unfoldable pub set_can_expand : Config → ℤ → Config
set_can_expand cfg (pos n) = record cfg { can_expand = if n == 0 then false else true }
set_can_expand cfg (negsuc n) = record cfg { can_expand = true }

-- `dict_set_resize_ratio`
unfoldable pub set_resize_ratio : Config → ℤ → Config
set_resize_ratio cfg (pos n) = record cfg { resize_ratio = n }
set_resize_ratio cfg (negsuc n) = cfg

-- `array == NULL`
unfoldable pub is_null : List Chain → Bool
is_null [] = true
is_null (c ∷ cs) = false

-- `xfiredb_zalloc(_size * PTR_SIZE)` and the fields around it
unfoldable pub new_map : ℕ → DictMap
new_map size = record {
  array = replicate size [];
  size = size;
  sizemask = u64 (size + 2 ^ 64 - 1);
  length = 0;
}

-- `dict_expand`; the first part is `true` for `-XFIREDB_OK`
unfoldable pub expand : Dict → ℕ → Bool × Dict
expand d size =
    if d.rehashing || ltb size d.primary.length
    then (false, d)
    else if d.primary.size == real_size size
    then (false, d)
    else if is_null d.primary.array
    then (true, record d { primary = new_map (real_size size) })
    else (true, record d { rehash = new_map (real_size size); rehashidx = 0; rehashing = true })

-- `dict_should_expand`
unfoldable pub should_expand : Config → Dict → Bool
should_expand cfg d =
    leb d.primary.size d.primary.length
    && (cfg.can_expand || ltb (d.primary.length / d.primary.size) cfg.resize_ratio)

-- `dict_expand_if`
unfoldable pub expand_if : Config → Dict → Bool × Dict
expand_if cfg d =
    if d.rehashing
    then (true, d)
    else if d.primary.size == 0
    then expand d minimal_size
    else if should_expand cfg d
    then expand d (d.primary.length * 2)
    else (true, d)
