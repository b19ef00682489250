-- ===== src/Dict.antt =====
-- The hashed dictionary of libxfiredbengine/storage/dict.c: its data model. A chain of entries is
-- the list that its `next` pointers lead through, and a pointer to an entry is a `Ref`, its chain
-- and its key. A C `long` is written as its value, -1 as its 64-bit pattern, and the `int` that
-- counts iterators as its 32-bit pattern. The `int` that `dict_calc_index` returns for a bucket's number
-- is an integer, negative from bucket 2 ^ 31 on. Each call is one step: that the code gives the `lock`
-- back between parts of a call is left out. `rehash_condi` and `worker` carry no data.
pub mod Hash
pub mod Size
pub mod Chain
pub mod Rehash
pub mod Table
pub mod Valid
pub mod Expand
pub mod Entries
pub mod Api
pub mod Iterator
pub mod Session
pub mod Worker
mod Tests
use xfire_db.Base.{ℕ, ◌-◌, ◌^◌, Bool, List, [], CString}

-- `dict_type_t`
pub data DictType : Type 0 where
  dict_ptr dict_u64 dict_s64 dict_flt : DictType

-- `dict_status_t`
pub data DictStatus : Type 0 where
  status_none status_free : DictStatus

-- `struct dict_entry`; the union `value` is the 64-bit word that its members share.
pub record DictEntry : Type 0 where
  pub key : CString
  pub value : ℕ
  pub length : ℕ
  pub type : DictType

abbrev pub Chain : Type 0
Chain = List DictEntry

-- `struct dict_map`; the null array is the empty one.
pub record DictMap : Type 0 where
  pub array : List Chain
  pub size : ℕ
  pub sizemask : ℕ
  pub length : ℕ

-- `struct dict`: `map[PRIMARY_MAP]`, `map[REHASH_MAP]` and the fields behind them.
pub record Dict : Type 0 where
  pub primary : DictMap
  pub rehash : DictMap
  pub status : DictStatus
  pub rehashidx : ℕ
  pub rehashing : Bool
  pub iterators : ℕ

-- The file's two static variables.
pub record Config : Type 0 where
  pub resize_ratio : ℕ
  pub can_expand : Bool

-- A pointer to an entry: the first one with this key in a bucket of one of the two maps.
pub record Ref : Type 0 where
  pub in_rehash : Bool
  pub idx : ℕ
  pub key : CString

abbrev pub minus_one : ℕ
minus_one = 2 ^ 64 - 1

-- `DICT_MINIMAL_SIZE`
abbrev pub minimal_size : ℕ
minimal_size = 4

-- `dict_reset`
abbrev pub reset : DictMap
reset = record { array = []; size = 0; sizemask = 0; length = 0 }
