-- ===== src/Tests/Program.antt =====
-- The definitions that the tests compute.
use swr_cache.Base.Int.{◌+ℤ◌, ◌-ℤ◌, wrap_i64, ◌+i64◌, ◌-i64◌, quot_i64, max_i64, as_u64, as_i64}
use swr_cache.Base.Dict.{lookup, insert, remove, retain, contains_key}
use swr_cache.Base.Dict.Sort.{sort_by_key}
use swr_cache.Utils.{build_cache_key, now_ms}
use swr_cache.Entry.{
  is_fresh, is_stale, is_expired, from_typed_with_serializer, from_serialized, downcast, into_typed,
  to_serialized, convert_for_mode,
}
use swr_cache.Memory
use swr_cache.Swr.Data.{classify, entry_for, retried}
use swr_cache.Swr.Direct
use swr_cache.Swr.{retry}
use swr_cache.Redis
use swr_cache.Tiered.{set_tier}
use swr_cache.Moka
use swr_cache.Metrics

unfoldable pub program : Unit {0}
unfolding ◌+ℤ◌ ◌-ℤ◌ wrap_i64 ◌+i64◌ ◌-i64◌ quot_i64 max_i64 as_u64 as_i64 lookup insert remove
    retain contains_key sort_by_key build_cache_key now_ms is_fresh is_stale is_expired
    from_typed_with_serializer from_serialized downcast into_typed to_serialized convert_for_mode
    Memory.drop_expired Memory.remove_all Memory.drop_oldest Memory.evict Memory.should_evict
    Memory.maybe_evict Memory.get Memory.set Memory.remove_all_keys Memory.hash_map_store retry
    classify entry_for retried Direct.remove_key Direct.store_entry Direct.get_internal Direct.get
    Direct.set Direct.cache_value set_tier Redis.join_keys Redis.calculate_ttl_seconds Redis.remove
    Redis.serve_parsed Redis.serve Redis.get Redis.set Redis.redis_store Moka.set Moka.remove
    Moka.serve Moka.get Moka.moka_store Metrics.read_status Metrics.elapsed_ms Metrics.get
    Metrics.set Metrics.remove Metrics.metrics_store
program = tt
