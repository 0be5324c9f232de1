-- ===== src/Tests/Servers.antt =====
-- A redis server, a moka cache and a sink of metrics for the tests.
use swr_cache.Base.{true, ◌≡◌, ap, ◌∙◌, false, some, String, List, [], ◌∷◌, ok}
use swr_cache.Base.Int.{pos}
use swr_cache.Base.Dict.{Dict, lookup, insert, remove, lookup-insert}
use swr_cache.Base.Async.{ret}
use swr_cache.Entry.{serialized}
use swr_cache.Memory.{hash_map_store}
use swr_cache.Swr.Data.{SwrCache}
use swr_cache.Metrics.{MetricsStore}
use swr_cache.Moka.{MokaCrate, MokaStore}
use swr_cache.Redis.{RedisCrate, RedisStore, redis_store}
use swr_cache.Redis.Expiry.{Keeps}
use swr_cache.Tests.Codec.{serde, to_text}
use text.Mathlib.TextPositions.{eq_refl}
use swr_cache.Tests.World.{World, Stored, platform, memory, marks, world}

-- A redis server that keeps its texts for ever.
abbrev pub delete : List String → World → World
delete [] w = w
delete (k ∷ ks) w = delete ks (record w { texts = remove k w.texts })

abbrev pub redis : RedisCrate World
redis = record {
  Client = String;
  open_client = λ url. ok url;
  Connection = Unit;
  connect = λ _ w. (ok tt, w);
  get_text = λ _ k w. (ok (lookup k w.texts), w);
  set_text = λ _ k text w. (ok tt, record w { texts = insert k text w.texts });
  set_ex = λ _ k text ttl w. (ok tt, record w { texts = insert k text w.texts });
  del = λ _ ks w. (ok tt, delete ks w);
}

pub found_again : (k text : String) (m : Dict String) → lookup k (insert k text m) ≡ some text
found_again k text m = lookup-insert k k text m ∙ rw (eq_refl k)

pub redis-Keeps : Keeps redis tt
redis-Keeps = record {
  get-set_text = λ k text w _. ap ok (found_again k text w.texts);
  get-set_ex = λ k text ttl w _ _. ap ok (found_again k text w.texts);
}

-- A store that gives entries also after they have expired.
abbrev pub keeping : RedisStore redis
keeping = record { connection = tt; disable_expiration = true }

abbrev pub expiring : RedisStore redis
expiring = record { connection = tt; disable_expiration = false }

abbrev pub redis_cache : SwrCache serde World true
redis_cache = record {
  store = redis_store platform redis keeping;
  fresh_ms = pos 10;
  stale_ms = pos 20;
  revalidating = marks;
}

-- The text of the value 7 with the times 8 and 9.
abbrev pub old_text : String
old_text = to_text 7 (pos 8) (pos 9)

abbrev pub old : Stored
old = serialized old_text (pos 8) (pos 9)

abbrev pub old_world : World
old_world = record (world []) { texts = ("n:k", old_text) ∷ [] }

-- moka's cache as a map that evicts nothing.
abbrev pub moka : MokaCrate serde World
moka = record {
  Builder = Unit;
  builder = tt;
  max_capacity = λ _ b. b;
  time_to_live = λ _ b. b;
  time_to_idle = λ _ b. b;
  Cache = Unit;
  build = λ _ w. (tt, record w { entries = [] });
  cache_get = λ _ k w. (lookup k w.entries, w);
  cache_insert = λ _ k e w. record w { entries = insert k e w.entries };
  invalidate = λ _ k w. record w { entries = remove k w.entries };
  entry_count = λ _ w. 0;
  weighted_size = λ _ w. 0;
}

abbrev pub moka_memory : MokaStore moka
moka_memory = record { cache = tt }

abbrev pub metrics : MetricsStore serde platform
metrics = record {
  inner = hash_map_store memory;
  sink = record { emit = λ m w. record w { emitted = m ∷ w.emitted }; flush = ret (ok tt) };
  tier_name = "hashmap";
}
