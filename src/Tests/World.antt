-- ===== src/Tests/World.antt =====
-- A world for the tests: a clock in milliseconds, the memory of a store, and the map of
-- revalidations of a cache.
use swr_cache.Base.{
  ℕ, suc, false, ◌+◌, ◌-◌, ◌*◌, ◌/◌, true, ltb, leb, refl, none, some, String, List, [], ◌∷◌,
}
use swr_cache.Base.Int.{pos}
use swr_cache.Base.Dict.{Dict}
use swr_cache.Base.Cell.{Cell, IsCell}
use swr_cache.Base.Async.{modify, ret, ◌>>◌}
use swr_cache.Platform.{JoinsAll, Floats, Platform}
use swr_cache.Utils.{now_ms}
use swr_cache.Entry.{StoredEntry, typed}
use swr_cache.Memory.{EvictOnSetConfig, HashMapStore, hash_map_store}
use swr_cache.Memory.Lawful.{KeepsClock}
use swr_cache.Base.Async.Join.InTurn.{in_turn, in_turn-IsJoin}
use swr_cache.Swr.Data.{Slot, SwrCache, Origin}
use swr_cache.Metrics.{CacheMetric}
use swr_cache.MultiNamespace.{Types, Line, Shared}
use swr_cache.Tests.Codec.{serde}

abbrev pub Stored : Type 0
Stored = StoredEntry serde

-- Whole numbers in place of floats.
abbrev pub floats : Floats
floats = record {
  F64 = ℕ;
  zero_f = 0;
  one_f = 1;
  thousand_f = 1000;
  of_u64 = λ n. n;
  div = λ a b. a / b;
  mul = λ a b. a * b;
  lt = ltb;
  le = leb;
}

abbrev size : String → ℕ
size String.[] = 0
size (String.◌∷◌ c s) = suc (size s)

-- A user as the length of the name, a key as the length of its text.
abbrev pub types : Types serde
types = record {
  user = true;
  api_key = false;
  of_user = λ u. size u.name;
  of_api_key = λ k. size k.key;
}

pub record World : Type 0 where
  pub now : ℕ
  pub entries : Dict Stored
  pub marks : Dict (Slot ℕ)
  pub texts : Dict String
  pub emitted : List (CacheMetric floats)
  pub lines : List (Line types)
  pub key_marks : Dict (Slot ℕ)

abbrev pub platform : Platform World
platform = record {
  floats = floats;
  millis = λ w. w.now;
  nanos = λ w. w.now * 1_000_000;
  random_hash = λ _ n. n;
  Instant = ℕ;
  instant = λ w. w.now;
  secs_between = λ a b. (b - a) / 1000;
  sleep = λ n. modify (λ w. record w { now = w.now + n });
  join_all = in_turn;
}

pub joins_all : JoinsAll platform
joins_all = record { joined = in_turn-IsJoin }

abbrev pub entries : Cell World (Dict Stored)
entries = record { read = λ w. w.entries; write = λ m w. record w { entries = m } }

abbrev pub marks : Cell World (Dict (Slot ℕ))
marks = record { read = λ w. w.marks; write = λ m w. record w { marks = m } }

pub entries-IsCell : IsCell entries
entries-IsCell = record {
  read-write = λ s w. refl;
  write-write = λ s t w. refl;
  write-read = λ w. refl;
}

pub marks-IsCell : IsCell marks
marks-IsCell = record {
  read-write = λ s w. refl;
  write-write = λ s t w. refl;
  write-read = λ w. refl;
}

abbrev pub memory : HashMapStore serde platform
memory = record { state = entries; evict_on_set = none }

abbrev pub two_items : EvictOnSetConfig floats
two_items = record { frequency = 1; max_items = 2 }

abbrev pub small_memory : HashMapStore serde platform
small_memory = record { state = entries; evict_on_set = some two_items }

pub memory-KeepsClock : KeepsClock memory
unfolding now_ms
memory-KeepsClock m w = refl

-- Fresh for 10 ms, stale until 20 ms have passed.
abbrev pub cache : SwrCache serde World true
cache = record {
  store = hash_map_store memory;
  fresh_ms = pos 10;
  stale_ms = pos 20;
  revalidating = marks;
}

-- An entry of the value 7 with these times.
abbrev pub seven : ℕ → ℕ → Stored
seven fresh stale = typed (true, 7) (pos fresh) (pos stale) none

-- At 100 ms, with these entries in the memory.
abbrev pub world : Dict Stored → World
world m = record {
  now = 100;
  entries = m;
  marks = [];
  texts = [];
  emitted = [];
  lines = [];
  key_marks = [];
}

-- With the key "k" of the namespace "n" marked.
abbrev pub busy : Dict Stored → World
busy m = record {
  now = 100;
  entries = m;
  marks = ("n:k", none) ∷ [];
  texts = [];
  emitted = [];
  lines = [];
  key_marks = [];
}

abbrev pub one : Dict Stored
one = ("n:k", seven 105 110) ∷ []

abbrev pub stale_one : Dict Stored
stale_one = ("n:k", seven 95 110) ∷ []

abbrev pub expired_one : Dict Stored
expired_one = ("n:k", seven 80 90) ∷ []

-- An origin that has the value 9, after 5 ms.
abbrev pub nine : Origin serde World true
nine key = do Platform.sleep platform 5; ret (some 9)

-- The memory of the program of two caches.
abbrev pub shared : Shared types World
shared = record {
  printed = record { read = λ w. w.lines; write = λ ls w. record w { lines = ls } };
  users = marks;
  api_keys = record { read = λ w. w.key_marks; write = λ m w. record w { key_marks = m } };
}
