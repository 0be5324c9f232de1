-- ===== src/Tests/Safety.antt =====
-- Invariants of the world of the tests: each entry and each text carries a number that is right for
-- its key, and each printed line is in order.
use swr_cache.Base.{
  ℕ, ◌≡◌, ◌≤◌, refl, true, Option, none, some, String, List, [], ◌∷◌, ok, arith, All,
}
use swr_cache.Base.Int.{pos}
use swr_cache.Base.Dict.{lookup, insert}
use swr_cache.Base.Cell.{Guards}
use swr_cache.Base.Async.Safe.{Ensures, returns, steps, Ensures-bind}
use swr_cache.Platform.{Platform}
use swr_cache.Entry.{StoredEntry, serialized}
use swr_cache.Entry.Carries.{Carries}
use swr_cache.Store.Safety.{Found}
use swr_cache.Redis.Safety.{FoundText, RedisKeeps}
use swr_cache.MultiNamespace.Lines.{IsGoodLine}
use swr_cache.MultiNamespace.{Shared}
use swr_cache.Tests.Codec.{serde}
use swr_cache.Base.Dict.Fit.{IsFit, IsFit-insert, IsFit-remove}
use swr_cache.Swr.Safety.Values.{RightOption}
use swr_cache.Moka.Safety.{MokaKeeps}
use swr_cache.Tests.Program.{program}
use swr_cache.Tests.World.{World, Stored, platform, types, shared, entries, marks, world, nine}
use swr_cache.Tests.Servers.{redis, delete, moka}

module _ (Right : String → ℕ → Type 0) where
  abbrev pub Fits : String → StoredEntry serde → Type 0
  Fits k = Carries {J = serde} true (Right k)

  abbrev pub Texts : String → String → Type 0
  Texts k text = Fits k (serialized text (pos 0) (pos 0))

  pub record IsRight (w : World) : Type 0 where
    pub entries : IsFit Fits w.entries
    pub texts : IsFit Texts w.texts
    pub lines : All (IsGoodLine types) w.lines

  pub empty-IsRight : IsRight (world [])
  unfolding program
  empty-IsRight = record {
    entries = record { map = tt; fits = λ k e found. absurd (ground arith) };
    texts = record { map = tt; fits = λ k e found. absurd (ground arith) };
    lines = tt;
  }

  pub entries-Guards : Guards IsRight entries (IsFit Fits)
  entries-Guards = record {
    holds = λ w i. i.entries;
    admits = λ s w i h. record { entries = h; texts = i.texts; lines = i.lines };
  }

  pub marks-Guards : Guards IsRight marks (λ _. Unit {0})
  marks-Guards = record {
    holds = λ w i. tt;
    admits = λ s w i h. record { entries = i.entries; texts = i.texts; lines = i.lines };
  }

  pub sleeps : (n : ℕ) → Ensures IsRight (λ _. Unit {0}) (Platform.sleep platform n)
  sleeps n =
      steps (λ w i. record { entries = i.entries; texts = i.texts; lines = i.lines })
        (λ _ _. returns tt)

  delete-IsRight : (ks : List String) (w : World) → IsRight w → IsRight (delete ks w)
  delete-IsRight [] w i = i
  delete-IsRight (k ∷ ks) w i = delete-IsRight ks _ (record {
    entries = i.entries;
    texts = IsFit-remove Texts k w.texts i.texts;
    lines = i.lines;
  })

  found_text :
      (k : String) (o : Option String)
      → ((text : String) → o ≡ some text → Texts k text)
      → FoundText (Texts k) (ok o)
  found_text k none h = tt
  found_text k (some text) h = h text refl

  set-IsRight :
      (k text : String) (w : World)
      → Texts k text
      → IsRight w
      → IsRight (record w { texts = insert k text w.texts })
  set-IsRight k text w fit i = record {
    entries = i.entries;
    texts = IsFit-insert Texts k text w.texts fit i.texts;
    lines = i.lines;
  }

  pub redis-RedisKeeps : RedisKeeps redis tt IsRight Texts
  redis-RedisKeeps = record {
    gets = λ k w i. (found_text k (lookup k w.texts) (i.texts.fits k), i);
    sets = set-IsRight;
    sets_ex = λ k text ttl w fit i. set-IsRight k text w fit i;
    dels = delete-IsRight;
  }

  found_entry :
      (k : String) (o : Option Stored)
      → ((e : Stored) → o ≡ some e → Fits k e)
      → Found (Fits k) (ok o)
  found_entry k none h = tt
  found_entry k (some e) h = h e refl

  pub moka-MokaKeeps : MokaKeeps moka tt IsRight Fits
  moka-MokaKeeps = record {
    gets = λ k w i. (found_entry k (lookup k w.entries) (i.entries.fits k), i);
    inserts =
        λ k e w fit i. entries-Guards.admits _ w i (IsFit-insert Fits k e w.entries fit i.entries);
    invalidates = λ k w i. entries-Guards.admits _ w i (IsFit-remove Fits k w.entries i.entries);
  }

  pub lines-Guards : Guards IsRight (Shared.printed shared) (All (IsGoodLine types))
  lines-Guards = record {
    holds = λ w i. i.lines;
    admits = λ s w i h. record { entries = i.entries; texts = i.texts; lines = h };
  }

  pub key_marks-Guards : Guards IsRight (Shared.api_keys shared) (λ _. Unit {0})
  key_marks-Guards = record {
    holds = λ w i. tt;
    admits = λ s w i h. record { entries = i.entries; texts = i.texts; lines = i.lines };
  }

  pub cleared-IsRight : (w : World) → IsRight w → IsRight (record w { entries = [] })
  unfolding program
  cleared-IsRight w i =
      entries-Guards.admits [] w i (record { map = tt; fits = λ k e found. absurd (ground arith) })

abbrev pub Small : String → ℕ → Type 0
Small k v = v ≤ 9

nine_small : 9 ≤ 9
nine_small = omega arith

pub nine-RightOption : Ensures (IsRight Small) (RightOption (Small "n:k")) (nine "k")
nine-RightOption = Ensures-bind (sleeps Small 5) (λ _ _. returns {a = some 9} nine_small)
