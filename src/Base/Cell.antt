-- ===== src/Base/Cell.antt =====
-- A piece of memory in the world: what an `Arc<RwLock<S>>` guards. A segment that holds the lock is
-- one atomic step.
use mathlib.Core.Path.{◌≡◌}

pub record Cell (W S : Type 0) : Type 0 where
  pub read : W → S
  pub write : S → W → W

-- What a write leaves is what a read finds, and the last write counts.
pub record IsCell {W S : Type 0} (c : Cell W S) : Type 0 where
  pub read-write : (s : S) (w : W) → c.read (c.write s w) ≡ s
  pub write-write : (s t : S) (w : W) → c.write s (c.write t w) ≡ c.write s w
  pub write-read : (w : W) → c.write (c.read w) w ≡ w

abbrev pub update : {W S : Type 0} → Cell W S → (S → S) → W → W
update c f w = c.write (f (c.read w)) w

-- The invariant of the world says `P` of the memory, and asks no more of what is written there.
pub record Guards {W S : Type 0} (Inv : W → Type 0) (c : Cell W S) (P : S → Type 0) : Type 0 where
  pub holds : (w : W) → Inv w → P (c.read w)
  pub admits : (s : S) (w : W) → Inv w → P s → Inv (c.write s w)
