-- ===== src/Cache/Memory.antt =====
-- `MemoryCache` and `cached` of swx_core/utils/cache.py. The time to live is not used in memory.
use swx.Prelude.{
  ℕ, suc, ◌≤◌, ◌≡◌, refl, Bool, true, false, not, ◌&&◌, Option, none, some, List, [], ◌∷◌, String,
  string_eq, arith, length, leb, if◌then◌else◌,
}
use swx.Prelude.Dict.{lookup, contains, insert, erase, length-insert}

pub record MemoryCache (V : Type 0) : Type 0 where
  pub cache : List (String × V)
  pub max_size : ℕ

-- `cache.pop(next(iter(cache)))`, with `none` for the exception on an empty dict.
abbrev pub pop_oldest : {V : Type 0} → List (String × V) → Option (List (String × V))
pop_oldest [] = none
pop_oldest (_ ∷ d) = some d

module _ {V : Type 0} where
  abbrev pub new_memory_cache : ℕ → MemoryCache V
  new_memory_cache max_size = record { cache = []; max_size = max_size }

  unfoldable pub memory_get : String → MemoryCache V → Option V
  memory_get key c = lookup key c.cache

  abbrev pub with_entry :
      String → V → MemoryCache V → Option (List (String × V)) → Option (MemoryCache V)
  with_entry key v c none = none
  with_entry key v c (some d) = some (record c { cache = insert key v d })

  unfoldable pub memory_set : String → V → MemoryCache V → Option (MemoryCache V)
  memory_set key v c = with_entry key v c (
      if leb c.max_size (length c.cache) && not (contains key c.cache)
      then pop_oldest c.cache
      else some c.cache)

  unfoldable pub memory_delete : String → MemoryCache V → MemoryCache V
  memory_delete key c = record c { cache = erase key c.cache }

  unfoldable pub memory_exists : String → MemoryCache V → Bool
  memory_exists key c = contains key c.cache

  unfoldable pub memory_clear : MemoryCache V → MemoryCache V
  memory_clear c = record c { cache = [] }

  -- `cached` around a function that acts on a world and answers a value that is not `None`, over the
  -- cache in memory; `none` where the cache raises.
  abbrev pub after_get :
      {W : Type 0}
      → String
      → (W → V × W)
      → MemoryCache V
      → W
      → Option V
      → Option V × Option (MemoryCache V) × W
  after_get key func c w (some v) = (some v, some c, w)
  after_get key func c w none =
      let (v, w') = func w in
      (elim (memory_set key v c) [ none ↦ none | some _ ↦ some v ], memory_set key v c, w')

  unfoldable pub cached :
      {W : Type 0}
      → String
      → (W → V × W)
      → MemoryCache V
      → W
      → Option V × Option (MemoryCache V) × W
  unfolding memory_get memory_set
  cached key func c w = after_get key func c w (memory_get key c)

  abbrev pub Fits : Option (MemoryCache V) → Type 0
  Fits none = Unit {0}
  Fits (some c) = length c.cache ≤ c.max_size

  entry-Fits :
      (key : String) (v : V) (c : MemoryCache V) (d : List (String × V))
      → (if contains key d then length d else suc (length d)) ≤ c.max_size
      → Fits (with_entry key v c (some d))
  entry-Fits key v c d h = omega (arith, h, length-insert key v d)

  chosen-Fits :
      (key : String) (v : V) (c : MemoryCache V) (full known : Bool) (d : List (String × V))
      → leb c.max_size (length d) ≡ full
      → contains key d ≡ known
      → length d ≤ c.max_size
      → Fits (with_entry key v c (if full && not known then pop_oldest d else some d))
  chosen-Fits key v c true true d e k h = entry-Fits key v c d (ground (arith, k, h))
  chosen-Fits key v c true false [] e k h = tt
  chosen-Fits key v c true false (x ∷ d) e k h =
      entry-Fits key v c d (at_most (contains key d) (length d) h)
    where
      at_most : (b : Bool) (n : ℕ) → suc n ≤ c.max_size → (if b then n else suc n) ≤ c.max_size
      at_most true n q = omega (arith, q)
      at_most false n q = q
  chosen-Fits key v c false known d e k h = entry-Fits key v c d (ground (arith, e, h))

  -- A cache in memory that holds at most its maximal number of entries still does after a `set`.
  pub memory_set-Fits :
      (key : String) (v : V) (c : MemoryCache V)
      → length c.cache ≤ c.max_size
      → Fits (memory_set key v c)
  unfolding memory_set
  memory_set-Fits key v c h =
      chosen-Fits key v c (leb c.max_size (length c.cache)) (contains key c.cache) c.cache refl refl
        h
