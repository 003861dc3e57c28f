-- ===== src/Statements/Lru.antt =====
-- `Lru` of crates/halephant-core/src/connections/server.rs: the canonical statements that one
-- server connection has prepared, least recently used first.
pub mod Bounds
pub mod Recency
pub mod Contents
use halephant.Prelude.Sets
use halephant.Prelude.{
  ℕ, ◌%◌, ◌^◌, ◌++◌, Bool, ◌&&◌, List, [], ◌∷◌, Option, none, some, Text, text_eq, length, leb, ltb,
  if◌then◌else◌,
}

-- `u32` arithmetic wraps.
abbrev pub u32_mod : ℕ
u32_mod = 2 ^ 32

pub record Lru : Type 0 where
  pub prepared : List Text
  pub order : List Text
  pub max : ℕ

unfoldable pub new : ℕ → Lru
new max = record { prepared = []; order = []; max = max }

unfoldable pub contains : Lru → Text → Bool
contains l canon = Sets.contains canon l.prepared

-- `retain(|n| n != canon)` and `push_back(canon)`.
unfoldable pub touch : Lru → Text → Lru
touch l canon = record l { order = Sets.remove canon l.order ++ canon ∷ [] }

pub evict_from : Lru → List Text → Lru × Option Text
evict_from l [] = (l, none)
evict_from l (name ∷ rest) =
    (record l { prepared = Sets.remove name l.prepared; order = rest }, some name)

unfoldable pub evict : Lru → Lru × Option Text
unfolding evict_from
evict l = evict_from l l.order

unfoldable pub add : Lru → Text → Lru
add l canon = record l { prepared = Sets.insert canon l.prepared; order = l.order ++ canon ∷ [] }

unfoldable pub insert : Lru → Text → Lru × Option Text
insert l canon =
    if contains l canon
    then (touch l canon, none)
    else let (kept, evicted) =
        if ltb 0 l.max && leb l.max (length l.prepared % u32_mod) then evict l else (l, none) in
      (add kept canon, evicted)

unfoldable pub clear : Lru → Lru
clear l = record l { prepared = []; order = [] }

unfoldable pub remove : Lru → Text → Lru
remove l canon = record l {
  prepared = Sets.remove canon l.prepared;
  order = Sets.remove canon l.order;
}
