-- ===== src/Statements/Lru/Recency.antt =====
-- `Lru` against one bounded queue of names, least recently used first.
use halephant.Prelude.Sets
use halephant.Prelude.Sets.{contains-remove, length-remove}
use halephant.Prelude.{
  ℕ, ◌<◌, ◌++◌, ◌≡◌, ◌⊎◌, inl, inr, refl, ap, sym, ◌∙◌, Bool, true, false, ◌&&◌, List, [], ◌∷◌,
  Option, none, some, Text, text_eq, length, leb, ltb, if◌then◌else◌, arith, Bool-cases,
}
use halephant.Statements.Lru.{Lru, contains, touch, evict_from, add, insert, remove}
use halephant.Statements.Lru.Bounds.{
  IsValid, touch-IsValid, add-IsValid, remove-IsValid, evict_from-remove, evict-remove, is_full_iff,
}

abbrev pub is_full : ℕ → ℕ → Bool
is_full max n = ltb 0 max && leb max n

pub make_room : ℕ → List Text → List Text × Option Text
make_room max [] = ([], none)
make_room max (v ∷ rest) =
    if is_full max (length (v ∷ rest)) then (rest, some v) else (v ∷ rest, none)

pub use_recent : ℕ → Text → List Text → List Text × Option Text
use_recent max c q =
    if Sets.contains c q
    then (Sets.remove c q ++ c ∷ [], none)
    else let (kept, evicted) = make_room max q in (kept ++ c ∷ [], evicted)

pub record Refines (l : Lru) (c : Text) (r : Lru × Option Text) : Type 0 where
  pub order : r.0.order ≡ (use_recent l.max c l.order).0
  pub victim : r.1 ≡ (use_recent l.max c l.order).1
  pub max : r.0.max ≡ l.max
  pub valid : IsValid r.0

abbrev pub Grows : Lru → Text → Type 0
Grows l c = (insert l c ≡ (add l c, none)) × (is_full l.max (length l.order) ≡ false)

abbrev pub Replaces : Lru → Text → Type 0
Replaces l c =
    (v : Text) × (rest : List Text) × (l.order ≡ v ∷ rest)
    × (insert l c ≡ (add (remove l v) c, some v))
    × (is_full l.max (length l.order) ≡ true)

insert-Grows :
    (l : Lru) (c : Text)
    → IsValid l
    → contains l c ≡ false
    → is_full l.max (length l.order) ≡ false
    → Grows l c
unfolding insert
insert-Grows l c v h e = (rw (h, is_full_iff l v ∙ e), e)

insert-Replaces :
    (l : Lru) (c : Text) (q : List Text)
    → IsValid l
    → l.order ≡ q
    → contains l c ≡ false
    → is_full l.max (length l.order) ≡ true
    → Replaces l c
unfolding insert
insert-Replaces l c [] v o h e = absurd (ground arith)
insert-Replaces l c (x ∷ rest) v o h e =
    (x, rest, o, rw (h, is_full_iff l v ∙ e, evict-remove l x rest v o), e)

-- A new name either fits, or takes the place of the one used longest ago.
pub insert_cases :
    (l : Lru) (c : Text) → IsValid l → contains l c ≡ false → Grows l c ⊎ Replaces l c
insert_cases l c v h = elim (Bool-cases (is_full l.max (length l.order))) [
  | inl full ↦ inr (insert-Replaces l c l.order v refl h full)
  | inr room ↦ inl (insert-Grows l c v h room)
]

room_of_not_full :
    (l : Lru)
    → IsValid l
    → is_full l.max (length l.order) ≡ false
    → 0 < l.max
    → length l.prepared < l.max
room_of_not_full l v e p = ground (arith, v.sized)

use_recent_grows :
    (max : ℕ) (c : Text) (q : List Text)
    → Sets.contains c q ≡ false
    → is_full max (length q) ≡ false
    → use_recent max c q ≡ (q ++ c ∷ [], none)
unfolding use_recent make_room
use_recent_grows max c [] h e = rw h
use_recent_grows max c (x ∷ q) h e = rw (h, e)

use_recent_replaces :
    (max : ℕ) (c v : Text) (rest : List Text)
    → Sets.contains c (v ∷ rest) ≡ false
    → is_full max (length (v ∷ rest)) ≡ true
    → use_recent max c (v ∷ rest) ≡ (rest ++ c ∷ [], some v)
unfolding use_recent make_room
use_recent_replaces max c v rest h e = rw (h, e)

remove_front :
    (l : Lru) (v : Text) (rest : List Text)
    → IsValid l
    → l.order ≡ v ∷ rest
    → (remove l v).order ≡ rest
remove_front l v rest d o =
    let same : (evict_from l (v ∷ rest)).0.order ≡ rest = unfold evict_from in refl in
    sym (ap (λ r. r.0.order) (evict_from-remove l v rest d o)) ∙ same

front_held :
    (l : Lru) (v : Text) (rest : List Text) → IsValid l → l.order ≡ v ∷ rest → contains l v ≡ true
unfolding contains Sets.contains
front_held l v rest d o = sym (d.same v) ∙ rw (o, Sets.contains) (ground arith)

Grows-Refines :
    (l : Lru) (c : Text) → IsValid l → contains l c ≡ false → Grows l c → Refines l c (insert l c)
unfolding contains add
Grows-Refines l c v h (e, room) = rw e (record {
  order = sym (ap (λ r. r.0) spec);
  victim = sym (ap (λ r. r.1) spec);
  max = refl;
  valid = add-IsValid l c v h (room_of_not_full l v room);
})
  where
    spec : use_recent l.max c l.order ≡ (l.order ++ c ∷ [], none)
    spec = use_recent_grows l.max c l.order (v.same c ∙ h) room

Replaces-Refines :
    (l : Lru) (c : Text)
    → IsValid l
    → contains l c ≡ false
    → Replaces l c
    → Refines l c (insert l c)
unfolding contains add remove
Replaces-Refines l c v h (x, rest, o, e, full) = rw e (record {
  order = ap (λ q. q ++ c ∷ []) (remove_front l x rest v o) ∙ sym (ap (λ r. r.0) spec);
  victim = sym (ap (λ r. r.1) spec);
  max = refl;
  valid = add-IsValid (remove l x) c (remove-IsValid l x v) fresh room;
})
  where
    spec : use_recent l.max c l.order ≡ (rest ++ c ∷ [], some x)
    spec = rw o (use_recent_replaces l.max c x rest (rw o at (v.same c ∙ h)) (rw o at full))

    fresh : Sets.contains c (Sets.remove x l.prepared) ≡ false
    fresh = ground (arith, contains-remove c x l.prepared)

    room : 0 < l.max → length (Sets.remove x l.prepared) < l.max
    room p = omega (arith, length-remove x l.prepared v.set (front_held l x rest v o), v.bounded p)

Touches-Refines : (l : Lru) (c : Text) → IsValid l → contains l c ≡ true → Refines l c (insert l c)
unfolding contains insert touch use_recent
Touches-Refines l c v h = rw h (record {
  order = rw (v.same c ∙ h);
  victim = rw (v.same c ∙ h);
  max = refl;
  valid = touch-IsValid l c v h;
})

-- `insert` on a well-formed cache acts on the recency order as the bounded queue does, a name
-- already held moves to the back, the name that gives way at the limit is the one used longest
-- ago and is the one returned, and the two collections stay in agreement and within the limit.
pub insert-Refines : (l : Lru) (c : Text) → IsValid l → Refines l c (insert l c)
insert-Refines l c v = elim (Bool-cases (contains l c)) [
  | inl held ↦ Touches-Refines l c v held
  | inr fresh ↦ elim (insert_cases l c v fresh) [
    | inl g ↦ Grows-Refines l c v fresh g
    | inr r ↦ Replaces-Refines l c v fresh r
  ]
]
