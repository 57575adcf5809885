-- ===== src/Scheduler/Registry/Lookup.antt =====
-- Lookups in `sources_` after RegisterSource and after an update of one source.
use zamt.Prelude.{
  ℕ, ◌<◌, ◌≤◌, ◌≡◌, ◌≢◌, refl, ap, ◌∙◌, true, List, [], ◌∷◌, ◌++◌, none, some, arith, ◌==◌,
  if◌then◌else◌,
}
use zamt.Scheduler.Source.{Source, fresh, new_source}
use zamt.Scheduler.Registry.{
  SourceRef, insert_ref, sort_refs, is_sorted, find_source, register, set_source,
}

abbrev pub AllAbove : ℕ → List SourceRef → Type 0
AllAbove a [] = Unit {0}
AllAbove a (r ∷ rs) = (a < r.source_id) × AllAbove a rs

-- Strictly sorted: no source id occurs twice.
abbrev pub IsSorted : List SourceRef → Type 0
IsSorted [] = Unit {0}
IsSorted (r ∷ rs) = AllAbove r.source_id rs × IsSorted rs

AllAbove-weaken : (a b : ℕ) (rs : List SourceRef) → a ≤ b → AllAbove b rs → AllAbove a rs
AllAbove-weaken a b [] h k = tt
AllAbove-weaken a b (r ∷ rs) h k = (omega arith, AllAbove-weaken a b rs h k.1)

is_sorted-of-IsSorted : (rs : List SourceRef) → IsSorted rs → is_sorted rs ≡ true
unfolding is_sorted
is_sorted-of-IsSorted [] h = refl
is_sorted-of-IsSorted (r ∷ []) h = refl
is_sorted-of-IsSorted (r ∷ s ∷ ss) h = ground (arith, is_sorted-of-IsSorted (s ∷ ss) h.1)

-- In a sorted vector an id below all others is not found.
find_source-above : (id : ℕ) (rs : List SourceRef) → AllAbove id rs → find_source id rs ≡ none
unfolding find_source
find_source-above id [] h = refl
find_source-above id (r ∷ rs) h = ground (arith, find_source-above id rs h.1)

find_source-cons :
    (id : ℕ) (r : SourceRef) (rs : List SourceRef)
    → IsSorted (r ∷ rs)
    → find_source id (r ∷ rs) ≡ (if r.source_id == id then some r.source else find_source id rs)
unfolding find_source
find_source-cons id r rs h =
    ground (arith, find_source-above id rs, AllAbove-weaken id r.source_id rs)

insert_ref-AllAbove :
    (a : ℕ) (r : SourceRef) (rs : List SourceRef)
    → a < r.source_id
    → AllAbove a rs
    → AllAbove a (insert_ref r rs)
unfolding insert_ref
insert_ref-AllAbove a r [] h k = (h, tt)
insert_ref-AllAbove a r (s ∷ ss) h k = ground (arith, insert_ref-AllAbove a r ss h k.1)

insert_ref-IsSorted :
    (r : SourceRef) (rs : List SourceRef)
    → IsSorted rs
    → find_source r.source_id rs ≡ none
    → IsSorted (insert_ref r rs)
unfolding insert_ref
insert_ref-IsSorted r [] h n = (tt, tt)
insert_ref-IsSorted r (s ∷ ss) h n = ground (
  arith,
  find_source-cons r.source_id s ss h,
  insert_ref-IsSorted r ss h.1,
  insert_ref-AllAbove s.source_id r ss,
  AllAbove-weaken r.source_id s.source_id ss,
)

find_source-insert_ref :
    (id : ℕ) (r : SourceRef) (rs : List SourceRef)
    → IsSorted rs
    → find_source r.source_id rs ≡ none
    → find_source id (insert_ref r rs)
      ≡ (if r.source_id == id then some r.source else find_source id rs)
unfolding insert_ref
find_source-insert_ref id r [] h n = find_source-cons id r [] (tt, tt)
find_source-insert_ref id r (s ∷ ss) h n = ground (
  arith,
  find_source-cons r.source_id s ss h,
  find_source-cons id s ss h,
  find_source-cons id s (insert_ref r ss),
  find_source-cons id r (s ∷ ss),
  insert_ref-IsSorted r ss h.1,
  insert_ref-AllAbove s.source_id r ss,
  AllAbove-weaken r.source_id s.source_id ss,
  find_source-insert_ref id r ss h.1,
)

sort_refs-sorted : (rs : List SourceRef) → IsSorted rs → sort_refs rs ≡ rs
unfolding sort_refs
sort_refs-sorted [] h = refl
sort_refs-sorted (r ∷ []) h = refl
sort_refs-sorted (r ∷ s ∷ ss) h = ground (arith, sort_refs-sorted (s ∷ ss) h.1)

-- Two insertions at different places may be swapped.
insert_ref-swap :
    (r x : SourceRef) (rs : List SourceRef)
    → AllAbove r.source_id rs
    → r.source_id ≢ x.source_id
    → insert_ref r (insert_ref x rs) ≡ insert_ref x (r ∷ rs)
unfolding insert_ref
insert_ref-swap r x [] h ne = ground arith
insert_ref-swap r x (s ∷ ss) h ne = ground arith

sort_refs-append :
    (rs : List SourceRef) (x : SourceRef)
    → IsSorted rs
    → find_source x.source_id rs ≡ none
    → sort_refs (rs ++ (x ∷ [])) ≡ insert_ref x rs
unfolding sort_refs
sort_refs-append [] x h n = refl
sort_refs-append (r ∷ rs) x h n =
    ap (insert_ref r)
      (sort_refs-append rs x h.1 (ground (arith, find_source-cons x.source_id r rs h)))
    ∙ insert_ref-swap r x rs h.0 (λ e. ground (arith, find_source-cons x.source_id r rs h))

-- RegisterSource of a new id with at least one packet in its queue: no assert fails, `sources_`
-- stays strictly sorted, the id is found with a fresh source, and what is found for any other id
-- stays as it is.
pub register_lem :
    (id size queue : ℕ) (sources : List SourceRef)
    → IsSorted sources
    → find_source id sources ≡ none
    → 0 < queue
    → (out : List SourceRef) × (register id size queue sources ≡ some out)
      × IsSorted out
      × ((j : ℕ)
          → find_source j out
            ≡ (if id == j then some (fresh size queue) else find_source j sources))
unfolding register new_source
register_lem id size queue sources h n pos = (
  sort_refs (sources ++ (ref ∷ [])),
  ground (arith, is_sorted-of-IsSorted sources h, n),
  rw (sort_refs-append sources ref h n) (insert_ref-IsSorted ref sources h n),
  λ j. rw (sort_refs-append sources ref h n) (find_source-insert_ref j ref sources h n),
)
  where
    ref : SourceRef
    ref = record { source_id = id; source = fresh size queue }

-- RegisterSource of an id that is there fails its assert.
pub register-again :
    (id size queue : ℕ) (sources : List SourceRef) {src : Source}
    → find_source id sources ≡ some src
    → register id size queue sources ≡ none
unfolding register
register-again id size queue sources e = ground (arith, e)

set_source-AllAbove :
    (a id : ℕ) (src : Source) (rs : List SourceRef)
    → AllAbove a rs
    → AllAbove a (set_source id src rs)
unfolding set_source
set_source-AllAbove a id src [] h = tt
set_source-AllAbove a id src (r ∷ rs) h = ground (arith, set_source-AllAbove a id src rs h.1)

pub set_source-IsSorted :
    (id : ℕ) (src : Source) (rs : List SourceRef) → IsSorted rs → IsSorted (set_source id src rs)
unfolding set_source
set_source-IsSorted id src [] h = tt
set_source-IsSorted id src (r ∷ rs) h =
    ground (arith, set_source-IsSorted id src rs h.1, set_source-AllAbove r.source_id id src rs h.0)

-- An update of one source is seen by later lookups of its id alone.
pub find_source-set_source :
    (j id : ℕ) (src old : Source) (rs : List SourceRef)
    → IsSorted rs
    → find_source id rs ≡ some old
    → find_source j (set_source id src rs) ≡ (if id == j then some src else find_source j rs)
unfolding set_source
find_source-set_source j id src old [] h e = ground (arith, find_source-above id [] tt)
find_source-set_source j id src old (r ∷ rs) h e = ground (
  arith,
  find_source-cons j r rs h,
  find_source-cons id r rs h,
  find_source-cons j (record r { source = src }) rs,
  find_source-cons j r (set_source id src rs),
  set_source-IsSorted id src rs h.1,
  set_source-AllAbove r.source_id id src rs h.0,
  find_source-set_source j id src old rs h.1,
)
