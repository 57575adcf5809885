-- ===== src/Scheduler/Registry.antt =====
-- The container `sources_` of the scheduler: a vector of `SourceRef` kept sorted by source id.
pub mod Lookup
use zamt.Prelude.{
  ℕ, Bool, true, false, not, ◌&&◌, List, [], ◌∷◌, ◌++◌, Option, none, some, ltb, ◌==◌,
  if◌then◌else◌, ◌>>=◌, ◌>>◌, assert,
}
use zamt.Scheduler.Source.{Source, new_source}

-- A `SourceRef` with the `Source` that it owns.
pub record SourceRef : Type 0 where
  pub source_id : ℕ
  pub source : Source

-- `operator<` of `SourceRef`.
abbrev pub ref_lt : SourceRef → SourceRef → Bool
ref_lt a b = ltb a.source_id b.source_id

-- `std::sort`, `std::is_sorted` and `std::lower_bound` by that operator.
unfoldable pub insert_ref : SourceRef → List SourceRef → List SourceRef
insert_ref r [] = r ∷ []
insert_ref r (s ∷ ss) = if ref_lt s r then s ∷ insert_ref r ss else r ∷ s ∷ ss

unfoldable pub sort_refs : List SourceRef → List SourceRef
unfolding insert_ref
sort_refs [] = []
sort_refs (r ∷ rs) = insert_ref r (sort_refs rs)

unfoldable pub is_sorted : List SourceRef → Bool
is_sorted [] = true
is_sorted (r ∷ []) = true
is_sorted (r ∷ s ∷ ss) = not (ref_lt s r) && is_sorted (s ∷ ss)

unfoldable pub lower_bound : List SourceRef → ℕ → Option SourceRef
lower_bound [] id = none
lower_bound (r ∷ rs) id = if ltb r.source_id id then lower_bound rs id else some r

-- `src_it != sources_.end() && src_it->source_id == source_id`, with the source that it is about.
abbrev pub if_equal : ℕ → Option SourceRef → Option Source
if_equal id none = none
if_equal id (some r) = if r.source_id == id then some r.source else none

-- GetSourceById; `none` is its failed assert. `std::binary_search` finds an id just if this does.
unfoldable pub find_source : ℕ → List SourceRef → Option Source
unfolding lower_bound
find_source id sources = if_equal id (lower_bound sources id)

abbrev pub is_some {ℓ} : {A : Type ℓ} → Option A → Bool
is_some none = false
is_some (some a) = true

-- RegisterSource between its lock and its unlock.
unfoldable pub register : ℕ → ℕ → ℕ → List SourceRef → Option (List SourceRef)
unfolding is_sorted find_source sort_refs
register source_id packet_size packets_in_queue sources = do
  assert (is_sorted sources)
  assert (not (is_some (find_source source_id sources)))
  src ← new_source packet_size packets_in_queue
  some (sort_refs (sources ++ (record { source_id = source_id; source = src } ∷ [])))

-- What a call does to the source that `find_source` gave it, seen in the container.
unfoldable pub set_source : ℕ → Source → List SourceRef → List SourceRef
set_source id src [] = []
set_source id src (r ∷ rs) =
    if r.source_id == id then record r { source = src } ∷ rs else r ∷ set_source id src rs
