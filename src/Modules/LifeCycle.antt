-- ===== src/Modules/LifeCycle.antt =====
-- The life cycle of the modules.
use zamt.Prelude.{
  Bool-cases, inl, inr, ℕ, ◌≡◌, ◌≢◌, refl, ap, ◌∙◌, Bool, true, false, List, [], ◌∷◌, ◌++◌, Option,
  none, some, ◌==◌, if◌then◌else◌, arith,
}
use zamt.Modules.{
  Instances, ModuleCall, create_function, init_calls, find, emplace, create_all, call_all,
  ModuleCenter, construct, get, destroy,
}

==-sound : (a b : ℕ) → (a == b) ≡ true → a ≡ b
==-sound a b h = ground (arith, h)

-- A key that none of the keys is.
abbrev pub IsNew : ℕ → List ℕ → Type 0
IsNew key [] = Unit
IsNew key (k ∷ ks) = (key ≢ k) × IsNew key ks

abbrev pub AreDistinct : List ℕ → Type 0
AreDistinct [] = Unit
AreDistinct (k ∷ ks) = IsNew k ks × AreDistinct ks

abbrev pub member : ℕ → List ℕ → Bool
member key [] = false
member key (k ∷ ks) = if k == key then true else member key ks

-- Instances of none of the keys.
abbrev AreAbsent : List ℕ → Instances → Type 0
AreAbsent [] m = Unit
AreAbsent (k ∷ ks) m = (find k m ≡ none) × AreAbsent ks m

AreAbsent-[] : (ks : List ℕ) → AreAbsent ks []
unfolding find
AreAbsent-[] [] = tt
AreAbsent-[] (k ∷ ks) = (refl, AreAbsent-[] ks)

find-other : (key k i : ℕ) (m : Instances) → key ≢ k → find k ((key, i) ∷ m) ≡ find k m
unfolding find
find-other key k i m n = ground (arith, n)

AreAbsent-∷ :
    (key i : ℕ) (ks : List ℕ) (m : Instances)
    → IsNew key ks
    → AreAbsent ks m
    → AreAbsent ks ((key, i) ∷ m)
AreAbsent-∷ key i [] m new h = tt
AreAbsent-∷ key i (k ∷ ks) m new h =
    (find-other key k i m new.0 ∙ h.0, AreAbsent-∷ key i ks m new.1 h.1)

IsNew-member : (key : ℕ) (ks : List ℕ) → IsNew key ks → member key ks ≡ false
IsNew-member key [] h = refl
IsNew-member key (k ∷ ks) h = ground (arith, h.0, IsNew-member key ks h.1)

create_all-∷ :
    (create : ℕ → ℕ) (k : ℕ) (ks : List ℕ) (m all : Instances) (calls : List ModuleCall)
    → find k m ≡ none
    → create_all create ks ((k, create k) ∷ m) ≡ some (all, calls)
    → create_all create (k ∷ ks) m ≡ some (all, create_function k (create k) ∷ calls)
unfolding create_all emplace
create_all-∷ create k ks m all calls h rest = ground (arith, h, rest)

abbrev pub creations : (ℕ → ℕ) → List ℕ → List ModuleCall
creations create [] = []
creations create (k ∷ ks) = create_function k (create k) ∷ creations create ks

found : (ℕ → ℕ) → List ℕ → Instances → ℕ → Option ℕ
found create ks m key = if member key ks then some (create key) else find key m

found-∷ :
    (create : ℕ → ℕ) (k : ℕ) (ks : List ℕ) (m : Instances) (key : ℕ)
    → found create ks ((k, create k) ∷ m) key ≡ found create (k ∷ ks) m key
unfolding found find
found-∷ create k ks m key = elim (Bool-cases (k == key)) [
  | inl e ↦ ground (arith, e, ap create (==-sound k key e))
  | inr n ↦ ground (arith, n)
]

create_all-finds :
    (create : ℕ → ℕ) (ks : List ℕ) (m : Instances)
    → AreDistinct ks
    → AreAbsent ks m
    → (m' : Instances) × (create_all create ks m ≡ some (m', creations create ks))
      × ((key : ℕ) → find key m' ≡ found create ks m key)
unfolding create_all found
create_all-finds create [] m distinct absent = (m, refl, λ key. refl)
create_all-finds create (k ∷ ks) m distinct absent =
    let (m', runs, finds) =
      create_all-finds create ks ((k, create k) ∷ m) distinct.1
        (AreAbsent-∷ k (create k) ks m distinct.0 absent.1) in
    (
      m',
      create_all-∷ create k ks m m' (creations create ks) absent.0 runs,
      λ key. finds key ∙ found-∷ create k ks m key,
    )

-- The modules with their instances.
abbrev pub entries : (ℕ → ℕ) → List ℕ → List (ℕ × ℕ)
entries create [] = []
entries create (k ∷ ks) = (k, create k) ∷ entries create ks

abbrev AreFound : (ℕ → ℕ) → List ℕ → Instances → Type 0
AreFound create [] m = Unit
AreFound create (k ∷ ks) m = (find k m ≡ some (create k)) × AreFound create ks m

AreFound-all :
    (create : ℕ → ℕ) (some_keys ks : List ℕ) (m : Instances)
    → ((key : ℕ) → member key some_keys ≡ true → member key ks ≡ true)
    → ((key : ℕ) → find key m ≡ found create ks [] key)
    → AreFound create some_keys m
unfolding found
AreFound-all create [] ks m within h = tt
AreFound-all create (k ∷ some_keys) ks m within h = (
  h k ∙ ap (λ b. if b then some (create k) else find k []) (within k (ground arith)),
  AreFound-all create some_keys ks m
      (λ key e. within key (ground (arith, e, Bool-cases (k == key)))) h,
)

call_all-entries :
    (create : ℕ → ℕ) (ks : List ℕ) (m : Instances)
    → AreFound create ks m
    → call_all ks m ≡ some (entries create ks)
unfolding call_all
call_all-entries create [] m h = refl
call_all-entries create (k ∷ ks) m h = rw h.0 (rw (call_all-entries create ks m h.1) refl)

-- With distinct keys the constructor fails no assert: it creates an instance of every module, in
-- their order, and only when all are created it initializes each with its instance, in the same
-- order. Until the destructor, each module's instance
-- is the one that is got by its key, and no other key is known; the destructor destroys exactly
-- the instances that were created, in the same order.
pub construct-LifeCycle :
    (create : ℕ → ℕ) (keys : List ℕ)
    → AreDistinct keys
    → (mc : ModuleCenter) × (construct create keys ≡ some mc)
      × (mc.calls ≡ creations create keys ++ init_calls (entries create keys))
      × ((key : ℕ) → get key mc ≡ (if member key keys then some (create key) else none))
      × (destroy mc ≡ some (entries create keys))
unfolding construct get destroy found find
construct-LifeCycle create keys distinct =
    let (m, runs, finds) = create_all-finds create keys [] distinct (AreAbsent-[] keys) in
    let calls =
      call_all-entries create keys m (AreFound-all create keys keys m (λ key e. e) finds) in
    (
      record {
        module_inits = keys;
        module_instances = m;
        calls = creations create keys ++ init_calls (entries create keys);
      },
      rw runs (rw calls refl),
      refl,
      finds,
      calls,
    )
