-- ===== src/Modules/Tests.antt =====
-- The theorem on modules, at a small input.
use zamt.Prelude.{ℕ, ◌+◌, ◌≡◌, refl, List, [], ◌∷◌, ◌++◌, none, some, arith, if◌then◌else◌}
use zamt.Modules.{create_all, emplace, find, init_calls, ModuleCenter, construct, get, destroy}
use zamt.Modules.LifeCycle.{member, entries, creations, construct-LifeCycle}

abbrev keys : List ℕ
keys = 16 ∷ 8 ∷ 24 ∷ []

abbrev create : ℕ → ℕ
create key = 1000 + key

construct-LifeCycle_example :
    (mc : ModuleCenter) × (construct create keys ≡ some mc)
    × (mc.calls ≡ creations create keys ++ init_calls (entries create keys))
    × ((key : ℕ) → get key mc ≡ (if member key keys then some (create key) else none))
    × (destroy mc ≡ some (entries create keys))
construct-LifeCycle_example =
    construct-LifeCycle create keys
      ((omega arith, (omega arith, tt)), ((omega arith, tt), (tt, tt)))

-- A key that comes twice fails the assert on `emplace`.
twice : construct create (8 ∷ 8 ∷ []) ≡ none
unfolding construct create_all emplace find
twice = refl
