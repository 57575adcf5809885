-- ===== src/Modules.antt =====
-- core/src/ModuleCenter.cpp and ModuleCenter-impl.h: the life of the modules. A module is known by
-- its key, an instance by the number that its create function returns; the create function of a
-- module is a parameter. A result `none` is a failed assert.
pub mod LifeCycle
pub mod Tests
use zamt.Prelude.{
  ℕ, ◌≡◌, Bool, true, false, List, [], ◌∷◌, ◌++◌, Option, none, some, ltb, ◌==◌, if◌then◌else◌,
  ◌>>=◌, ◌>>◌, assert, length,
}

abbrev pub max_modules_num : ℕ
max_modules_num = 64

-- `ModuleBootstrap` adds a module to `module_inits_`, of which only the keys are kept.
unfoldable pub bootstrap : ℕ → List ℕ → Option (List ℕ)
bootstrap key module_inits = do
  assert (ltb (length module_inits) max_modules_num)
  some (module_inits ++ (key ∷ []))

-- `module_instances_`, from keys to instances.
abbrev pub Instances : Type 0
Instances = List (ℕ × ℕ)

unfoldable pub find : ℕ → Instances → Option ℕ
find key [] = none
find key (entry ∷ m) = let rest = find key m in if entry.0 == key then some entry.1 else rest

-- `emplace`, and the assert that the key is new.
unfoldable pub emplace : ℕ → ℕ → Instances → Option Instances
unfolding find
emplace key instance_made m = elim (find key m) [
  | none ↦ some ((key, instance_made) ∷ m)
  | some i ↦ none
]

-- The calls of the modules' functions, each with the key and the instance.
pub data ModuleCall : Type 0 where
  create_function init_function : (key instance_made : ℕ) → ModuleCall

-- The first loop of the constructor, with its calls in order.
unfoldable pub create_all : (ℕ → ℕ) → List ℕ → Instances → Option (Instances × List ModuleCall)
create_all create [] m = some (m, [])
create_all create (key ∷ keys) m = do
  m' ← emplace key (create key) m
  (all, calls) ← create_all create keys m'
  some (all, create_function key (create key) ∷ calls)

-- The modules with their instances in the order of a loop over `module_inits_`, which calls the
-- init functions or the destroy functions.
unfoldable pub call_all : List ℕ → Instances → Option (List (ℕ × ℕ))
call_all [] m = some []
call_all (key ∷ keys) m = do i ← find key m; calls ← call_all keys m; some ((key, i) ∷ calls)

pub record ModuleCenter : Type 0 where
  pub module_inits : List ℕ
  pub module_instances : Instances
  pub calls : List ModuleCall

abbrev pub init_calls : List (ℕ × ℕ) → List ModuleCall
init_calls [] = []
init_calls (e ∷ es) = init_function e.0 e.1 ∷ init_calls es

-- `calls` are the calls of the constructor, in order.
unfoldable pub construct : (ℕ → ℕ) → List ℕ → Option ModuleCenter
construct create module_inits = do
  (instances, creations) ← create_all create module_inits []
  initialized ← call_all module_inits instances
  some (record {
    module_inits = module_inits;
    module_instances = instances;
    calls = creations ++ init_calls initialized;
  })

unfoldable pub get : ℕ → ModuleCenter → Option ℕ
get key mc = find key mc.module_instances

unfoldable pub destroy : ModuleCenter → Option (List (ℕ × ℕ))
destroy mc = call_all mc.module_inits mc.module_instances
