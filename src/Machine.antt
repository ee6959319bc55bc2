-- ===== src/Machine.antt =====
-- The state of the hosted runtime and the commands on it: runtime/internal.h, the types of
-- runtime/psl_runtime.h and the static variables of runtime/gc.c, values.c and startup.c.
--
-- A pointer to an object is its address, which is also the psl_value that denotes it. The list
-- `objects` is the linked list through `next`, so its order is that of the C list. The words outside
-- the heap (stack frames, static arrays) are `memory`, by their addresses; a root frame points into
-- it. A `uint8_t bytes[]` tail is `bytes` of a string and `items` of a vector's storage.
pub mod Objects
pub mod Statics
pub mod Leaves
use portable_systems_lisp.Base.{
  ℕ, zero, suc, ◌+◌, ◌*◌, Bool, true, false, ◌||◌, not, Option, none, some, List, [], ◌∷◌, ◌==◌,
  if◌then◌else◌,
}
use portable_systems_lisp.Outcome.{Outcome, ok, abort, fault, out_of_fuel}
use portable_systems_lisp.Value.{pointer_p}

-- psl_object_kind
pub data Kind : Type 0 where
  cons string symbol package_object closure value_vector value_vector_storage : Kind

-- The numbers of the enumeration.
abbrev pub kind_code : Kind → ℕ
kind_code cons = 1
kind_code string = 2
kind_code symbol = 3
kind_code package_object = 4
kind_code closure = 5
kind_code value_vector = 6
kind_code value_vector_storage = 7

pub record Object : Type 0 where
  pub address : ℕ
  pub kind : Kind
  pub marked : Bool
  pub length : ℕ
  pub slot_0 : ℕ
  pub slot_1 : ℕ
  pub slot_2 : ℕ
  pub code : ℕ
  pub bytes : List ℕ
  pub items : List ℕ

-- psl_root: `address` is that of the frame itself, `values` that of its array.
pub record Root : Type 0 where
  pub address : ℕ
  pub values : ℕ
  pub count : ℕ

-- struct psl_value_handle
pub record ValueHandle : Type 0 where
  pub token : ℕ
  pub value : ℕ

pub record Runtime : Type 0 where
  pub objects : List Object
  pub roots : List Root
  pub permanent_roots : List Root
  pub value_handles : List ValueHandle
  pub next_value_handle : ℕ
  pub value_handle_count : ℕ
  pub object_count : ℕ
  pub collection_limit : ℕ
  pub memory : ℕ → ℕ
  -- the statics of values.c: the address of `current_values`, `current_count` and `initialized`
  pub current_values : ℕ
  pub current_count : ℕ
  pub initialized : Bool
  -- the static of startup.c, 0 before the first call
  pub stack_top : ℕ

-- What the host answers during one call. `calloc` is the address of the next object, 0 for NULL;
-- `malloc` says whether a malloc succeeds; `marker` is the address of the local of `mark_stack`;
-- `platform_stack_top` is the platform's answer, none where that function aborts.
pub record Host : Type 0 where
  pub calloc : ℕ
  pub malloc : Bool
  pub marker : ℕ
  pub platform_stack_top : Option ℕ

-- sizeof(psl_object): next 8, kind 4, marked 1 and padding 3, length 8, slots 24, code 8.
abbrev pub object_size : ℕ
object_size = 56

abbrev pub size_max : ℕ
size_max = 0xffff_ffff_ffff_ffff

abbrev pub M : Type 0 → Type 0
M A = Runtime → Outcome (A × Runtime)

abbrev pub pure : {A : Type 0} → A → M A
pure a s = ok (a, s)

abbrev pub aborts : {A : Type 0} → M A
aborts s = abort

module _ {A B : Type 0} where
  abbrev pub and_then : Outcome (A × Runtime) → (A → M B) → Outcome (B × Runtime)
  and_then (ok (a, s)) k = k a s
  and_then abort k = abort
  and_then fault k = fault
  and_then out_of_fuel k = out_of_fuel

  infixl 5 ◌>>=◌ ◌>>◌
  abbrev pub ◌>>=◌ : M A → (A → M B) → M B
  m >>= k = λ s. and_then (m s) k

  abbrev pub ◌>>◌ : M A → M B → M B
  m >> n = m >>= λ _. n

abbrev pub when_abort : Bool → M (Unit {0})
when_abort true s = abort
when_abort false s = ok (tt, s)

abbrev pub get : M Runtime
get s = ok (s, s)

-- The object at an address, as the heap holds it.
unfoldable pub lookup : ℕ → List Object → Option Object
lookup a [] = none
lookup a (o ∷ os) = if o.address == a then some o else lookup a os

-- A write through a pointer to an object.
unfoldable pub update : ℕ → (Object → Object) → List Object → List Object
update a f [] = []
update a f (o ∷ os) = if o.address == a then f o ∷ os else o ∷ update a f os

unfoldable pub find_object : ℕ → List Object → Option Object
find_object value objects = if pointer_p value then lookup value objects else none

-- The fields behind a pointer that the code holds; a dangling pointer is a fault.
unfoldable pub load : ℕ → M Object
load p s = elim (lookup p s.objects) [ none ↦ fault | some o ↦ ok (o, s) ]

unfoldable pub modify : ℕ → (Object → Object) → M (Unit {0})
modify p f s = elim (lookup p s.objects) [
  | none ↦ fault
  | some _ ↦ ok (tt, record s { objects = update p f s.objects })
]

-- psl_rt_expect_object; the kind `none` is the 0 that any object passes. The result is the pointer.
unfoldable pub expect_object : ℕ → Option Kind → M ℕ
expect_object value none s = elim (find_object value s.objects) [
  | none ↦ abort
  | some o ↦ ok (o.address, s)
]
expect_object value (some k) s = elim (find_object value s.objects) [
  | none ↦ abort
  | some o ↦ if kind_code o.kind == kind_code k then ok (o.address, s) else abort
]

-- psl_rt_kind
unfoldable pub kind : ℕ → M Kind
unfolding expect_object load
kind value = do p ← expect_object value none; o ← load p; pure o.kind

-- The words of an array of `count` psl_values.
unfoldable pub read_words : (ℕ → ℕ) → ℕ → ℕ → List ℕ
read_words m base zero = []
read_words m base (suc n) = m base ∷ read_words m (base + 8) n

unfoldable pub write : (ℕ → ℕ) → ℕ → ℕ → ℕ → ℕ
write m a v b = if b == a then v else m b

unfoldable pub store : ℕ → ℕ → M (Unit {0})
unfolding write
store a v s = ok (tt, record s { memory = write s.memory a v })

-- psl_rt_push_roots
unfoldable pub push_roots : ℕ → ℕ → ℕ → M (Unit {0})
push_roots root values count s =
    ok
      (tt, record s { roots = record { address = root; values = values; count = count } ∷ s.roots })

-- psl_rt_pop_roots
unfoldable pub pop_roots : ℕ → M (Unit {0})
pop_roots root s = elim s.roots [
  | [] ↦ abort
  | r ∷ rest ↦ if r.address == root then ok (tt, record s { roots = rest }) else abort
]

-- psl_rt_register_permanent_roots; `root` is the address that malloc returned
unfoldable pub register_permanent_roots : Host → ℕ → ℕ → ℕ → M (Unit {0})
register_permanent_roots host root values count s =
    if not host.malloc
    then abort
    else ok (
      tt,
      record s {
        permanent_roots =
            record { address = root; values = values; count = count } ∷ s.permanent_roots;
      },
    )
