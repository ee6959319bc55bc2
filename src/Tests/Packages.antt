-- ===== src/Tests/Packages.antt =====
-- A runtime with the string "hi" at 32, a package at 40 whose one symbol, at 48, has that name, and an
-- empty package at 56.
use portable_systems_lisp.Base.{ℕ, ◌≡◌, refl, true, false, List, [], ◌∷◌, none, some, arith, inr}
use portable_systems_lisp.Outcome.{ok}
use portable_systems_lisp.Value.{nil}
use portable_systems_lisp.Machine.{Runtime, lookup}
use portable_systems_lisp.Gc.{make_room}
use portable_systems_lisp.Gc.Reach.{IsHeap}
use portable_systems_lisp.Frames.Apart.{IsFresh, framed}
use portable_systems_lisp.Frames.{Frame}
use portable_systems_lisp.Frames.Construct.{CanConstruct}
use portable_systems_lisp.Text.Laws.{IsString}
use portable_systems_lisp.Symbols.{intern_symbol}
use portable_systems_lisp.Symbols.Laws.{symbol_object, package_value}
use portable_systems_lisp.Symbols.Chain.{IsFirst}
use portable_systems_lisp.Symbols.Intern.{IsPackage, intern_symbol-found}
use portable_systems_lisp.Symbols.Fresh.{Interned, intern_symbol-new, intern_symbol-again}
use portable_systems_lisp.Tests.Sample.{sample, host, frame, hi}

abbrev letters : List ℕ
letters = 104 ∷ 105 ∷ []

abbrev inner : Frame
inner = record { root = 5200; values = 4300 }

abbrev shop : Runtime
shop = record sample {
  objects = hi ∷ package_value 40 32 48 ∷ symbol_object 48 32 40 nil ∷ package_value 56 32 nil ∷ [];
  object_count = 4;
}

shop-IsHeap : IsHeap shop
unfolding lookup
shop-IsHeap = record {
  distinct = (refl, (refl, (refl, (refl, tt))));
  aligned = omega arith;
  unmarked = (refl, (refl, (refl, (refl, tt))));
  sized = (
    (λ e. cc, λ _. omega arith),
    ((λ e. cc, λ e. cc), ((λ e. cc, λ e. cc), ((λ e. cc, λ e. cc), tt))),
  );
  counted = refl;
}

hi-named : IsString shop 32 letters
unfolding lookup
hi-named = record {
  object = hi;
  held = refl;
  kind = refl;
  size = refl;
  rest = 0 ∷ [];
  bytes = refl;
}

stocked : IsPackage shop 40 ((48, letters) ∷ [])
unfolding lookup
stocked = record {
  object = package_value 40 32 48;
  held = refl;
  kind = refl;
  chain = (
    refl,
    (
      record { object = symbol_object 48 32 40 nil; held = refl; kind = refl; named = hi-named },
      refl,
    ),
  );
}

vacant : IsPackage shop 56 []
unfolding lookup
vacant = record { object = package_value 56 32 nil; held = refl; kind = refl; chain = refl }

hi-held : lookup 32 shop.objects ≡ some hi
unfolding lookup
hi-held = refl

unoccupied : lookup 64 shop.objects ≡ none
unfolding lookup
unoccupied = refl

intern_symbol-found_example :
    (a : ℕ) × (intern_symbol host frame inner 40 32 true shop ≡ ok (a, shop))
    × IsFirst letters ((48, letters) ∷ []) (some a)
intern_symbol-found_example =
    intern_symbol-found host frame inner 40 32 true shop ((48, letters) ∷ []) letters shop-IsHeap
      stocked hi-named (λ all. all.0 refl)

abbrev called : Runtime
called = framed frame (56 ∷ 32 ∷ []) shop

no_collection :
    make_room host false (framed inner (32 ∷ []) called) ≡ ok (tt, framed inner (32 ∷ []) called)
unfolding make_room
no_collection = refl

called-IsHeap : IsHeap called
called-IsHeap = record {
  distinct = shop-IsHeap.distinct;
  aligned = shop-IsHeap.aligned;
  unmarked = shop-IsHeap.unmarked;
  sized = shop-IsHeap.sized;
  counted = refl;
}

called-CanConstruct : CanConstruct host inner (32 ∷ []) called 0 false
called-CanConstruct = record {
  heap = called-IsHeap;
  fresh = record { roots = (inr (omega arith), (inr (omega arith), tt)); permanent_roots = tt };
  can_collect = refl;
  block = record {
    ne_null = omega arith;
    aligned = omega arith;
    fresh = λ s₁ e. ground (arith, no_collection, unoccupied);
  };
  fits = omega arith;
}

shop-IsFresh : IsFresh frame 2 shop
shop-IsFresh = record { roots = (inr (omega arith), tt); permanent_roots = tt }

intern_symbol-new_example :
    (s' : Runtime) × (intern_symbol host frame inner 56 32 true shop ≡ ok (64, s'))
    × Interned shop s' 56 32 64 letters []
intern_symbol-new_example =
    intern_symbol-new host frame inner 56 32 true shop [] letters shop-IsHeap vacant hi-named
      shop-IsFresh called-CanConstruct tt

intern_symbol-again_example :
    (s' : Runtime) × (intern_symbol host frame inner 56 32 true shop ≡ ok (64, s'))
    × (intern_symbol host inner frame 56 32 false s' ≡ ok (64, s'))
intern_symbol-again_example =
    intern_symbol-again host frame inner 56 32 true shop [] letters shop-IsHeap vacant hi-named
      shop-IsFresh called-CanConstruct host inner frame false tt
