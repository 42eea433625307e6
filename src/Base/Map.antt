-- ===== src/Base/Map.antt =====
-- A map with number keys as an association list, under the names of `std::unordered_map`.
use mathlib.Core.Bool.{false}
use mathlib.Core.List.{List, [], ◌∷◌}
use mathlib.Core.Logic.{inl, inr}
use mathlib.Core.Option.{Option, none, some}
use mathlib.Core.Path.{◌≡◌, refl}
use native.Mathlib.Omega.{arith}
use Prim.Native.Nat.{ℕ, ◌+◌}
use tcp_load_balancer.Base.Tests.{◌==◌, if◌then◌else◌, Bool-cases, ==_iff}

module _ {V : Type 0} where
  abbrev pub find : ℕ → List (ℕ × V) → Option V
  find k [] = none
  find k ((j, v) ∷ m) = if j == k then some v else find k m

  abbrev pub erase : ℕ → List (ℕ × V) → List (ℕ × V)
  erase k [] = []
  erase k ((j, v) ∷ m) = if j == k then erase k m else (j, v) ∷ erase k m

  -- A write through a reference to the value of a key. A missing key stays missing.
  abbrev pub put : ℕ → V → List (ℕ × V) → List (ℕ × V)
  put k v [] = []
  put k v ((j, u) ∷ m) = if j == k then (j, v) ∷ put k v m else (j, u) ∷ put k v m

  -- `emplace` changes nothing where the key is taken.
  abbrev pub emplace : ℕ → V → List (ℕ × V) → List (ℕ × V)
  emplace k v m = elim (find k m) [ none ↦ (k, v) ∷ m | some u ↦ m ]

  pub find-erase :
      (k j : ℕ) (m : List (ℕ × V)) → find j (erase k m) ≡ (if k == j then none else find j m)
  find-erase k j [] = ground arith
  find-erase k j ((i, v) ∷ m) = ground (arith, find-erase k j m)

  find-put-none : (k j : ℕ) (v : V) (m : List (ℕ × V)) → find j m ≡ none → find j (put k v m) ≡ none
  find-put-none k j v [] h = refl
  find-put-none k j v ((i, x) ∷ m) h = ground (arith, find-put-none k j v m)

  put_absent : (k : ℕ) (v : V) (m : List (ℕ × V)) → find k m ≡ none → put k v m ≡ m
  put_absent k v [] h = refl
  put_absent k v ((i, x) ∷ m) h = ground (arith, put_absent k v m)

  find-put_ne :
      (k j : ℕ) (v : V) (m : List (ℕ × V)) → (k == j) ≡ false → find j (put k v m) ≡ find j m
  find-put_ne k j v [] h = refl
  find-put_ne k j v ((i, x) ∷ m) h = ground (arith, find-put_ne k j v m)

  find-put_self :
      (k : ℕ) (v u : V) (m : List (ℕ × V)) → find k m ≡ some u → find k (put k v m) ≡ some v
  find-put_self k v u [] h = cc
  find-put_self k v u ((i, x) ∷ m) h = ground (arith, find-put_self k v u m)

  pub find-put :
      (k j : ℕ) (v u : V) (m : List (ℕ × V))
      → find k m ≡ some u
      → find j (put k v m) ≡ (if k == j then some v else find j m)
  find-put k j v u m h = elim (Bool-cases (k == j)) [
    | inl e ↦ rw e (rw (← (==_iff k j).0 e) (find-put_self k v u m h))
    | inr e ↦ rw e (find-put_ne k j v m e)
  ]

  -- No key stands twice.
  abbrev pub IsMap : List (ℕ × V) → Type 0
  IsMap [] = Unit {0}
  IsMap ((k, v) ∷ m) = (find k m ≡ none) × IsMap m

  pub erase-IsMap : (k : ℕ) (m : List (ℕ × V)) → IsMap m → IsMap (erase k m)
  erase-IsMap k [] h = tt
  erase-IsMap k ((j, v) ∷ m) h = ground (arith, erase-IsMap k m h.1, find-erase k j m)

  pub put-IsMap : (k : ℕ) (v : V) (m : List (ℕ × V)) → IsMap m → IsMap (put k v m)
  put-IsMap k v [] h = tt
  put-IsMap k v ((j, u) ∷ m) h = ground (arith, put-IsMap k v m h.1, find-put-none k j v m)

  -- The sum of a measure over the values.
  abbrev pub total_of : (V → ℕ) → List (ℕ × V) → ℕ
  total_of w [] = 0
  total_of w ((k, v) ∷ m) = w v + total_of w m

  abbrev pub weight : (V → ℕ) → Option V → ℕ
  weight w none = 0
  weight w (some v) = w v

  erase_absent : (k : ℕ) (m : List (ℕ × V)) → find k m ≡ none → erase k m ≡ m
  erase_absent k [] h = refl
  erase_absent k ((j, v) ∷ m) h = ground (arith, erase_absent k m)

  pub total_of-erase :
      (w : V → ℕ) (k : ℕ) (m : List (ℕ × V))
      → IsMap m
      → total_of w (erase k m) + weight w (find k m) ≡ total_of w m
  total_of-erase w k [] h = refl
  total_of-erase w k ((j, v) ∷ m) h = ground (arith, total_of-erase w k m h.1, erase_absent k m)

  pub total_of-put :
      (w : V → ℕ) (k : ℕ) (v : V) (m : List (ℕ × V))
      → IsMap m
      → weight w (find k m) ≡ w v
      → total_of w (put k v m) ≡ total_of w m
  total_of-put w k v [] h e = refl
  total_of-put w k v ((j, u) ∷ m) h e = ground (arith, total_of-put w k v m h.1, put_absent k v m)
