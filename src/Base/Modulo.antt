-- ===== src/Base/Modulo.antt =====
-- One turn of a counter modulo `n` meets each remainder once.
use native.Mathlib.Nat.{mod-lt, mod-add-mod, mod-eq_of_lt, mod-eq-sub-mod}
use tcp_load_balancer.Base.Tests.{ltb, if◌then◌else◌}
use mathlib.Core.Path.{◌≡◌}
use native.Mathlib.Omega.{arith}
use Prim.Native.Nat.{ℕ, ◌+◌, ◌-◌, ◌%◌, ◌<◌}

mod_turn :
    (a n k : ℕ) → k < n → (a + k) % n ≡ (if ltb (a % n + k) n then a % n + k else a % n + k - n)
mod_turn a n k h = ground (
  arith,
  mod-lt a {m = n},
  mod-add-mod a n k,
  mod-eq_of_lt {n = a % n + k} {m = n},
  mod-eq_of_lt {n = a % n + k - n} {m = n},
  mod-eq-sub-mod {n = a % n + k} {m = n},
)

-- The step of the turn that meets `i`.
abbrev pub turn_of : ℕ → ℕ → ℕ → ℕ
turn_of a n i = if ltb i (a % n) then i + n - a % n else i - a % n

pub turn_of_lem : (a n i : ℕ) → i < n → (turn_of a n i < n) × ((a + turn_of a n i) % n ≡ i)
turn_of_lem a n i h = ground (arith, mod-lt a {m = n}, mod_turn a n (turn_of a n i))

pub turn-injective : (a n j k : ℕ) → j < n → k < n → (a + j) % n ≡ (a + k) % n → j ≡ k
turn-injective a n j k hj hk e =
    ground (arith, mod-lt a {m = n}, mod_turn a n j hj, mod_turn a n k hk)
