-- ===== src/Worker/Overdue.antt =====
-- Which pairs are overdue, and the first loop of `reap_timeouts` of src/server.cpp.
use tcp_load_balancer.Base.{
  ℕ, ◌+◌, ◌≡◌, refl, Bool, false, ◌||◌, ◌&&◌, not, List, [], ◌∷◌, Option, none, some, inl, inr,
  Option-cases, arith, leb, ◌==◌, if◌then◌else◌, find, IsMap,
}
use tcp_load_balancer.Worker.Loop.{expiry, noted, expired}
use tcp_load_balancer.Worker.Pairs.{IsPaired}
use tcp_load_balancer.Worker.{Peer, Peers}

-- The pair of this client and this backend is overdue: its connection is still being made at the
-- deadline, or it has been made and the client's side has been idle for the timeout.
abbrev pub is_late : ℕ → ℕ → Option Peer → Option Peer → Bool
is_late now idle none backend = false
is_late now idle (some client) none = leb (client.last_activity + idle) now
is_late now idle (some client) (some backend) =
    if backend.connecting
    then leb backend.connect_deadline now
    else leb (client.last_activity + idle) now

-- The pair of this peer is overdue.
abbrev pub has_late_pair : ℕ → ℕ → Peers → Option Peer → Bool
has_late_pair now idle ps none = false
has_late_pair now idle ps (some p) =
    if p.backend_side
    then is_late now idle (find p.paired_fd ps) (some p)
    else is_late now idle (some p) (find p.paired_fd ps)

-- A list of closings names the descriptor.
abbrev is_listed : ℕ → List (ℕ × Bool) → Bool
is_listed j [] = false
is_listed j ((k, failure) ∷ es) = k == j || is_listed j es

-- It names the descriptor of this peer or of its mate.
abbrev pub is_cut : List (ℕ × Bool) → ℕ → Option Peer → Bool
is_cut es j none = is_listed j es
is_cut es j (some p) = is_listed j es || is_listed p.paired_fd es

-- The first loop lists a client whose pair is overdue, and nobody else.
abbrev is_due : ℕ → ℕ → Peers → Option Peer → Bool
is_due now idle ps none = false
is_due now idle ps (some p) = not p.backend_side && is_late now idle (some p) (find p.paired_fd ps)

is_listed-noted :
    (now idle j fd : ℕ) (p : Peer) (mate : Option Peer) (es : List (ℕ × Bool))
    → is_listed j (noted fd (expiry now idle p mate) es)
      ≡ ((fd == j && is_late now idle (some p) mate) || is_listed j es)
unfolding expiry
is_listed-noted now idle j fd p none es = ground arith
is_listed-noted now idle j fd p (some q) es = ground arith

is_listed-expired :
    (now idle j : ℕ) (ps rest : Peers)
    → IsMap rest
    → is_listed j (expired now idle ps rest) ≡ is_due now idle ps (find j rest)
unfolding expired
is_listed-expired now idle j ps [] m = refl
is_listed-expired now idle j ps ((fd, p) ∷ rest) m = ground (
  arith,
  m,
  is_listed-expired now idle j ps rest m.1,
  is_listed-noted now idle j fd p (find p.paired_fd ps) (expired now idle ps rest),
)

-- Of a map of pairs, the first loop names those that are overdue.
pub is_cut-expired :
    (n now idle j : ℕ) (ps : Peers)
    → IsMap ps
    → IsPaired n ps
    → is_cut (expired now idle ps ps) j (find j ps) ≡ has_late_pair now idle ps (find j ps)
is_cut-expired n now idle j ps m paired = elim (Option-cases (find j ps)) [
  | inl e ↦ ground (arith, e, is_listed-expired now idle j ps ps m)
  | inr (p, e) ↦
      let u = paired j p e in
      ground (
        arith,
        e,
        u.mate_found,
        u.mated.back,
        u.mated.other_side,
        is_listed-expired now idle j ps ps m,
        is_listed-expired now idle p.paired_fd ps ps m,
      )
]

-- The peers that are left are those of `ps` that `cut` does not name, unchanged.
abbrev pub Leaves : Peers → (ℕ → Bool) → Peers → Type 0
Leaves ps cut qs = (j : ℕ) → find j qs ≡ (if cut j then none else find j ps)

-- One closing, and the closings behind it.
pub Leaves-cons :
    (k : ℕ) (failure : Bool) (es : List (ℕ × Bool)) (ps qs rs : Peers)
    → Leaves ps (λ j. is_cut ((k, failure) ∷ []) j (find j ps)) qs
    → Leaves qs (λ j. is_cut es j (find j qs)) rs
    → Leaves ps (λ j. is_cut ((k, failure) ∷ es) j (find j ps)) rs
Leaves-cons k failure es ps qs rs first later j = elim (Option-cases (find j ps)) [
  | inl e ↦ ground (arith, e, first j, later j)
  | inr (p, e) ↦ ground (arith, e, first j, later j)
]
