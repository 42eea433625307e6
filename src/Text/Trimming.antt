-- ===== src/Text/Trimming.antt =====
-- What trimming leaves.
use tcp_load_balancer.Base.{
  ◌⊎◌, inl, inr, Bool-cases, length, ◌<◌, ◌≡◌, refl, ap, ◌∙◌, Bool, true, false, [], ◌∷◌, ◌++◌,
  arith, if◌then◌else◌,
}
use tcp_load_balancer.Text.{Bytes, is_space, trim_start, trim_end}

-- Spaces and nothing else.
abbrev pub IsBlank : Bytes → Type 0
IsBlank [] = Unit {0}
IsBlank (c ∷ s) = (is_space c ≡ true) × IsBlank s

abbrev pub starts_solid : Bytes → Bool
starts_solid [] = false
starts_solid (c ∷ s) = if is_space c then false else true

abbrev pub ends_solid : Bytes → Bool
ends_solid [] = false
ends_solid (c ∷ []) = if is_space c then false else true
ends_solid (c ∷ (d ∷ s)) = ends_solid (d ∷ s)

-- A text that trimming leaves alone.
pub record IsSolid (s : Bytes) : Type 0 where
  pub starts : starts_solid s ≡ true
  pub ends : ends_solid s ≡ true

pub starts_solid-append : (s t : Bytes) → starts_solid s ≡ true → starts_solid (s ++ t) ≡ true
starts_solid-append [] t h = cc
starts_solid-append (c ∷ s) t h = h

trim_start-blank : (a s : Bytes) → IsBlank a → starts_solid s ≡ true → trim_start (a ++ s) ≡ s
unfolding trim_start
trim_start-blank [] [] h k = refl
trim_start-blank [] (c ∷ s) h k = ground arith
trim_start-blank (c ∷ a) s h k = ground (arith, trim_start-blank a s h.1 k)

trim_end-blank : (b : Bytes) → IsBlank b → trim_end b ≡ []
unfolding trim_end
trim_end-blank [] h = refl
trim_end-blank (c ∷ b) h = ground (arith, trim_end-blank b h.1)

trim_end-append : (s b : Bytes) → ends_solid s ≡ true → IsBlank b → trim_end (s ++ b) ≡ s
unfolding trim_end
trim_end-append [] b k h = cc
trim_end-append (c ∷ []) b k h = ground (arith, trim_end-blank b h)
trim_end-append (c ∷ (d ∷ s)) b k h = ground (arith, trim_end-append (d ∷ s) b k h)

pub trim-append :
    (a s b : Bytes) → IsBlank a → IsSolid s → IsBlank b → trim_end (trim_start (a ++ (s ++ b))) ≡ s
trim-append a s b h v k =
    ap trim_end (trim_start-blank a (s ++ b) h (starts_solid-append s b v.starts))
    ∙ trim_end-append s b v.ends k

pub ends_solid-append : (s t : Bytes) → ends_solid t ≡ true → ends_solid (s ++ t) ≡ true
ends_solid-append [] t h = h
ends_solid-append (c ∷ []) [] h = cc
ends_solid-append (c ∷ []) (d ∷ t) h = h
ends_solid-append (c ∷ (d ∷ s)) t h = ends_solid-append (d ∷ s) t h

pub starts_solid_pos : (s : Bytes) → starts_solid s ≡ true → 0 < length s
starts_solid_pos [] h = cc
starts_solid_pos (c ∷ s) h = omega arith

pub ends_solid_pos : (s : Bytes) → ends_solid s ≡ true → 0 < length s
ends_solid_pos [] h = cc
ends_solid_pos (c ∷ s) h = omega arith

-- A trimmed text is empty or starts with something else than a space.
trim_start-cases : (s : Bytes) → (trim_start s ≡ []) ⊎ (starts_solid (trim_start s) ≡ true)
unfolding trim_start
trim_start-cases [] = inl refl
trim_start-cases (c ∷ s) = elim (Bool-cases (is_space c)) [
  | inl e ↦ rw e (trim_start-cases s)
  | inr e ↦ rw e (inr (rw e refl))
]

trim_end-starts : (s : Bytes) → starts_solid s ≡ true → starts_solid (trim_end s) ≡ true
unfolding trim_end
trim_end-starts [] h = h
trim_end-starts (c ∷ s) h = ground arith

pub trim-starts :
    (s : Bytes)
    → 0 < length (trim_end (trim_start s))
    → starts_solid (trim_end (trim_start s)) ≡ true
unfolding trim_end
trim-starts s h = elim (trim_start-cases s) [
  | inl e ↦ ground (arith, e, h)
  | inr e ↦ trim_end-starts (trim_start s) e
]
