-- ===== src/Text/Words.antt =====
-- The words that a stream reads, and the pieces of a text around a byte.
use tcp_load_balancer.Base.{
  ℕ, zero, suc, ◌+◌, ◌≡◌, refl, ap, ◌∙◌, Bool, true, false, not, ◌&&◌, [], ◌∷◌, ◌++◌, some, arith,
  length, take, drop,
}
use tcp_load_balancer.Text.Numbers.{AreDigits, to_string-AreDigits}
use tcp_load_balancer.Text.{
  Bytes, is_space, starts_with, split_word, next_word, trim_start, find_first, to_string,
}

-- No byte is a space.
abbrev pub HasNoSpace : Bytes → Type 0
HasNoSpace [] = Unit {0}
HasNoSpace (c ∷ s) = (is_space c ≡ false) × HasNoSpace s

abbrev pub has_no_space : Bytes → Bool
has_no_space [] = true
has_no_space (c ∷ s) = not (is_space c) && has_no_space s

pub has_no_space_lem : (s : Bytes) → has_no_space s ≡ true → HasNoSpace s
has_no_space_lem [] h = tt
has_no_space_lem (c ∷ s) h = (ground arith, has_no_space_lem s (ground arith))

abbrev pub IsWord : Bytes → Type 0
IsWord [] = ⊥
IsWord (c ∷ s) = (is_space c ≡ false) × HasNoSpace s

abbrev pub starts_blank : Bytes → Bool
starts_blank [] = true
starts_blank (c ∷ s) = is_space c

pub append-HasNoSpace : (s t : Bytes) → HasNoSpace s → HasNoSpace t → HasNoSpace (s ++ t)
append-HasNoSpace [] t h k = k
append-HasNoSpace (c ∷ s) t h k = (h.0, append-HasNoSpace s t h.1 k)

digits-HasNoSpace : (s : Bytes) → AreDigits s → HasNoSpace s
digits-HasNoSpace [] h = tt
digits-HasNoSpace (c ∷ s) h = (ground (arith, h.0), digits-HasNoSpace s h.1)

pub to_string-HasNoSpace : (n : ℕ) → HasNoSpace (to_string n)
to_string-HasNoSpace n = digits-HasNoSpace (to_string n) (to_string-AreDigits n)

split_word-append :
    (w s : Bytes) → HasNoSpace w → starts_blank s ≡ true → split_word (w ++ s) ≡ (w, s)
unfolding split_word
split_word-append [] [] h k = refl
split_word-append [] (c ∷ s) h k = ground (arith, k)
split_word-append (c ∷ w) s h k = ground (arith, h.0, split_word-append w s h.1 k)

trim_start-word : (w s : Bytes) → IsWord w → trim_start (w ++ s) ≡ w ++ s
unfolding trim_start
trim_start-word [] s h = elim h [ ]
trim_start-word (c ∷ w) s h = ground (arith, h.0)

IsWord-plain : (w : Bytes) → IsWord w → HasNoSpace w
IsWord-plain [] h = elim h [ ]
IsWord-plain (c ∷ w) h = h

pub next_word-append :
    (w s : Bytes) → IsWord w → starts_blank s ≡ true → next_word (w ++ s) ≡ (w, s)
unfolding next_word
next_word-append w s h k =
    ap split_word (trim_start-word w s h) ∙ split_word-append w s (IsWord-plain w h) k

-- A space in front of the word is passed over.
pub next_word-space :
    (c : ℕ) (w s : Bytes)
    → is_space c ≡ true
    → IsWord w
    → starts_blank s ≡ true
    → next_word (c ∷ (w ++ s)) ≡ (w, s)
unfolding next_word trim_start
next_word-space c w s b h k =
    ground (arith, b, trim_start-word w s h, split_word-append w s (IsWord-plain w h) k)

pub starts_with-append : (p s : Bytes) → starts_with p (p ++ s) ≡ true
starts_with-append [] s = refl
starts_with-append (c ∷ p) s = ground (arith, starts_with-append p s)

pub starts_with-drop : (p s : Bytes) → starts_with p s ≡ true → p ++ drop (length p) s ≡ s
starts_with-drop [] s h = refl
starts_with-drop (c ∷ p) [] h = cc
starts_with-drop (c ∷ p) (d ∷ s) h = ground (arith, starts_with-drop p s)

pub drop-length-append : (p s : Bytes) → drop (length p) (p ++ s) ≡ s
drop-length-append [] s = refl
drop-length-append (c ∷ p) s = drop-length-append p s

-- The text around the first `c`.
pub find_first-split :
    (c : ℕ) (s : Bytes) (i : ℕ) → find_first c s ≡ some i → take i s ++ (c ∷ drop (i + 1) s) ≡ s
unfolding find_first
find_first-split c [] i h = cc
find_first-split c (d ∷ s) zero h = ground (arith, h)
find_first-split c (d ∷ s) (suc i) h = ground (arith, h, find_first-split c s i)
