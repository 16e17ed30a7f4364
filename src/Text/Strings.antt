-- ===== src/Text/Strings.antt =====
-- Strings in buffers: what stands in front of the first NUL.
use waitlock.Base.{
  ℕ, suc, ◌-◌, ◌≤◌, ◌<◌, ◌≡◌, refl, List, [], ◌∷◌, ◌++◌, length, take_all, replicate, ◌==◌,
  Bool-cases, inl, inr, arith,
}
use waitlock.Text.{Str, c_string, store_string}
use waitlock.Text.Laws.{Lacks}

pub c_string-Lacks_nul : (s : List ℕ) → Lacks 0 (c_string s)
unfolding c_string
c_string-Lacks_nul [] = tt
c_string-Lacks_nul (c ∷ s) = elim (Bool-cases (c == 0)) [
  | inl nul ↦ rw nul tt
  | inr other ↦ rw other (other, c_string-Lacks_nul s)
]

pub length-c_string : (s : List ℕ) → length (c_string s) ≤ length s
unfolding c_string length
length-c_string [] = omega arith
length-c_string (c ∷ s) = ground (arith, length-c_string s)

pub c_string-Lacks : (s : Str) → Lacks 0 s → c_string s ≡ s
unfolding c_string
c_string-Lacks [] l = refl
c_string-Lacks (c ∷ s) l = rw (l.0, c_string-Lacks s l.1) refl

c_string-append : (s rest : List ℕ) → Lacks 0 s → c_string (s ++ 0 ∷ rest) ≡ s
unfolding c_string
c_string-append [] rest l = refl
c_string-append (c ∷ s) rest l = rw (l.0, c_string-append s rest l.1) refl

-- A text without a NUL that is shorter than its array is read back as it was stored.
pub c_string-store_string :
    (size : ℕ) (s : Str) → Lacks 0 s → length s < size → c_string (store_string size s) ≡ s
unfolding store_string
c_string-store_string size s l h =
    let room : size - length s ≡ suc (size - length s - 1) = omega arith in
    rw (take_all (size - 1) s (omega arith), room) (stored s (size - length s - 1) l)
  where
    stored : (s : Str) (n : ℕ) → Lacks 0 s → c_string (s ++ replicate (suc n) 0) ≡ s
    stored s n l = unfold replicate in c_string-append s (replicate n 0) l
