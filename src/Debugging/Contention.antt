-- ===== src/Debugging/Contention.antt =====
-- What the tests of many holders find.
use waitlock.Base.{
  ℕ, zero, suc, ◌+◌, ◌<◌, ◌≡◌, refl, sym, ◌∙◌, Bool, true, false, ◌||◌, [], ◌∷◌, ◌++◌, codes, some,
  ◌==◌, take, All-append, Bool-cases, inl, inr, arith,
}
use waitlock.Base.Int.{ℤ, pos}
use waitlock.Debugging.Reports.{Contest, semaphore, mutex, status_msg}
use waitlock.Debugging.{is_success}
use waitlock.Globals.{GlobalState, e_success}
use waitlock.Text.{Str, c_string, contains, starts_with, truncate}
use waitlock.Text.Decimal.{print_nat, print_int}
use waitlock.Text.Digits.{print_int-Lacks}
use waitlock.Text.Laws.{Lacks}

-- Whether a character occurs.
has : ℕ → Str → Bool
has c [] = false
has c (d ∷ s) = d == c || has c s

has-Lacks : (c : ℕ) (s : Str) → has c s ≡ false → Lacks c s
unfolding has
has-Lacks c [] h = tt
has-Lacks c (d ∷ s) h = (ground arith, has-Lacks c s (ground arith))

-- A text without a character of the pattern does not contain the pattern.
starts_with-Lacks : (c : ℕ) (p s : Str) → has c p ≡ true → Lacks c s → starts_with p s ≡ false
unfolding has starts_with
starts_with-Lacks c [] s h l = cc
starts_with-Lacks c (d ∷ p) [] h l = refl
starts_with-Lacks c (d ∷ p) (e ∷ s) h l = elim (Bool-cases (d == c)) [
  | inl same ↦ let other = l.0 in ground arith
  | inr other ↦ let rest = starts_with-Lacks c p s (ground arith) l.1 in ground arith
]

contains-Lacks : (c : ℕ) (p s : Str) → has c p ≡ true → Lacks c s → contains p s ≡ false
unfolding contains
contains-Lacks c p [] h l = starts_with-Lacks c p [] h l
contains-Lacks c p (e ∷ s) h l = rw (starts_with-Lacks c p (e ∷ s) h l) (contains-Lacks c p s h l.1)

take-Lacks : (c n : ℕ) (s : Str) → Lacks c s → Lacks c (take n s)
unfolding take
take-Lacks c zero s l = tt
take-Lacks c (suc n) [] l = tt
take-Lacks c (suc n) (d ∷ s) l = (l.0, take-Lacks c n s l.1)

c_string-keeps_Lacks : (c : ℕ) (s : Str) → Lacks c s → Lacks c (c_string s)
unfolding c_string
c_string-keeps_Lacks c [] l = tt
c_string-keeps_Lacks c (d ∷ s) l = elim (Bool-cases (d == 0)) [
  | inl end ↦ rw end tt
  | inr more ↦ rw more (l.0, c_string-keeps_Lacks c s l.1)
]

-- The texts of a loss have no such character, and neither have the digits.
record IsApart (k : Contest) (c : ℕ) : Type 0 where
  won : has c k.won ≡ true
  lost : has c k.lost ≡ false
  pid : has c (codes "PID=") ≡ false
  result : has c (codes ":RESULT=") ≡ false
  time : has c (codes ":TIME=") ≡ false
  end : has c (codes "s") ≡ false
  minus : (b'-' == c) ≡ false
  digit : (d : ℕ) → d < 10 → ((b'0' + d) == c) ≡ false

mutex-IsApart : IsApart mutex b'B'
unfolding has
mutex-IsApart = record {
  won = refl;
  lost = refl;
  pid = refl;
  result = refl;
  time = refl;
  end = refl;
  minus = refl;
  digit = λ d h. ground arith;
}

semaphore-IsApart : IsApart semaphore b'C'
unfolding has
semaphore-IsApart = record {
  won = refl;
  lost = refl;
  pid = refl;
  result = refl;
  time = refl;
  end = refl;
  minus = refl;
  digit = λ d h. ground arith;
}

append-Lacks : (c : ℕ) (s t : Str) → Lacks c s → Lacks c t → Lacks c (s ++ t)
append-Lacks c s t hs ht = All-append (λ d. (d == c) ≡ false) s t hs ht

lost-Lacks :
    (k : Contest) (c : ℕ) (pid : ℤ) (elapsed : Str) (code : ℕ)
    → IsApart k c
    → Lacks c elapsed
    → Lacks c (
        k.lost
        ++ (codes "PID="
            ++ (print_int pid
                ++ (codes ":RESULT="
                    ++ (print_nat code ++ (codes ":TIME=" ++ (elapsed ++ codes "s")))))))
unfolding print_int
lost-Lacks k c pid elapsed code is free = append-Lacks c k.lost _ (has-Lacks c _ is.lost) (
    append-Lacks c (codes "PID=") _ (has-Lacks c _ is.pid) (
      append-Lacks c (print_int pid) _ (print_int-Lacks c pid is.minus is.digit) (
        append-Lacks c (codes ":RESULT=") _ (has-Lacks c _ is.result) (
          append-Lacks c (print_nat code) _ (print_int-Lacks c (pos code) is.minus is.digit) (
            append-Lacks c (codes ":TIME=") _ (has-Lacks c _ is.time)
              (append-Lacks c elapsed _ free (has-Lacks c _ is.end)))))))

is_success-Lacks :
    (k : Contest) (c : ℕ) (m : Str) → has c k.won ≡ true → Lacks c m → is_success k (some m) ≡ false
unfolding is_success
is_success-Lacks k c [] h l = refl
is_success-Lacks k c (d ∷ m) h l =
    contains-Lacks c k.won (c_string (d ∷ m)) h (c_string-keeps_Lacks c (d ∷ m) l)

lost-is_success :
    (k : Contest) (c : ℕ) (pid : ℤ) (elapsed : Str) (code : ℕ) (g : GlobalState)
    → IsApart k c
    → Lacks c elapsed
    → (code == e_success) ≡ false
    → is_success k (some (status_msg k pid elapsed code g)) ≡ false
unfolding status_msg truncate
lost-is_success k c pid elapsed code g is free lost =
    is_success-Lacks k c _ is.won
      (rw lost (take-Lacks c 511 _ (lost-Lacks k c pid elapsed code is free)))

won-semaphore :
    (pid : ℤ) (elapsed : Str) (code : ℕ) (g : GlobalState)
    → (code == e_success) ≡ true
    → is_success semaphore (some (status_msg semaphore pid elapsed code g)) ≡ true
unfolding is_success status_msg truncate take c_string contains starts_with
won-semaphore pid elapsed code g won = rw won refl

won-mutex :
    (pid : ℤ) (elapsed : Str) (code : ℕ) (g : GlobalState)
    → (code == e_success) ≡ true
    → is_success mutex (some (status_msg mutex pid elapsed code g)) ≡ true
unfolding is_success status_msg truncate take c_string contains starts_with
won-mutex pid elapsed code g won = rw won refl

-- The two tests.
pub data IsTest : Contest → Type 0 where
  of_semaphore : IsTest semaphore
  of_mutex : IsTest mutex

-- In both tests, and if the text of the time has none of the letters B and C, the parent counts the
-- message of a child exactly if the `acquire_lock` of the child returned success.
pub is_success-status_msg :
    {k : Contest} (pid : ℤ) (elapsed : Str) (code : ℕ) (g : GlobalState)
    → IsTest k
    → Lacks b'B' elapsed
    → Lacks b'C' elapsed
    → is_success k (some (status_msg k pid elapsed code g)) ≡ (code == e_success)
is_success-status_msg pid elapsed code g of_semaphore no_b no_c =
    elim (Bool-cases (code == e_success)) [
      | inl won ↦ won-semaphore pid elapsed code g won ∙ sym won
      | inr lost ↦
          lost-is_success semaphore b'C' pid elapsed code g semaphore-IsApart no_c lost ∙ sym lost
    ]
is_success-status_msg pid elapsed code g of_mutex no_b no_c =
    elim (Bool-cases (code == e_success)) [
      | inl won ↦ won-mutex pid elapsed code g won ∙ sym won
      | inr lost ↦ lost-is_success mutex b'B' pid elapsed code g mutex-IsApart no_b lost ∙ sym lost
    ]
