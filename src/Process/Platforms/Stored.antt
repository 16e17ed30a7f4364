-- ===== src/Process/Platforms/Stored.antt =====
-- The command line that `get_process_cmdline` gives fits the array of `struct lock_info`.
use waitlock.Base.{
  ℕ, zero, suc, ◌-◌, ◌≤◌, ◌<◌, ◌≡◌, refl, ap, ◌∙◌, sym, List, [], ◌∷◌, none, some, some_eq, length,
  take, ◌==◌, length-take-le, arith, Bool-cases, inl, inr,
}
use waitlock.LockFile.{fgets, strip_newline}
use waitlock.LockInfo.{max_cmdline}
use waitlock.Lock.Claim.{Host, prepare_info}
use waitlock.Process.Cmdline.{get_process_cmdline, cmdline_of, replace_nulls}
use waitlock.Process.Platforms.{
  Platform, linux, bsd, other, platform_cmdline, sysctl_cmdline, ps_cmdline, ps_line,
}
use waitlock.Text.Laws.{Lacks}
use waitlock.Text.Strings.{c_string-Lacks_nul, length-c_string, c_string-store_string}
use waitlock.Text.{Str, c_string}

-- A text that the array holds.
record Fits (s : Str) : Type 0 where
  no_nul : Lacks 0 s
  short : length s < max_cmdline

length-replace_nulls : (s : List ℕ) → length (replace_nulls s) ≡ length s
unfolding length replace_nulls
length-replace_nulls [] = refl
length-replace_nulls (c ∷ []) = refl
length-replace_nulls (c ∷ (d ∷ s)) = ap suc (length-replace_nulls (d ∷ s))

length-fgets : (n : ℕ) (s : List ℕ) → length (fgets n s).0 ≤ n
unfolding length fgets
length-fgets zero s = omega arith
length-fgets (suc n) [] = omega arith
length-fgets (suc n) (c ∷ s) = ground (arith, length-fgets n s)

length-strip_newline : (s : Str) → length (strip_newline s) ≤ length s
unfolding length strip_newline
length-strip_newline [] = omega arith
length-strip_newline (c ∷ []) = ground arith
length-strip_newline (c ∷ (d ∷ s)) = omega (arith, length-strip_newline (d ∷ s))

strip_newline-Lacks : (s : Str) → Lacks 0 s → Lacks 0 (strip_newline s)
unfolding strip_newline
strip_newline-Lacks [] l = tt
strip_newline-Lacks (c ∷ []) l = elim (Bool-cases (c == b'\n')) [
  | inl newline ↦ rw newline tt
  | inr text ↦ rw text l
]
strip_newline-Lacks (c ∷ (d ∷ s)) l = (l.0, strip_newline-Lacks (d ∷ s) l.1)

c_string-Fits : (s : List ℕ) → length s ≤ max_cmdline - 1 → Fits (c_string s)
c_string-Fits s h = record {
  no_nul = c_string-Lacks_nul s;
  short = omega (arith, length-c_string s);
}

cmdline_of-Fits :
    (s : List ℕ) (text : Str) → length s ≤ max_cmdline - 1 → cmdline_of s ≡ some text → Fits text
unfolding cmdline_of
cmdline_of-Fits [] text h e = absurd (ground arith)
cmdline_of-Fits (c ∷ s) text h e =
    rw (sym (some_eq e))
      (c_string-Fits (replace_nulls (c ∷ s)) (omega (arith, length-replace_nulls (c ∷ s))))

ps_line-Fits : (s : List ℕ) (text : Str) → ps_line s ≡ some text → Fits text
unfolding ps_line
ps_line-Fits [] text e = absurd (ground arith)
ps_line-Fits (c ∷ s) text e =
    let line = (fgets (max_cmdline - 1) (c ∷ s)).0 in
    rw (sym (some_eq e)) (record {
      no_nul = strip_newline-Lacks (c_string line) (c_string-Lacks_nul line);
      short = omega (
        arith,
        length-strip_newline (c_string line),
        length-c_string line,
        length-fgets (max_cmdline - 1) (c ∷ s),
      );
    })

platform_cmdline-Fits : (p : Platform) (text : Str) → platform_cmdline p ≡ some text → Fits text
unfolding platform_cmdline get_process_cmdline sysctl_cmdline ps_cmdline
platform_cmdline-Fits (linux none) text e = absurd (ground arith)
platform_cmdline-Fits (linux (some s)) text e =
    cmdline_of-Fits (take (max_cmdline - 1) s) text (length-take-le (max_cmdline - 1) s) e
platform_cmdline-Fits (bsd none) text e = absurd (ground arith)
platform_cmdline-Fits (bsd (some s)) text e = rw (sym (some_eq e)) (
    c_string-Fits (take (max_cmdline - 1) (c_string s))
      (length-take-le (max_cmdline - 1) (c_string s)))
platform_cmdline-Fits (other none) text e = absurd (ground arith)
platform_cmdline-Fits (other (some s)) text e = ps_line-Fits s text e

-- On every platform the command line that `get_process_cmdline` gives for the process is what the
-- struct of its lock holds as a string: the array is large enough, and nothing of it is lost.
pub prepare_info-cmdline :
    (host : Host) (p : Platform) (d : Str) (max_holders : ℕ) (text : Str)
    → host.cmdline ≡ platform_cmdline p
    → platform_cmdline p ≡ some text
    → c_string (prepare_info host d max_holders).cmdline ≡ text
unfolding prepare_info
prepare_info-cmdline host p d max_holders text h e =
    let fits = platform_cmdline-Fits p text e in
    rw (h ∙ e) (c_string-store_string max_cmdline text fits.no_nul fits.short)
