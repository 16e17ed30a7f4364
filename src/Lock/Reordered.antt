-- ===== src/Lock/Reordered.antt =====
-- What does not depend on the order in which `readdir` gives the entries of the lock directory.
use waitlock.Base.{◌≡◌, refl, ◌∙◌, Bool, true, false, ◌∷◌, arith, if◌then◌else◌}
use mathlib.Core.List.{Permᴰ}
use mathlib.Core.List.Permᴰ
use mathlib.Core.Quot.{Quot}
use waitlock.Directory.{Dir, lookup, exists_in}
use waitlock.Lock.Scanning.{count_if, keep_if}
use waitlock.LockFile.{File}
use waitlock.Text.{Str}

-- The entries in any order.
abbrev pub Entries : Type 0
Entries = Quot (λ (x y : Dir). Permᴰ x y)

pub count_if-Perm : (p : Str × File → Bool) {x y : Dir} → Permᴰ x y → count_if p x ≡ count_if p y
unfolding count_if
count_if-Perm p Permᴰ.nil = refl
count_if-Perm p (Permᴰ.cons e d) = rw (e, count_if-Perm p d) refl
count_if-Perm p (Permᴰ.swap e f) = rw (e, f) (ground arith)
count_if-Perm p (Permᴰ.trans d d') = count_if-Perm p d ∙ count_if-Perm p d'

cons_if-Perm :
    (c : Bool) (a : Str × File) {x y : Dir}
    → Permᴰ x y
    → Permᴰ (if c then a ∷ x else x) (if c then a ∷ y else y)
cons_if-Perm true a d = Permᴰ.cons refl d
cons_if-Perm false a d = d

swap_if-Perm :
    (c c' : Bool) (a b : Str × File) (x : Dir)
    → Permᴰ
        (if c then a ∷ (if c' then b ∷ x else x) else (if c' then b ∷ x else x))
        (if c' then b ∷ (if c then a ∷ x else x) else (if c then a ∷ x else x))
swap_if-Perm true true a b x = Permᴰ.swap refl refl
swap_if-Perm true false a b x = Permᴰ.refl (a ∷ x)
swap_if-Perm false true a b x = Permᴰ.refl (b ∷ x)
swap_if-Perm false false a b x = Permᴰ.refl x

pub keep_if-Perm :
    (p : Str × File → Bool) {x y : Dir} → Permᴰ x y → Permᴰ (keep_if p x) (keep_if p y)
unfolding keep_if
keep_if-Perm p Permᴰ.nil = Permᴰ.nil
keep_if-Perm p (Permᴰ.cons {b = b} e d) = rw e (cons_if-Perm (p b) b (keep_if-Perm p d))
keep_if-Perm p (Permᴰ.swap {a' = a'} {b' = b'} {l = l} e f) =
    rw (e, f) (swap_if-Perm (p b') (p a') b' a' (keep_if p l))
keep_if-Perm p (Permᴰ.trans d d') = Permᴰ.trans (keep_if-Perm p d) (keep_if-Perm p d')

pub exists_in-Perm : (name : Str) {x y : Dir} → Permᴰ x y → exists_in name x ≡ exists_in name y
unfolding lookup
exists_in-Perm name Permᴰ.nil = refl
exists_in-Perm name (Permᴰ.cons e d) = let rest = exists_in-Perm name d in rw e (ground arith)
exists_in-Perm name (Permᴰ.swap e f) = rw (e, f) (ground arith)
exists_in-Perm name (Permᴰ.trans d d') = exists_in-Perm name d ∙ exists_in-Perm name d'
