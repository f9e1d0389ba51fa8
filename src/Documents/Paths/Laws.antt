-- ===== src/Documents/Paths/Laws.antt =====
-- What a normalised path looks like.
use cyber_range.Common.{
  ℕ, Bool, true, false, List, [], ◌∷◌, ◌++◌, ◌==◌, ◌&&◌, not, ◌≡◌, ◌≢◌, ◌↔◌, inl, inr, refl, sym,
  ◌∙◌, arith, All, Bool-cases,
}
use cyber_range.Documents.Paths.{
  Text, text_eq, slash, dot, dotdot, cons_head, split_slash, join_slash, partition, norm_step,
  norm_loop, rev_onto, is_absolute, rest_of, normpath, or_dot, components,
}

pub text_eq_iff : (s t : Text) → (text_eq s t ≡ true) ↔ (s ≡ t)
unfolding text_eq
text_eq_iff [] [] = ground arith
text_eq_iff [] (b ∷ t) = ground arith
text_eq_iff (a ∷ s) [] = ground arith
text_eq_iff (a ∷ s) (b ∷ t) = ground (arith, text_eq_iff s t)

abbrev pub NoSlash : Text → Type 0
NoSlash [] = Unit
NoSlash (c ∷ s) = (c ≢ slash) × NoSlash s

-- A component that names an entry of the folder it is joined to, or "..".
abbrev pub IsComponent : Text → Type 0
IsComponent c = NoSlash c × (c ≢ []) × (c ≢ dot)

-- A component that names an entry of the folder it is joined to.
abbrev pub IsPlain : Text → Type 0
IsPlain c = NoSlash c × (c ≢ []) × (c ≢ dot) × (c ≢ dotdot)

cons_head-NoSlash :
    (c : ℕ) (ps : List Text) → c ≢ slash → All NoSlash ps → All NoSlash (cons_head c ps)
cons_head-NoSlash c [] n h = ((n, tt), tt)
cons_head-NoSlash c (p ∷ ps) n h = ((n, h.0), h.1)

pub split_slash-NoSlash : (s : Text) → All NoSlash (split_slash s)
unfolding split_slash
split_slash-NoSlash [] = (tt, tt)
split_slash-NoSlash (c ∷ s) = elim (Bool-cases (c == slash)) [
  | inl at ↦ rw at (tt, split_slash-NoSlash s)
  | inr off ↦ rw off (cons_head-NoSlash c (split_slash s) (ground arith) (split_slash-NoSlash s))
]

-- The stack of `norm_loop`: components, with ".." only at the bottom.
abbrev pub IsStack : List Text → Type 0
IsStack [] = Unit
IsStack (c ∷ st) = IsComponent c × (c ≡ dotdot → All (λ d. d ≡ dotdot) st) × IsStack st

norm_step-IsStack :
    (absolute : Bool) (st : List Text) (c : Text)
    → NoSlash c
    → IsStack st
    → IsStack (norm_step absolute st c)
unfolding norm_step
norm_step-IsStack absolute [] c n h = ground (arith, text_eq_iff c dot, text_eq_iff c dotdot)
norm_step-IsStack absolute (d ∷ st) c n h =
    ground (arith, text_eq_iff c dot, text_eq_iff c dotdot, text_eq_iff d dotdot)

pub norm_loop-IsStack :
    (absolute : Bool) (st cs : List Text)
    → All NoSlash cs
    → IsStack st
    → IsStack (norm_loop absolute st cs)
unfolding norm_loop
norm_loop-IsStack absolute st [] n h = h
norm_loop-IsStack absolute st (c ∷ cs) n h =
    norm_loop-IsStack absolute (norm_step absolute st c) cs n.1
      (norm_step-IsStack absolute st c n.0 h)

-- If the first component of the reversed stack is not "..", none is.
pub first-ne-dotdot :
    (st acc : List Text) (f : Text) (rest : List Text)
    → IsStack st
    → rev_onto st acc ≡ f ∷ rest
    → f ≢ dotdot
    → All IsPlain st
unfolding rev_onto
first-ne-dotdot [] acc f rest h e ne = tt
first-ne-dotdot (c ∷ []) acc f rest h e ne =
    let same : c ≡ f = cc in ((h.0.0, h.0.1, h.0.2, (λ q. ne (sym same ∙ q))), tt)
first-ne-dotdot (c ∷ d ∷ st) acc f rest h e ne =
    let ih = first-ne-dotdot (d ∷ st) (c ∷ acc) f rest h.2 e ne in
    ((h.0.0, h.0.1, h.0.2, (λ q. ih.0.3 (h.1 q).0)), ih)

pub All-rev_onto {ℓ κ} :
    {A : Type ℓ} (P : A → Type κ) (xs acc : List A) → All P xs → All P acc → All P (rev_onto xs acc)
unfolding rev_onto
All-rev_onto P [] acc h k = k
All-rev_onto P (x ∷ xs) acc h k = All-rev_onto P xs (x ∷ acc) h.1 (h.0, k)

-- Partition undoes a join at the first component.
pub partition-append : (p s : Text) → NoSlash p → partition (p ++ slash ∷ s) ≡ (p, s)
unfolding partition
partition-append [] s n = refl
partition-append (c ∷ p) s n = ground (arith, partition-append p s n.1)

pub partition-NoSlash : (p : Text) → NoSlash p → partition p ≡ (p, [])
unfolding partition
partition-NoSlash [] n = refl
partition-NoSlash (c ∷ p) n = ground (arith, partition-NoSlash p n.1)

-- A relative path is normalised to the join of its remaining components, or to ".".
pub normpath-relative :
    (path : Text) → is_absolute path ≡ false → normpath path ≡ or_dot (join_slash (components path))
unfolding normpath
normpath-relative path h = rw h

-- An absolute path stays absolute.
pub normpath-absolute :
    (path : Text) → is_absolute path ≡ true → (rest : Text) × (normpath path ≡ slash ∷ rest)
unfolding normpath
normpath-absolute path h =
    elim (Bool-cases (is_absolute (rest_of path) && not (is_absolute (rest_of (rest_of path))))) [
      | inl two ↦ (slash ∷ join_slash (components path), rw (h, two))
      | inr one ↦ (join_slash (components path), rw (h, one))
    ]
