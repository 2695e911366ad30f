-- ===== src/GitDeletions/ParentDirs.antt =====
-- The fuel of the loop that collects parent directories is never used up.
use sagedockhand.Common.{
  Bool-cases, Option-cases, length, length-append, length-take, ℕ, zero, suc, ◌<◌, ◌≡◌, refl, inl,
  inr, true, none, some, [], ◌∷◌, ◌++◌, arith,
}
use sagedockhand.Common.Text.{Text, starts_with, last_index_of, length-starts_with}
use sagedockhand.GitDeletions.Apply.{is_below, dirname, parent_dirs}

last_index_of-lt : (c : ℕ) (p : Text) (i : ℕ) → last_index_of c p ≡ some i → i < length p
last_index_of-lt c [] i h = absurd (ground (arith, h))
last_index_of-lt c (d ∷ p) i h = elim (Option-cases (last_index_of c p)) [
  | inl lacks ↦ ground (arith, h, lacks)
  | inr (j, found) ↦ ground (arith, h, found, last_index_of-lt c p j found)
]

last_index_of-starts_with :
    (c : ℕ) (s t : Text) → starts_with s (t ++ c ∷ []) ≡ true → ¬ (last_index_of c s ≡ none)
last_index_of-starts_with c [] [] h e = absurd (ground (arith, h))
last_index_of-starts_with c [] (d ∷ t) h e = absurd (ground (arith, h))
last_index_of-starts_with c (d ∷ s) [] h e = absurd (ground (arith, h, e))
last_index_of-starts_with c (d ∷ s) (b ∷ t) h e =
    absurd (ground (arith, h, e, last_index_of-starts_with c s t))

-- Going up from a directory below a root, which is not the empty text, makes the path shorter.
length-dirname :
    (root dir : Text)
    → 0 < length root
    → is_below root dir ≡ true
    → length (dirname dir) < length dir
unfolding dirname
length-dirname root dir h below =
    let long = length-starts_with dir (root ++ b'/' ∷ []) below in
    let more = length-append root (b'/' ∷ []) in
    elim (Option-cases (last_index_of b'/' dir)) [
      | inl lacks ↦ absurd (last_index_of-starts_with b'/' dir root below lacks)
      | inr (i, found) ↦
          let lt = last_index_of-lt b'/' dir i found in
          ground (arith, found, lt, long, more, h, length-take i dir)
    ]

-- With more fuel than the path has code units, as the applier gives, the loop has the result that it has
-- with any other such amount: it ends by its own test, for a root that is not the empty text.
pub parent_dirs-fuel :
    (root : Text) (f g : ℕ) (dir : Text)
    → 0 < length root
    → length dir < f
    → length dir < g
    → parent_dirs f root dir ≡ parent_dirs g root dir
unfolding parent_dirs
parent_dirs-fuel root zero g dir h hf hg = absurd (omega arith)
parent_dirs-fuel root (suc f) zero dir h hf hg = absurd (omega arith)
parent_dirs-fuel root (suc f) (suc g) dir h hf hg = elim (Bool-cases (is_below root dir)) [
  | inl below ↦
      let shorter = length-dirname root dir h below in
      rw
        (parent_dirs-fuel root f g (dirname dir) h (omega (arith, shorter))
          (omega (arith, shorter)))
        refl
  | inr apart ↦ ground (arith, apart)
]
