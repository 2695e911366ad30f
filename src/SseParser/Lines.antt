-- ===== src/SseParser/Lines.antt =====
-- Splitting a text that grows at its end.
use sagedockhand.Common.{
  nat_beq, Bool-cases, ℕ, ◌≡◌, refl, sym, ap, ◌∙◌, inl, inr, false, List, [], ◌∷◌, ◌++◌, arith,
}
use sagedockhand.Common.Text.{Text, glue, split}
use sagedockhand.SseParser.Parser.{pop}

-- The lines before the last one, and the last one.
pop_cons :
    (line : Text) (lines : List Text)
    → ¬ (lines ≡ [])
    → pop (line ∷ lines) ≡ (line ∷ (pop lines).0, (pop lines).1)
pop_cons line [] h = absurd (h refl)
pop_cons line (next ∷ lines) h = refl

glue-nonempty : (d : ℕ) (parts : List Text) → ¬ (glue d parts ≡ [])
glue-nonempty d [] h = ground (arith, h)
glue-nonempty d (part ∷ parts) h = ground (arith, h)

pub split-nonempty : (c : ℕ) (s : Text) → ¬ (split c s ≡ [])
unfolding split
split-nonempty c [] h = ground (arith, h)
split-nonempty c (d ∷ s) h = elim (Bool-cases (nat_beq d c)) [
  | inl here ↦ ground (arith, h, here)
  | inr apart ↦ glue-nonempty d (split c s) (rw apart at h)
]

-- A code unit in front of the first line, when there is a line.
glue-pop :
    (d : ℕ) (parts : List Text) (more : Text → List Text)
    → ¬ (parts ≡ [])
    → ((t : Text) → more (d ∷ t) ≡ glue d (more t))
    → glue d ((pop parts).0 ++ more (pop parts).1)
      ≡ (pop (glue d parts)).0 ++ more (pop (glue d parts)).1
glue-pop d [] more h e = absurd (h refl)
glue-pop d (part ∷ []) more h e = sym (e part)
glue-pop d (part ∷ next ∷ parts) more h e = refl

-- The lines of a longer text: the complete lines stay, and what is added continues the last one.
pub split-append :
    (c : ℕ) (s t : Text)
    → split c (s ++ t) ≡ (pop (split c s)).0 ++ split c ((pop (split c s)).1 ++ t)
unfolding split
split-append c [] t = refl
split-append c (d ∷ s) t = elim (Bool-cases (nat_beq d c)) [
  | inl here ↦ rw (here, split-append c s t, pop_cons [] (split c s) (split-nonempty c s)) refl
  | inr apart ↦
      rw (apart, split-append c s t)
        (glue-pop d (split c s) (λ u. split c (u ++ t)) (split-nonempty c s) (λ u. rw apart refl))
]

append-nonempty : (front lines : List Text) → ¬ (lines ≡ []) → ¬ (front ++ lines ≡ [])
append-nonempty [] lines h = h
append-nonempty (line ∷ front) lines h = λ e. ground (arith, e)

pub pop-append :
    (front lines : List Text)
    → ¬ (lines ≡ [])
    → pop (front ++ lines) ≡ (front ++ (pop lines).0, (pop lines).1)
pop-append [] lines h = refl
pop-append (line ∷ front) lines h =
    pop_cons line (front ++ lines) (append-nonempty front lines h)
    ∙ ap (λ (q : List Text × Text). (line ∷ q.0, q.1)) (pop-append front lines h)

glue-last :
    (c d : ℕ) (parts : List Text)
    → nat_beq d c ≡ false
    → ¬ (parts ≡ [])
    → split c (pop parts).1 ≡ (pop parts).1 ∷ []
    → split c (pop (glue d parts)).1 ≡ (pop (glue d parts)).1 ∷ []
unfolding split
glue-last c d [] apart h e = absurd (h refl)
glue-last c d (part ∷ []) apart h e = rw (apart, e) refl
glue-last c d (part ∷ next ∷ parts) apart h e = e

-- The last line is one line.
pub split-last : (c : ℕ) (s : Text) → split c (pop (split c s)).1 ≡ (pop (split c s)).1 ∷ []
unfolding split
split-last c [] = refl
split-last c (d ∷ s) = elim (Bool-cases (nat_beq d c)) [
  | inl here ↦ rw (here, pop_cons [] (split c s) (split-nonempty c s)) (split-last c s)
  | inr apart ↦ rw apart (glue-last c d (split c s) apart (split-nonempty c s) (split-last c s))
]
