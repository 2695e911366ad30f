-- ===== src/DnsDispatcher/WaitLaws.antt =====
-- `lookupWithCache`: what one caller asked, was answered and waits for, as counts.
use sagedockhand.Common.{
  if◌then◌else◌, Bool-cases, ◌==◌, eq_iff, nat_eq, text_eq, ℕ, suc, ◌+◌, ◌≡◌, refl, sym, ap, ◌∙◌,
  inl, inr, Option, none, some, List, [], ◌∷◌, ◌++◌, arith,
}
use sagedockhand.Common.Text.{Text}
use sagedockhand.Common.JsMap.{JsMap, get, put, remove, IsDistinct, remove_absent}
use sagedockhand.DnsDispatcher.{Answer, Effect, settle_all, Event, started, settled, asks, answers}

unfoldable pub settlements : ℕ → List Effect → ℕ
settlements caller [] = 0
settlements caller (started name ∷ effects) = settlements caller effects
settlements caller (settled own name answer ∷ effects) =
    let rest = settlements caller effects in if own == caller then suc rest else rest

unfoldable pub asked : ℕ → List Event → ℕ
asked caller [] = 0
asked caller (asks own name now ∷ events) =
    let rest = asked caller events in if own == caller then suc rest else rest
asked caller (answers name answer now ∷ events) = asked caller events

abbrev pub times_in : ℕ → List ℕ → ℕ
times_in caller [] = 0
times_in caller (own ∷ callers) =
    let rest = times_in caller callers in if own == caller then suc rest else rest

-- How many promises that are in flight a caller waits for.
unfoldable pub waits : ℕ → JsMap Text (List ℕ) → ℕ
waits caller [] = 0
waits caller ((name, callers) ∷ m) = times_in caller callers + waits caller m

abbrev waits_at : ℕ → Option (List ℕ) → ℕ
waits_at caller none = 0
waits_at caller (some callers) = times_in caller callers

pub times_in-append :
    (caller : ℕ) (xs ys : List ℕ)
    → times_in caller (xs ++ ys) ≡ times_in caller xs + times_in caller ys
times_in-append caller [] ys = omega arith
times_in-append caller (x ∷ xs) ys = ground (arith, times_in-append caller xs ys)

pub waits-put :
    (caller : ℕ) (name : Text) (callers : List ℕ) (m : JsMap Text (List ℕ))
    → waits caller (put name callers m) + waits_at caller (get name m)
      ≡ waits caller m + times_in caller callers
unfolding waits get put
waits-put caller name callers [] = omega arith
waits-put caller name callers ((own, others) ∷ m) = ground (arith, waits-put caller name callers m)

waits-remove_absent :
    (caller : ℕ) (name : Text) (m : JsMap Text (List ℕ))
    → get name m ≡ none
    → waits caller (remove name m) ≡ waits caller m
waits-remove_absent caller name m h = ap (waits caller) (remove_absent name m h)

pub waits-remove :
    (caller : ℕ) (name : Text) (m : JsMap Text (List ℕ))
    → IsDistinct m
    → waits caller (remove name m) + waits_at caller (get name m) ≡ waits caller m
unfolding waits get remove
waits-remove caller name [] d = omega arith
waits-remove caller name ((own, others) ∷ m) (fresh, d) = elim (Bool-cases (own == name)) [
  | inl same ↦
      let gone : get name m ≡ none = ap (λ k. get k m) (sym ((eq_iff own name).0 same)) ∙ fresh in
      ground (arith, same, waits-remove_absent caller name m gone)
  | inr different ↦ ground (arith, different, waits-remove caller name m d)
]

pub settlements-append :
    (caller : ℕ) (xs ys : List Effect)
    → settlements caller (xs ++ ys) ≡ settlements caller xs + settlements caller ys
unfolding settlements
settlements-append caller [] ys = omega arith
settlements-append caller (started name ∷ xs) ys = settlements-append caller xs ys
settlements-append caller (settled own name answer ∷ xs) ys =
    ground (arith, settlements-append caller xs ys)

pub settlements-settle_all :
    (caller : ℕ) (name : Text) (answer : Answer) (callers : List ℕ)
    → settlements caller (settle_all name answer callers) ≡ times_in caller callers
unfolding settlements settle_all
settlements-settle_all caller name answer [] = refl
settlements-settle_all caller name answer (own ∷ callers) =
    ground (arith, settlements-settle_all caller name answer callers)
