-- ===== src/GitDeletions/Shrinks.antt =====
-- The relation between the file system before and after a deletion.
use sagedockhand.Common.{
  if◌then◌else◌, Bool-cases, ◌==◌, eq_iff, nat_eq, text_eq, ◌≡◌, refl, sym, ◌∙◌, ◌⊎◌, inl, inr,
  Bool, true, not, ◌&&◌, none, some, arith,
}
use sagedockhand.Common.Text.{Text}
use sagedockhand.Common.JsMap.{get, remove, get-remove}
use sagedockhand.GitDeletions.Apply.{Node, Fs, resolve_in, is_below, contained_path}
use sagedockhand.GitDeletions.Plan.{is_safe_rel_path}

-- The paths and nodes that an operation may remove; everything else is as before.
pub record Shrinks (Ok : Text → Node → Type 0) (before after : Fs) : Type 0 where
  pub at :
      (path : Text)
      → (get path after ≡ get path before)
        ⊎ ((get path after ≡ none) × ((node : Node) × (get path before ≡ some node) × Ok path node))

module _ {Ok : Text → Node → Type 0} where
  pub Shrinks-refl : (fs : Fs) → Shrinks Ok fs fs
  Shrinks-refl fs = record { at = λ path. inl refl }

  pub Shrinks-trans : (a b c : Fs) → Shrinks Ok a b → Shrinks Ok b c → Shrinks Ok a c
  Shrinks-trans a b c h k = record {
    at = λ path. elim (k.at path) [
      | inl same ↦ elim (h.at path) [
        | inl same' ↦ inl (same ∙ same')
        | inr (gone, why) ↦ inr (same ∙ gone, why)
      ]
      | inr (gone, (node, found, ok)) ↦ elim (h.at path) [
        | inl same' ↦ inr (gone, (node, sym same' ∙ found, ok))
        | inr (gone', why) ↦ inr (gone, why)
      ]
    ];
  }

  pub Shrinks-remove :
      (abs : Text) (node : Node) (fs : Fs)
      → get abs fs ≡ some node
      → Ok abs node
      → Shrinks Ok fs (remove abs fs)
  Shrinks-remove abs node fs found ok = record {
    at = λ path. elim (Bool-cases (abs == path)) [
      | inl same ↦
          let e = (eq_iff abs path).0 same in
          inr (ground (arith, get-remove abs path fs, same), (node, rw (← e) found, rw (← e) ok))
      | inr differ ↦ inl (ground (arith, get-remove abs path fs, differ))
    ];
  }

pub Shrinks-mono :
    {P Q : Text → Node → Type 0} (a b : Fs)
    → ((path : Text) (node : Node) → P path node → Q path node)
    → Shrinks P a b
    → Shrinks Q a b
Shrinks-mono a b weaken h = record {
  at = λ path. elim (h.at path) [
    | inl same ↦ inl same
    | inr (gone, (node, found, ok)) ↦ inr (gone, (node, found, weaken path node ok))
  ];
}

-- A contained path is below the root.
pub contained_path-is_below :
    (root rel abs : Text) → contained_path root rel ≡ some abs → is_below root abs ≡ true
unfolding contained_path
contained_path-is_below root rel abs h =
    guarded (is_safe_rel_path rel) (resolve_in root rel) (not (resolve_in root rel == root)) h
  where
    guarded :
        (safe : Bool) (t : Text) (apart : Bool)
        → (if not safe then none else if apart && is_below root t then some t else none) ≡ some abs
        → is_below root abs ≡ true
    guarded safe t apart k = elim (Bool-cases (is_below root t)) [
      | inl below ↦ let same : t ≡ abs = ground (arith, k) in rw (← same) below
      | inr above ↦ absurd (ground (arith, k, above))
    ]
