-- ===== src/EnvFiles/DivergenceLaws.antt =====
-- The keys that are reported are those on which container and image disagree.
use sagedockhand.Common.{
  Bool-cases, ◌==◌, eq_iff, nat_eq, text_eq, member, ◌≡◌, refl, sym, ap, ◌∙◌, inl, inr, Bool, false,
  Option, none, some, List, [], ◌∷◌, arith,
}
use sagedockhand.Common.Text.{Text}
use sagedockhand.Common.JsMap.{JsMap, get, put, IsDistinct, IsDistinct-put}
use sagedockhand.EnvFiles.{
  cut_at_eq, entry_of, parse_env_onto, parse_env, differs, divergent, detect_image_env_divergence,
}

-- Both sides have the key, with different values.
abbrev pub disagrees : Option Text → Option Text → Bool
disagrees none image = false
disagrees (some value) image = differs image value

member-divergent :
    (key : Text) (container image : JsMap Text Text)
    → IsDistinct container
    → member key (divergent container image) ≡ disagrees (get key container) (get key image)
unfolding member divergent get
member-divergent key [] image d = refl
member-divergent key ((own, value) ∷ container) image (fresh, d) = elim (Bool-cases (own == key)) [
  | inl same ↦
      let here = (eq_iff own key).0 same in
      let gone : get key container ≡ none = ap (λ k. get k container) (sym here) ∙ fresh in
      ground (arith, same, gone, ap (λ k. get k image) here, member-divergent key container image d)
  | inr different ↦ ground (arith, different, member-divergent key container image d)
]

parse_env_onto-IsDistinct :
    (entries : List Text) (m : JsMap Text Text)
    → IsDistinct m
    → IsDistinct (parse_env_onto entries m)
unfolding parse_env_onto
parse_env_onto-IsDistinct [] m d = d
parse_env_onto-IsDistinct (entry ∷ entries) m d =
    let (key, value) = entry_of (cut_at_eq entry) in
    parse_env_onto-IsDistinct entries (put key value m) (IsDistinct-put key value m d)

-- A key is reported exactly when the container and the image both set it, to different values, a later
-- setting of a list replacing an earlier one.
pub detect_image_env_divergence_iff :
    (key : Text) (container_env image_env : List Text)
    → member key (detect_image_env_divergence container_env image_env)
      ≡ disagrees (get key (parse_env container_env)) (get key (parse_env image_env))
unfolding detect_image_env_divergence
detect_image_env_divergence_iff key container_env image_env =
    member-divergent key (parse_env container_env) (parse_env image_env)
      (parse_env_onto-IsDistinct container_env [] tt)
