-- ===== src/Collector/HealthLaws.antt =====
-- Health transitions refine a detector of changes for each container on its own.
use sagedockhand.Common.{
  if◌then◌else◌, Bool-cases, ◌==◌, eq_refl, eq_iff, nat_eq, text_eq, ℕ, ◌≡◌, refl, ap, ◌∙◌, inl,
  inr, Bool, true, false, not, ◌&&◌, Option, none, some, List, [], ◌∷◌, arith,
}
use sagedockhand.Common.Text.{Text, codes, starts_with}
use sagedockhand.Common.Decimal.{numbered_inj}
use sagedockhand.Common.JsMap.{JsMap, get, put, remove, get-put, get-remove}
use sagedockhand.Collector.State.{env_key}
use sagedockhand.Collector.Health.{sub_status, clears, is_same_status, is_health_transition}

-- What one container has done, without its name: its last status, and whether an action is to be recorded.
abbrev detect_by : Bool → Bool → Text → Option Text → Option Text × Bool
detect_by cleared health status last =
    if cleared
    then (none, true)
    else if not health
    then (last, true)
    else if is_same_status last status
    then (last, false)
    else (some status, true)

abbrev detect : Text → Option Text → Option Text × Bool
detect action last =
    detect_by (clears action) (starts_with action (codes "health_status")) (sub_status action) last

pub record Delivery : Type 0 where
  pub env_id : ℕ
  pub container_id : Text
  pub action : Text

abbrev is_of : ℕ → Text → Delivery → Bool
is_of env_id container_id d = (d.env_id == env_id) && (d.container_id == container_id)

-- The actions of one container.
abbrev pub actions_of : ℕ → Text → List Delivery → List Text
actions_of env_id container_id [] = []
actions_of env_id container_id (d ∷ ds) =
    let rest = actions_of env_id container_id ds in
    if is_of env_id container_id d then d.action ∷ rest else rest

unfoldable pub detected : List Text → Option Text → List Bool
detected [] last = []
detected (action ∷ actions) last = (detect action last).1 ∷ detected actions (detect action last).0

-- The answers of `isHealthTransition` that are about one container, in a run over all of them.
unfoldable pub answers : ℕ → Text → List Delivery → JsMap Text Text → List Bool
answers env_id container_id [] last = []
answers env_id container_id (d ∷ ds) last =
    let step = is_health_transition d.env_id d.container_id d.action last in
    let rest = answers env_id container_id ds step.0 in
    if is_of env_id container_id d then step.1 ∷ rest else rest

env_key_inj : (m n : ℕ) (s t : Text) → env_key m s ≡ env_key n t → (m ≡ n) × (s ≡ t)
env_key_inj m n s t h = numbered_inj b'-' m n s t refl h

-- The tests on the action are taken as any Booleans here.
abbrev tracked : Bool → Bool → Text → Text → JsMap Text Text → JsMap Text Text × Bool
tracked cleared health key status last =
    if cleared
    then (remove key last, true)
    else if not health
    then (last, true)
    else if is_same_status (get key last) status
    then (last, false)
    else (put key status last, true)

own-branches :
    (cleared health : Bool) (key status : Text) (last : JsMap Text Text)
    → (get key (tracked cleared health key status last).0
        ≡ (detect_by cleared health status (get key last)).0)
      × ((tracked cleared health key status last).1
          ≡ (detect_by cleared health status (get key last)).1)
own-branches true health key status last = (get-remove key key last ∙ rw (eq_refl key) refl, refl)
own-branches false false key status last = (refl, refl)
own-branches false true key status last = elim (Bool-cases (is_same_status (get key last) status)) [
  | inl same ↦ rw same (refl, refl)
  | inr other ↦ rw other (get-put key key status last ∙ rw (eq_refl key) refl, refl)
]

other-branches :
    (cleared health : Bool) (key own status : Text) (last : JsMap Text Text)
    → (own == key) ≡ false
    → get key (tracked cleared health own status last).0 ≡ get key last
other-branches true health key own status last apart = get-remove own key last ∙ rw apart refl
other-branches false false key own status last apart = refl
other-branches false true key own status last apart =
    elim (Bool-cases (is_same_status (get own last) status)) [
      | inl same ↦ rw same refl
      | inr other ↦ rw other (get-put own key status last ∙ rw apart refl)
    ]

is_health_transition-detect :
    (env_id : ℕ) (container_id action : Text) (last : JsMap Text Text)
    → (get (env_key env_id container_id) (is_health_transition env_id container_id action last).0
        ≡ (detect action (get (env_key env_id container_id) last)).0)
      × ((is_health_transition env_id container_id action last).1
          ≡ (detect action (get (env_key env_id container_id) last)).1)
unfolding is_health_transition
is_health_transition-detect env_id container_id action last =
    own-branches (clears action) (starts_with action (codes "health_status"))
      (env_key env_id container_id) (sub_status action) last

get-is_health_transition_apart :
    (key : Text) (env_id : ℕ) (container_id action : Text) (last : JsMap Text Text)
    → (env_key env_id container_id == key) ≡ false
    → get key (is_health_transition env_id container_id action last).0 ≡ get key last
unfolding is_health_transition
get-is_health_transition_apart key env_id container_id action last apart =
    other-branches (clears action) (starts_with action (codes "health_status")) key
      (env_key env_id container_id) (sub_status action) last apart

apart_of :
    (env_id : ℕ) (container_id : Text) (d : Delivery)
    → is_of env_id container_id d ≡ false
    → (env_key d.env_id d.container_id == env_key env_id container_id) ≡ false
apart_of env_id container_id d h =
    elim (Bool-cases (env_key d.env_id d.container_id == env_key env_id container_id)) [
      | inr apart ↦ apart
      | inl same ↦
          let p =
            env_key_inj d.env_id env_id d.container_id container_id
              ((eq_iff (env_key d.env_id d.container_id) (env_key env_id container_id)).0 same) in
          absurd (
            ground (
              arith,
              h,
              (eq_iff d.env_id env_id).1 p.0,
              (eq_iff d.container_id container_id).1 p.1,
            ))
    ]

∷-eq : {b c : Bool} {bs cs : List Bool} → b ≡ c → bs ≡ cs → (b ∷ bs) ≡ (c ∷ cs)
∷-eq {c} {bs} h k = ap (λ b. b ∷ bs) h ∙ ap (◌∷◌ c) k

-- A delivery of the container itself.
own-detect :
    (env_id : ℕ) (container_id : Text) (d : Delivery) (last : JsMap Text Text)
    → is_of env_id container_id d ≡ true
    → (get
          (env_key env_id container_id)
          (is_health_transition d.env_id d.container_id d.action last).0
        ≡ (detect d.action (get (env_key env_id container_id) last)).0)
      × ((is_health_transition d.env_id d.container_id d.action last).1
          ≡ (detect d.action (get (env_key env_id container_id) last)).1)
own-detect env_id container_id d last own =
    let e : d.env_id ≡ env_id = ground (arith, own, eq_iff d.env_id env_id) in
    let c : d.container_id ≡ container_id =
      ground (arith, own, eq_iff d.container_id container_id) in
    rw (e, c) (is_health_transition-detect env_id container_id d.action last)

-- For each container, `isHealthTransition` answers as a detector of changes that sees that container only,
-- whatever the others do in between.
pub answers-detected :
    (env_id : ℕ) (container_id : Text) (deliveries : List Delivery) (last : JsMap Text Text)
    → answers env_id container_id deliveries last
      ≡ detected
          (actions_of env_id container_id deliveries)
          (get (env_key env_id container_id) last)
unfolding answers detected
answers-detected env_id container_id [] last = refl
answers-detected env_id container_id (d ∷ ds) last =
    let next = (is_health_transition d.env_id d.container_id d.action last).0 in
    let rest = answers-detected env_id container_id ds next in
    elim (Bool-cases (is_of env_id container_id d)) [
      | inr other ↦
          let same =
            get-is_health_transition_apart (env_key env_id container_id) d.env_id d.container_id
              d.action last (apart_of env_id container_id d other) in
          rw other (rest ∙ ap (detected (actions_of env_id container_id ds)) same)
      | inl own ↦
          let step = own-detect env_id container_id d last own in
          rw own (∷-eq step.1 (rest ∙ ap (detected (actions_of env_id container_id ds)) step.0))
    ]
