-- ===== src/PlanVerifier/WellFormed.antt =====
-- The plans that `verify` (src/autonomy/plan_verifier.py) is about.
use autonomous_vehicle_llm.Base.{
  ℕ, suc, true, false, ◌≡◌, refl, ◌↔◌, some, List, [], ◌∷◌, ◌++◌, arith, All, append-eq-nil_iff,
}
use autonomous_vehicle_llm.Float.{FloatOps}
use autonomous_vehicle_llm.Text.{TextOps}
use autonomous_vehicle_llm.Models.{Action, arm, move_to, disarm, MissionPlan}
use autonomous_vehicle_llm.PlanVerifier.{
  action_errors, loop_errors, verify_actions, verify, last_of,
}

module _ {F : Type 0} ⦃fl : FloatOps F⦄ where
  -- A move names its target and a positive speed.
  pub record IsComplete (a : Action F) : Type 0 where
    pub target_x : (x : F) × (a.x ≡ some x)
    pub target_y : (y : F) × (a.y ≡ some y)
    pub speed : (v : F) × (a.speed_mps ≡ some v) × (fl.le v (fl.lit 0 0) ≡ false)

  -- The plan starts with `arm` and ends with `disarm`, and every move in it is complete.
  pub record IsWellFormed (actions : List (Action F)) : Type 0 where
    pub first : (a : Action F) × (rest : List (Action F)) × (actions ≡ a ∷ rest) × (a.type ≡ arm)
    pub last :
        (z : Action F) × (start : List (Action F)) × (actions ≡ start ++ (z ∷ []))
        × (z.type ≡ disarm)
    pub moves : All (λ (a : Action F). a.type ≡ move_to → IsComplete a) actions

module _ {ℓ} {A : Type ℓ} where
  before_last : A → List A → List A
  before_last a [] = []
  before_last a (b ∷ xs) = a ∷ before_last b xs

  before_last-append : (a : A) (xs : List A) → a ∷ xs ≡ before_last a xs ++ (last_of a xs ∷ [])
  unfolding before_last
  before_last-append a [] = refl
  before_last-append a (b ∷ xs) = λ i. a ∷ before_last-append b xs i

  last_of-append : (a z : A) (xs start : List A) → a ∷ xs ≡ start ++ (z ∷ []) → last_of a xs ≡ z
  last_of-append a z [] [] e = ground arith
  last_of-append a z [] (b ∷ []) e = cc
  last_of-append a z [] (b ∷ c ∷ start) e = cc
  last_of-append a z (b ∷ xs) [] e = cc
  last_of-append a z (b ∷ xs) (c ∷ start) e = last_of-append b z xs start (ground arith)

module _ {F : Type 0} ⦃fl : FloatOps F⦄ ⦃t : TextOps⦄ where
  action_errors-IsComplete :
      (n : ℕ) (a : Action F) → (action_errors n a ≡ []) ↔ (a.type ≡ move_to → IsComplete a)
  unfolding action_errors
  action_errors-IsComplete n a = (λ h m. ground arith, λ c. ground (arith, c))

  loop_errors-All :
      (n : ℕ) (actions : List (Action F))
      → (loop_errors n actions ≡ [])
        ↔ All (λ (a : Action F). a.type ≡ move_to → IsComplete a) actions
  unfolding loop_errors
  loop_errors-All n [] = (λ h. tt, λ h. refl)
  loop_errors-All n (a ∷ actions) =
      let split = append-eq-nil_iff (action_errors n a) (loop_errors (suc n) actions) in
      let here = action_errors-IsComplete n a in
      let rest = loop_errors-All (suc n) actions in
      (λ h. (here.0 (split.0 h).0, rest.0 (split.0 h).1), λ h. split.1 (here.1 h.0, rest.1 h.1))

  verify_sound : (plan : MissionPlan F) → verify plan ≡ (true, []) → IsWellFormed plan.actions
  unfolding verify_actions
  verify_sound plan h = go plan.actions h
    where
      go : (l : List (Action F)) → verify_actions l ≡ (true, []) → IsWellFormed l
      go [] e = absurd (cc)
      go (a ∷ l) e = record {
        first = (a, l, refl, ground arith);
        last = (last_of a l, before_last a l, before_last-append a l, ground arith);
        moves = (loop_errors-All 0 (a ∷ l)).0 (ground arith);
      }

  verify_complete : (plan : MissionPlan F) → IsWellFormed plan.actions → verify plan ≡ (true, [])
  unfolding verify_actions
  verify_complete plan w = go plan.actions w
    where
      go : (l : List (Action F)) → IsWellFormed l → verify_actions l ≡ (true, [])
      go [] v = absurd (ground (arith, v.first))
      go (a ∷ l) v = ground (
        arith,
        v.first,
        v.last,
        last_of-append a v.last.0 l v.last.1 v.last.2,
        (loop_errors-All 0 (a ∷ l)).1 v.moves,
      )

  -- A plan is accepted exactly if it is well formed, and then there are no messages; a refusal
  -- always has a message.
  pub verify-IsWellFormed :
      (plan : MissionPlan F)
      → ((verify plan ≡ (true, [])) ↔ IsWellFormed plan.actions)
        × ((verify plan).0 ≡ true → (verify plan).1 ≡ [])
        × ((verify plan).1 ≡ [] → (verify plan).0 ≡ true)
  unfolding verify_actions
  verify-IsWellFormed plan =
      ((verify_sound plan, verify_complete plan), λ h. ground arith, λ h. ground arith)
