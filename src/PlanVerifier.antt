-- ===== src/PlanVerifier.antt =====
-- The static checks of a plan (src/autonomy/plan_verifier.py).
pub mod WellFormed
use autonomous_vehicle_llm.Base.{
  ℕ, suc, String, ◌<>◌, Bool, true, false, not, ◌||◌, Option, none, some, List, [], ◌∷◌, ◌++◌, ◌==◌,
  if◌then◌else◌,
}
use autonomous_vehicle_llm.Float.{FloatOps}
use autonomous_vehicle_llm.Text.{TextOps}
use autonomous_vehicle_llm.Models.{Action, ActionType, arm, move_to, disarm, type_eq, MissionPlan}

-- `xs[-1]` of a list that is not empty
abbrev pub last_of {ℓ} : {A : Type ℓ} → A → List A → A
last_of a [] = a
last_of a (b ∷ xs) = last_of b xs

-- `errors.append(message)`, if the test holds
abbrev note_if : Bool → String → List String
note_if b message = if b then message ∷ [] else []

-- `v is None`
abbrev is_missing {ℓ} : {A : Type ℓ} → Option A → Bool
is_missing none = true
is_missing (some a) = false

-- `return len(errors) == 0, errors`
abbrev no_errors : List String → Bool × List String
no_errors [] = (true, [])
no_errors (e ∷ errors) = (false, e ∷ errors)

module _ {F : Type 0} ⦃fl : FloatOps F⦄ ⦃t : TextOps⦄ where
  -- `speed is None or speed <= 0`
  abbrev pub is_not_positive : Option F → Bool
  is_not_positive none = true
  is_not_positive (some v) = fl.le v (fl.lit 0 0)

  -- The body of the loop: what it appends for one action.
  unfoldable pub action_errors : ℕ → Action F → List String
  action_errors idx a =
      if a.type == move_to
      then note_if (is_missing a.x || is_missing a.y)
          ("action " <> t.str_of_nat idx <> ": move_to requires x and y")
        ++ note_if (is_not_positive a.speed_mps)
            ("action " <> t.str_of_nat idx <> ": move_to requires positive speed_mps")
      else []

  -- The loop over `enumerate(plan.actions)`.
  unfoldable pub loop_errors : ℕ → List (Action F) → List String
  loop_errors idx [] = []
  loop_errors idx (a ∷ actions) = action_errors idx a ++ loop_errors (suc idx) actions

  unfoldable pub verify_actions : List (Action F) → Bool × List String
  verify_actions [] = (false, "plan has no actions" ∷ [])
  verify_actions (a ∷ actions) = no_errors (
      note_if (not (a.type == arm)) "first action must be arm"
      ++ (note_if (not ((last_of a actions).type == disarm)) "last action must be disarm"
          ++ loop_errors 0 (a ∷ actions)))

  abbrev pub verify : MissionPlan F → Bool × List String
  verify plan = verify_actions plan.actions
