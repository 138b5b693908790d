-- ===== src/ObstacleAvoidance/Refine.antt =====
-- What `refine_action` (src/autonomy/obstacle_avoidance.py) may make of an action.
use autonomous_vehicle_llm.Base.{
  true, ◌≡◌, refl, ap, subst, ◌∙◌, All, inl, inr, Option, none, some, List, [], ◌∷◌, arith,
  Bool-cases, ◌==◌,
}
use autonomous_vehicle_llm.Float.{FloatOps}
use autonomous_vehicle_llm.Models.{Action, move_to, hold, bare, type_eq, type_beq_iff}
use autonomous_vehicle_llm.Perception.{PerceptionFrame}
use autonomous_vehicle_llm.Mapping.{MappingService}
use autonomous_vehicle_llm.ObstacleAvoidance.{
  ClearancePlanner, refine_target, refine_action, try_offsets, is_clear, candidate_offsets,
}

-- A step to a side, along one axis.
pub data Side : Type 0 where
  stay : Side
  forth : Side
  back : Side

module _ {F : Type 0} ⦃fl : FloatOps F⦄ (p : ClearancePlanner F) (m : MappingService F)
    (frame : Option (PerceptionFrame F)) where
  -- The target of the move is known to have the clearance.
  abbrev HasClearance : F → F → Type 0
  HasClearance x y = is_clear p.min_clearance_m (m.nearest_obstacle_distance x y frame) ≡ true

  -- A place that is outside the geofence or not known to have the clearance.
  abbrev IsBlocked : F → F → Type 0
  IsBlocked x y = m.is_within_geofence x y ≡ true → ¬ HasClearance x y

  -- How far a candidate lies from the target along an axis.
  abbrev shift : Side → F
  shift stay = fl.lit 0 1
  shift forth = p.sidestep_m
  shift back = fl.neg p.sidestep_m

  -- The three ways in which `b` may stand for `a`.
  pub data Refines (a : Action F) (b : Action F) : Type 0 where
    -- Nothing was to be changed: no move, a target that is missing, or a clear target.
    same :
        b ≡ a
        → ((x y : F) → a.type ≡ move_to → a.x ≡ some x → a.y ≡ some y → HasClearance x y)
        → Refines a b
    -- The target is not clear: the same move, at the same speed, a step to a side of it, to a place
    -- that is clear and inside the geofence.
    aside :
        (x y : F) (i j : Side)
        → a.type ≡ move_to
        → a.x ≡ some x
        → a.y ≡ some y
        → ¬ HasClearance x y
        → b ≡ record a { x = some (fl.add x (shift i)); y = some (fl.add y (shift j)) }
        → m.is_within_geofence (fl.add x (shift i)) (fl.add y (shift j)) ≡ true
        → HasClearance (fl.add x (shift i)) (fl.add y (shift j))
        → Refines a b
    -- The target is not clear, and all eight places a step to a side of it are blocked.
    stopped :
        (x y : F)
        → a.type ≡ move_to
        → a.x ≡ some x
        → a.y ≡ some y
        → ¬ HasClearance x y
        → ((i j : Side)
            → ¬ ((i ≡ stay) × (j ≡ stay))
            → IsBlocked (fl.add x (shift i)) (fl.add y (shift j)))
        → b ≡ bare hold
        → Refines a b

  abbrev IsStep : F × F → Type 0
  IsStep o = (i : Side) × (j : Side) × (o ≡ (shift i, shift j))

  -- What the loop finds among the offsets.
  data Tried (a : Action F) (x y : F) (offsets : List (F × F)) (b : Action F) : Type 0 where
    found :
        (o : F × F)
        → IsStep o
        → b ≡ record a { x = some (fl.add x o.0); y = some (fl.add y o.1) }
        → m.is_within_geofence (fl.add x o.0) (fl.add y o.1) ≡ true
        → HasClearance (fl.add x o.0) (fl.add y o.1)
        → Tried a x y offsets b
    missed :
        All (λ (o : F × F). IsBlocked (fl.add x o.0) (fl.add y o.1)) offsets
        → b ≡ bare hold
        → Tried a x y offsets b

  longer :
      (a : Action F) (x y : F) (o : F × F) (offsets : List (F × F)) (b : Action F)
      → IsBlocked (fl.add x o.0) (fl.add y o.1)
      → Tried a x y offsets b
      → Tried a x y (o ∷ offsets) b
  longer a x y o offsets b h (found q s e i c) = found q s e i c
  longer a x y o offsets b h (missed r e) = missed (h, r) e

  try_offsets-Tried :
      (a : Action F) (x y : F) (offsets : List (F × F))
      → All IsStep offsets
      → Tried a x y offsets (try_offsets p m frame a x y offsets)
  unfolding try_offsets
  try_offsets-Tried a x y [] s = missed tt refl
  try_offsets-Tried a x y ((dx, dy) ∷ offsets) s =
      let cx = fl.add x dx in
      let cy = fl.add y dy in
      let rest = try_offsets-Tried a x y offsets s.1 in
      elim (Bool-cases (m.is_within_geofence cx cy)) [
        | inl inside ↦
            elim (Bool-cases
              (is_clear p.min_clearance_m (m.nearest_obstacle_distance cx cy frame))) [
                | inl free ↦ rw (inside, free) (found (dx, dy) s.0 refl inside free)
                | inr near ↦
                    rw (inside, near)
                      (longer a x y (dx, dy) offsets _ (λ _ h. absurd (ground (arith, near, h)))
                        rest)
              ]
        | inr outside ↦
            rw outside
              (longer a x y (dx, dy) offsets _ (λ h _. absurd (ground (arith, outside, h))) rest)
      ]

  steps : All IsStep (candidate_offsets p.sidestep_m)
  steps = (
    (stay, forth, refl),
    (
      (stay, back, refl),
      (
        (forth, stay, refl),
        (
          (back, stay, refl),
          (
            (forth, forth, refl),
            ((forth, back, refl), ((back, forth, refl), ((back, back, refl), tt))),
          ),
        ),
      ),
    ),
  )

  -- The candidates are all the places a step to a side.
  IsBlocked-All :
      (x y : F)
      → All
          (λ (o : F × F). IsBlocked (fl.add x o.0) (fl.add y o.1))
          (candidate_offsets p.sidestep_m)
      → (i j : Side) → ¬ ((i ≡ stay) × (j ≡ stay))
      → IsBlocked (fl.add x (shift i)) (fl.add y (shift j))
  IsBlocked-All x y h stay stay n = absurd (n (refl, refl))
  IsBlocked-All x y (a, (b, (c, (d, (e, (f, (g, (k, _)))))))) stay forth n = a
  IsBlocked-All x y (a, (b, (c, (d, (e, (f, (g, (k, _)))))))) stay back n = b
  IsBlocked-All x y (a, (b, (c, (d, (e, (f, (g, (k, _)))))))) forth stay n = c
  IsBlocked-All x y (a, (b, (c, (d, (e, (f, (g, (k, _)))))))) back stay n = d
  IsBlocked-All x y (a, (b, (c, (d, (e, (f, (g, (k, _)))))))) forth forth n = e
  IsBlocked-All x y (a, (b, (c, (d, (e, (f, (g, (k, _)))))))) forth back n = f
  IsBlocked-All x y (a, (b, (c, (d, (e, (f, (g, (k, _)))))))) back forth n = g
  IsBlocked-All x y (a, (b, (c, (d, (e, (f, (g, (k, _)))))))) back back n = k

  Tried-Refines :
      (a b : Action F) (x y : F)
      → a.type ≡ move_to
      → a.x ≡ some x
      → a.y ≡ some y
      → ¬ HasClearance x y
      → Tried a x y (candidate_offsets p.sidestep_m) b
      → Refines a b
  Tried-Refines a b x y h ex ey n (found o (i, j, s) e inside free) =
      aside x y i j h ex ey n
        (e ∙ ap (λ (q : F × F). record a { x = some (fl.add x q.0); y = some (fl.add y q.1) }) s)
        (subst (λ (q : F × F). m.is_within_geofence (fl.add x q.0) (fl.add y q.1) ≡ true) s inside)
        (subst (λ (q : F × F). HasClearance (fl.add x q.0) (fl.add y q.1)) s free)
  Tried-Refines a b x y h ex ey n (missed r e) = stopped x y h ex ey n (IsBlocked-All x y r) e

  refine_target-Refines :
      (a : Action F) (u v : Option F)
      → a.type ≡ move_to
      → a.x ≡ u
      → a.y ≡ v
      → Refines a (refine_target p m frame a u v)
  refine_target-Refines a none v h ex ey = same refl (λ x y k kx ky. ground arith)
  refine_target-Refines a (some x) none h ex ey = same refl (λ x y k kx ky. ground arith)
  refine_target-Refines a (some x) (some y) h ex ey =
      elim (Bool-cases (is_clear p.min_clearance_m (m.nearest_obstacle_distance x y frame))) [
        | inl free ↦ rw free (same refl (λ x' y' k kx ky. ground arith))
        | inr near ↦ rw near (
            Tried-Refines a (try_offsets p m frame a x y (candidate_offsets p.sidestep_m)) x y h ex
              ey (λ c. absurd (ground (arith, near, c)))
              (try_offsets-Tried a x y (candidate_offsets p.sidestep_m) steps))
      ]

  -- A refined action is the original one, if it is no move or its target is missing or clear.
  -- Otherwise it is the same move at the same speed to one of the eight places a step to a side of
  -- the target, clear and inside the geofence, or a hold, if none of the eight is clear and inside.
  pub refine_action-Refines : (a : Action F) → Refines a (refine_action p m frame a)
  unfolding refine_action
  refine_action-Refines a = elim (Bool-cases (a.type == move_to)) [
    | inl h ↦ rw h (refine_target-Refines a a.x a.y ((type_beq_iff a.type move_to).0 h) refl refl)
    | inr h ↦ rw h (same refl (λ x y k kx ky. absurd (ground arith)))
  ]
