-- ===== src/Mapping/Nearest.antt =====
-- `nearest_obstacle_distance` (src/autonomy/mapping.py) against a description of the nearest obstacle.
use autonomous_vehicle_llm.Base.{
  true, ◌≡◌, refl, ◌∙◌, ◌⊎◌, inl, inr, Option, none, some, List, [], ◌∷◌, All, Bool-cases,
}
use autonomous_vehicle_llm.Float.{FloatOps, IsOrdered, py_min}
use autonomous_vehicle_llm.Perception.{DetectedObstacle, PerceptionFrame}
use autonomous_vehicle_llm.Mapping.{edge_distance, nearest, nearest_of, nearest_from}

module _ {F : Type 0} ⦃fl : FloatOps F⦄ (x y : F) where
  -- No obstacle is nearer than `d`, and `d` is the distance of one of them.
  abbrev pub NoneNearer : F → List (DetectedObstacle F) → Type 0
  NoneNearer d obstacles =
      All (λ (o : DetectedObstacle F). fl.le d (edge_distance x y o) ≡ true) obstacles

  abbrev pub IsReached : F → List (DetectedObstacle F) → Type 0
  IsReached d [] = ⊥
  IsReached d (o ∷ obstacles) = (d ≡ edge_distance x y o) ⊎ IsReached d obstacles

  -- No distance is a NaN.
  abbrev pub AreNumbers : List (DetectedObstacle F) → Type 0
  AreNumbers obstacles =
      All (λ (o : DetectedObstacle F). fl.le (edge_distance x y o) (edge_distance x y o) ≡ true)
        obstacles

  -- The answer for the obstacles of a frame.
  pub data IsNearest (obstacles : List (DetectedObstacle F)) : Option F → Type 0 where
    empty : obstacles ≡ [] → IsNearest obstacles none
    least : (d : F) → NoneNearer d obstacles → IsReached d obstacles → IsNearest obstacles (some d)

  module _ (laws : IsOrdered F) where
    py_min-le :
        (a b : F)
        → fl.le a a ≡ true
        → fl.le b b ≡ true
        → (fl.le (py_min a b) a ≡ true)
          × (fl.le (py_min a b) b ≡ true)
          × ((py_min a b ≡ a) ⊎ (py_min a b ≡ b))
    py_min-le a b p q = elim (Bool-cases (fl.lt b a)) [
      | inl e ↦ rw e (laws.le_of_lt b a e, q, inr refl)
      | inr e ↦ rw e (p, laws.le_of_not_lt b a q p e, inl refl)
    ]

    nearest_from-least :
        (best : F) (obstacles : List (DetectedObstacle F))
        → fl.le best best ≡ true
        → AreNumbers obstacles
        → (fl.le (nearest_from x y best obstacles) best ≡ true)
          × NoneNearer (nearest_from x y best obstacles) obstacles
          × ((nearest_from x y best obstacles ≡ best)
              ⊎ IsReached (nearest_from x y best obstacles) obstacles)
    unfolding nearest_from
    nearest_from-least best [] p n = (p, tt, inl refl)
    nearest_from-least best (o ∷ obstacles) p n =
        let (below, beside, chosen) = py_min-le best (edge_distance x y o) p n.0 in
        let next = py_min best (edge_distance x y o) in
        let (under, rest, reached) =
          nearest_from-least next obstacles (laws.refl_of_le_left next best below) n.1 in
        (
          laws.le_trans _ next best under below,
          (laws.le_trans _ next (edge_distance x y o) under beside, rest),
          elim reached [
            | inl e ↦ elim chosen [ inl f ↦ inl (e ∙ f) | inr f ↦ inr (inl (e ∙ f)) ]
            | inr e ↦ inr (inr e)
          ],
        )

    -- With floats ordered as `IsOrdered` says, of a frame whose distances are no NaN, the answer is none exactly without obstacles, and
    -- otherwise the distance of an obstacle to which none is nearer.
    pub nearest-IsNearest :
        (frame : PerceptionFrame F)
        → AreNumbers frame.obstacles
        → IsNearest frame.obstacles (nearest x y (some frame))
    unfolding nearest
    nearest-IsNearest frame n = go frame.obstacles n
      where
        go : (l : List (DetectedObstacle F)) → AreNumbers l → IsNearest l (nearest_of x y l)
        go [] m = empty refl
        go (o ∷ obstacles) m =
            let (under, rest, reached) =
              nearest_from-least (edge_distance x y o) obstacles m.0 m.1 in
            least _ (under, rest) (elim reached [ inl e ↦ inl e | inr e ↦ inr e ])
