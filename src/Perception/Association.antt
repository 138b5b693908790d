-- ===== src/Perception/Association.antt =====
-- `_nearest_associated_track` (src/autonomy/perception.py) against a description of the track that an
-- obstacle belongs to.
use autonomous_vehicle_llm.Base.{
  String, Bool, true, false, ◌&&◌, ◌≡◌, refl, subst, sym, ◌∙◌, ◌⊎◌, inl, inr, Option, none, some,
  List, [], ◌∷◌, All, IsMember, Bool-cases, Dict, keep, arith, if◌then◌else◌,
}
use autonomous_vehicle_llm.Float.{FloatOps, IsOrdered}
use autonomous_vehicle_llm.Perception.{DetectedObstacle}
use autonomous_vehicle_llm.Perception.Tracker.{
  ObstacleTracker, TrackState, is_nearer, best_of, is_candidate, with_distance, first_sorted,
  nearest_associated_track,
}

module _ {F : Type 0} ⦃fl : FloatOps F⦄ where
  abbrev pub distance : DetectedObstacle F → TrackState F → F
  distance o t = fl.dist o.x o.y t.x t.y

  -- The tracks that an obstacle may belong to: of its source, within reach, and of no obstacle before
  -- it in the frame.
  module _ (t : ObstacleTracker F) (o : DetectedObstacle F) (assigned : List String) where
    -- The answer: no track where none may be chosen, and otherwise one that may, to which none of
    -- the others is nearer.
    pub data IsAssociated : Option String → Type 0 where
      unknown :
          All (λ (row : String × TrackState F). ¬ (is_candidate t o assigned row ≡ true)) t.tracks
          → IsAssociated none
      nearest :
          (row : String × TrackState F)
          → IsMember row t.tracks
          → is_candidate t o assigned row ≡ true
          → All
              (λ (other : String × TrackState F).
                is_candidate t o assigned other ≡ true
                → fl.le (distance o row.1) (distance o other.1) ≡ true)
              t.tracks
          → IsAssociated (some row.0)

  abbrev AreNumbers : List (F × String) → Type 0
  AreNumbers cs = All (λ (c : F × String). fl.le c.0 c.0 ≡ true) cs

  module _ (i : IsOrdered F) where
    -- Of two candidates the one with the smaller key is not farther.
    is_nearer-le :
        (c best : F × String)
        → fl.le c.0 c.0 ≡ true
        → fl.le best.0 best.0 ≡ true
        → ((is_nearer c best ≡ true) × (fl.le c.0 best.0 ≡ true))
          ⊎ ((is_nearer c best ≡ false) × (fl.le best.0 c.0 ≡ true))
    is_nearer-le c best p q = elim (Bool-cases (fl.le c.0 best.0 && fl.le best.0 c.0)) [
      | inl e ↦ elim (Bool-cases (is_nearer c best)) [
        | inl f ↦ inl (f, grind (arith, e))
        | inr f ↦ inr (f, grind (arith, e))
      ]
      | inr e ↦ elim (Bool-cases (fl.lt c.0 best.0)) [
        | inl f ↦ inl (rw e f, i.le_of_lt c.0 best.0 f)
        | inr f ↦ inr (rw e f, i.le_of_not_lt c.0 best.0 p q f)
      ]
    ]

    chosen :
        (c best : F × String) (b : Bool)
        → fl.le c.0 c.0 ≡ true
        → fl.le best.0 best.0 ≡ true
        → ((b ≡ true) × (fl.le c.0 best.0 ≡ true)) ⊎ ((b ≡ false) × (fl.le best.0 c.0 ≡ true))
        → (fl.le (if b then c else best).0 best.0 ≡ true)
          × (fl.le (if b then c else best).0 c.0 ≡ true)
          × (((if b then c else best) ≡ best) ⊎ ((if b then c else best) ≡ c))
    chosen c best true p q (inl (e, l)) = (l, p, inr refl)
    chosen c best false p q (inr (e, l)) = (q, l, inl refl)
    chosen c best true p q (inr (e, l)) = absurd (grind (arith, e))
    chosen c best false p q (inl (e, l)) = absurd (grind (arith, e))

    best_of-least :
        (best : F × String) (cs : List (F × String))
        → fl.le best.0 best.0 ≡ true
        → AreNumbers cs
        → (fl.le (best_of best cs).0 best.0 ≡ true)
          × All (λ (c : F × String). fl.le (best_of best cs).0 c.0 ≡ true) cs
          × ((best_of best cs ≡ best) ⊎ IsMember (best_of best cs) cs)
    best_of-least best [] p n = (p, tt, inl refl)
    best_of-least best (c ∷ cs) p n =
        let next : F × String = if is_nearer c best then c else best in
        let (below, beside, which) =
          chosen c best (is_nearer c best) n.0 p (is_nearer-le c best n.0 p) in
        let (under, rest, reached) =
          best_of-least next cs (i.refl_of_le_left next.0 best.0 below) n.1 in
        (
          i.le_trans _ next.0 best.0 under below,
          (i.le_trans _ next.0 c.0 under beside, rest),
          elim reached [
            | inl e ↦ elim which [ inl f ↦ inl (e ∙ f) | inr f ↦ inr (inl (e ∙ f)) ]
            | inr e ↦ inr (inr e)
          ],
        )

  module _ (o : DetectedObstacle F) (p : String × TrackState F → Bool) where
    -- What holds of the distances of the rows that are kept, of the rows.
    kept-All :
        (Q : F × String → Type 0) (rows : Dict (TrackState F))
        → All Q (with_distance o (keep p rows))
        → All (λ (row : String × TrackState F). p row ≡ true → Q (distance o row.1, row.0)) rows
    kept-All Q [] h = tt
    kept-All Q (row ∷ rows) h = elim (Bool-cases (p row)) [
      | inl e ↦
          let g : Q (distance o row.1, row.0) × All Q (with_distance o (keep p rows)) = rw e at h in
          ((λ _. g.0), kept-All Q rows g.1)
      | inr e ↦
          let g : All Q (with_distance o (keep p rows)) = rw e at h in
          ((λ f. absurd (grind (arith, e, f))), kept-All Q rows g)
    ]

    All-kept :
        (Q : F × String → Type 0) (rows : Dict (TrackState F))
        → ((row : String × TrackState F) → p row ≡ true → Q (distance o row.1, row.0))
        → All Q (with_distance o (keep p rows))
    All-kept Q [] h = tt
    All-kept Q (row ∷ rows) h = elim (Bool-cases (p row)) [
      | inl e ↦ rw e (h row e, All-kept Q rows h)
      | inr e ↦ rw e (All-kept Q rows h)
    ]

    kept_row :
        (c : F × String) (rows : Dict (TrackState F))
        → IsMember c (with_distance o (keep p rows))
        → (row : String × TrackState F) × IsMember row rows
          × (p row ≡ true)
          × (c ≡ (distance o row.1, row.0))
    kept_row c [] h = elim h [ ]
    kept_row c (row ∷ rows) h = elim (Bool-cases (p row)) [
      | inl e ↦
          let g : (c ≡ (distance o row.1, row.0)) ⊎ IsMember c (with_distance o (keep p rows)) =
            rw e at h in
          elim g [
            | inl f ↦ (row, inl refl, e, f)
            | inr f ↦ let (r, m, q, d) = kept_row c rows f in (r, inr m, q, d)
          ]
      | inr e ↦
          let g : IsMember c (with_distance o (keep p rows)) = rw e at h in
          let (r, m, q, d) = kept_row c rows g in (r, inr m, q, d)
    ]

  module _ (i : IsOrdered F) (t : ObstacleTracker F) (o : DetectedObstacle F)
      (assigned : List String) where
    candidate_number :
        (row : String × TrackState F)
        → is_candidate t o assigned row ≡ true
        → fl.le (distance o row.1) (distance o row.1) ≡ true
    candidate_number row h = i.refl_of_le_left _ t.max_association_distance_m (grind (arith, h))

    first_sorted-IsAssociated :
        (cs : List (F × String))
        → with_distance o (keep (is_candidate t o assigned) t.tracks) ≡ cs
        → AreNumbers cs
        → IsAssociated t o assigned (first_sorted cs)
    first_sorted-IsAssociated [] e n =
        unknown (
          kept-All o (is_candidate t o assigned) (λ c. ⊥) t.tracks
            (subst (All (λ c. ⊥)) (sym e) tt))
    first_sorted-IsAssociated (c ∷ cs) e n =
        let (under, rest, reached) = best_of-least i c cs n.0 n.1 in
        let best : F × String = best_of c cs in
        let Q : F × String → Type 0 = λ k. fl.le best.0 k.0 ≡ true in
        let far : All Q (with_distance o (keep (is_candidate t o assigned) t.tracks)) =
          subst (All Q) (sym e) (under, rest) in
        let (row, m, q, d) =
          kept_row o (is_candidate t o assigned) best t.tracks
            (subst (IsMember best) (sym e) reached) in
        subst (λ (b : F × String). IsAssociated t o assigned (some b.1)) (sym d)
          (nearest row m q (
            subst
              (λ (b : F × String).
                All
                  (λ (other : String × TrackState F).
                    is_candidate t o assigned other ≡ true → fl.le b.0 (distance o other.1) ≡ true)
                  t.tracks)
              d (kept-All o (is_candidate t o assigned) Q t.tracks far)))

    -- With ordered floats, no track is chosen for an obstacle exactly where none may be (its source,
    -- within reach, of no obstacle before it), and otherwise one that may, to which no other is nearer.
    pub nearest_associated_track-IsAssociated :
        IsAssociated t o assigned (nearest_associated_track t o assigned)
    unfolding nearest_associated_track
    nearest_associated_track-IsAssociated = first_sorted-IsAssociated _ refl (
        All-kept o (is_candidate t o assigned) (λ c. fl.le c.0 c.0 ≡ true) t.tracks
          candidate_number)
