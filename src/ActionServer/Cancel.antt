-- ===== src/ActionServer/Cancel.antt =====
-- The loop of `_execute_cancel_request` (rclpy/rclpy/action/server.py) and its list.
use rclpy.Prelude.{
  ℕ, zero, suc, ◌≤◌, ◌≡◌, inl, inr, refl, ◌∙◌, Bool, none, some, List, [], ◌∷◌, ◌++◌, length,
  append_assoc, append-nil, if◌then◌else◌, Bool-cases, arith, remove, Distinct, get_elem?,
  Distinct-middle, remove-middle, get_elem?-middle, get_elem?-length, get_elem?-behind, length-snoc,
}
use rclpy.ActionServer.{GoalStates, ActionServer, cancel_one, cancel_loop, execute_cancel_request}

module _ {S V E : Type 0} (states : GoalStates S) (accept : ℕ → Bool) where
  abbrev one : ℕ → ActionServer S V E → Bool × ActionServer S V E
  one g s = cancel_one states accept g s

  -- The goals one after the other, where the one behind a goal that goes is left as it is.
  pub sweep : List ℕ → ActionServer S V E → List ℕ × ActionServer S V E
  sweep [] s = ([], s)
  sweep (g ∷ []) s = let (kept, s') = one g s in (if kept then g ∷ [] else [], s')
  sweep (g ∷ h ∷ gs) s =
      let (kept, s') = one g s in
      let (all, s'') = sweep (h ∷ gs) s' in
      let (rest, s3) = sweep gs s' in if kept then (g ∷ all, s'') else (h ∷ rest, s3)

  loop_stop :
      (fuel i : ℕ) (goals : List ℕ) (s : ActionServer S V E)
      → get_elem? goals i ≡ none
      → cancel_loop states accept fuel i goals s ≡ (goals, s)
  unfolding cancel_loop
  loop_stop zero i goals s h = refl
  loop_stop (suc fuel) i goals s h = rw (h, cancel_loop) refl

  loop_go :
      (fuel i g : ℕ) (goals : List ℕ) (s : ActionServer S V E)
      → get_elem? goals i ≡ some g
      → cancel_loop states accept (suc fuel) i goals s
        ≡ cancel_loop states accept fuel
            (suc i)
            (if (one g s).0 then goals else remove g goals)
            (one g s).1
  unfolding cancel_loop
  loop_go fuel i g goals s h = rw (h, cancel_loop) refl

  -- The loop over a list with `before` behind it.
  abbrev Sweeps : ℕ → List ℕ → List ℕ → ActionServer S V E → Type 0
  Sweeps fuel before rest s =
      cancel_loop states accept fuel (length before) (before ++ rest) s
      ≡ (before ++ (sweep rest s).0, (sweep rest s).1)

  -- One more goal behind.
  shift :
      (fuel x : ℕ) (before rest : List ℕ) (s : ActionServer S V E)
      → Sweeps fuel (before ++ x ∷ []) rest s
      → cancel_loop states accept fuel (suc (length before)) (before ++ x ∷ rest) s
        ≡ (before ++ x ∷ (sweep rest s).0, (sweep rest s).1)
  shift fuel x before rest s h =
      rw
        (
          length-snoc before x,
          append_assoc before (x ∷ []) rest,
          append_assoc before (x ∷ []) (sweep rest s).0,
        )
        at h

  loop-sweep :
      (fuel : ℕ) (before rest : List ℕ) (s : ActionServer S V E)
      → Distinct (before ++ rest)
      → length rest ≤ fuel
      → Sweeps fuel before rest s
  unfolding sweep
  loop-sweep fuel before [] s d enough =
      loop_stop fuel (length before) (before ++ []) s
        (rw (append-nil before) (get_elem?-length before))
  loop-sweep zero before (g ∷ gs) s d enough = absurd (omega (arith, enough))
  loop-sweep (suc fuel) before (g ∷ []) s d enough =
      let s' = (one g s).1 in
      loop_go fuel (length before) g (before ++ g ∷ []) s (get_elem?-middle before g [])
      ∙ elim (Bool-cases (one g s).0) [
        | inl kept ↦ rw kept (
            shift fuel g before [] s' (
              loop-sweep fuel (before ++ g ∷ []) [] s' (rw (append-nil (before ++ g ∷ [])) d)
                (omega arith)))
        | inr gone ↦
            rw (gone, remove-middle before g [] (Distinct-middle before g [] d).0)
              (loop_stop fuel (suc (length before)) (before ++ []) s'
                (rw (append-nil before) (get_elem?-behind before)))
      ]
  loop-sweep (suc fuel) before (g ∷ h ∷ gs) s d enough =
      let s' = (one g s).1 in
      let distinct = (Distinct-middle before g (h ∷ gs) d).1 in
      loop_go fuel (length before) g (before ++ g ∷ h ∷ gs) s (get_elem?-middle before g (h ∷ gs))
      ∙ elim (Bool-cases (one g s).0) [
        | inl kept ↦ rw kept (
            shift fuel g before (h ∷ gs) s' (
              loop-sweep fuel (before ++ g ∷ []) (h ∷ gs) s'
                (rw (append_assoc before (g ∷ []) (h ∷ gs)) d) (omega (arith, enough))))
        | inr gone ↦
            rw (gone, remove-middle before g (h ∷ gs) (Distinct-middle before g (h ∷ gs) d).0)
              (shift fuel h before gs s' (
                loop-sweep fuel (before ++ h ∷ []) gs s'
                  (rw (append_assoc before (h ∷ []) gs) distinct) (omega (arith, enough))))
      ]

  -- With as many rounds as there are goals, the loop comes to its end, and where no goal occurs twice, it takes
  -- the goals in order, but the goal behind one that is taken out of the response is skipped: it stays in the
  -- response, and neither is its cancel callback called nor its state changed.
  pub execute_cancel_request-sweep :
      (goals : List ℕ) (s : ActionServer S V E)
      → Distinct goals
      → execute_cancel_request states accept goals s ≡ sweep goals s
  unfolding execute_cancel_request
  execute_cancel_request-sweep goals s d = loop-sweep (length goals) [] goals s d (omega arith)
