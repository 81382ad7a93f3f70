-- ===== src/ActionClient/Feedback.antt =====
-- What an action client (rclpy/rclpy/action/client.py) keeps for a goal: its feedback callback and its handle.
use rclpy.Prelude.{
  ℕ, ◌≡◌, refl, sym, ap, ◌∙◌, inl, inr, Bool, true, false, ◌&&◌, Option, none, some, List, [], ◌∷◌,
  any, if◌then◌else◌, ◌==◌, ==-eq, nat_eq, Bool-cases, Option-cases,
}
use rclpy.Dict
use rclpy.Dict.{Dict, is_some}
use rclpy.ActionClient.{ActionClient, is_done_status, execute_one_status, execute_status}

-- A list of statuses has one for a goal that says that it is done.
abbrev pub is_finished : ℕ → List (ℕ × ℕ) → Bool
is_finished id = any (λ (m : ℕ × ℕ). m.0 == id && is_done_status m.1)

differs : (a b : ℕ) → (a ≡ b → ⊥) → (a == b) ≡ false
differs a b h = elim (Bool-cases (a == b)) [ inl e ↦ absurd (h (==-eq a b e)) | inr e ↦ e ]

none-ne-some : (w : ℕ) → ◌≡◌ {A = Option ℕ} none (some w) → ⊥
none-ne-some w h = cc

false-ne-true : false ≡ true → ⊥
false-ne-true h = cc

set-alive :
    {A : Type 0} (d : Dict ℕ A) (k w : ℕ) (a : A)
    → is_some (Dict.get d w) ≡ true
    → is_some (Dict.get (Dict.set d k a) w) ≡ true
set-alive d k w a alive = elim (Bool-cases (k == w)) [
  | inl e ↦ rw (Dict.get-set d k w a, e) refl
  | inr e ↦ rw (Dict.get-set d k w a, e) alive
]

del-none : (d : Dict ℕ ℕ) (k j : ℕ) → Dict.get d j ≡ none → Dict.get (Dict.del d k) j ≡ none
del-none d k j h = elim (Bool-cases (k == j)) [
  | inl e ↦ rw (Dict.get-del d k j, e) refl
  | inr e ↦ rw (Dict.get-del d k j, e) h
]

module _ {R C E : Type 0} where
  abbrev Tracks : ActionClient R C E → ℕ → ℕ → Type 0
  Tracks c id weak =
      (Dict.get c.goal_handles id ≡ some weak) × (is_some (Dict.get c.handles weak) ≡ true)

  dead_tracked :
      (u id w weak : ℕ) (c : ActionClient R C E)
      → Dict.get c.goal_handles id ≡ some weak
      → is_some (Dict.get c.handles weak) ≡ true
      → Dict.get c.goal_handles u ≡ some w
      → Dict.get c.handles w ≡ none
      → u ≡ id
      → ⊥
  dead_tracked u id w weak c tracked alive e dead same =
      let both : some w ≡ some weak = sym e ∙ ap (Dict.get c.goal_handles) same ∙ tracked in
      let equal : w ≡ weak = cc in
      let b : false ≡ true =
        sym (ap is_some dead) ∙ ap (λ x. is_some (Dict.get c.handles x)) equal ∙ alive in
      false-ne-true b

  one_status :
      (u status id weak : ℕ) (c : ActionClient R C E)
      → Tracks c id weak
      → let c' = (execute_one_status u status c).1 in
        (is_some (Dict.get c'.handles weak) ≡ true)
        × (Dict.get c'.goal_handles id
            ≡ (if u == id && is_done_status status then none else some weak))
  unfolding execute_one_status
  one_status u status id weak c (tracked, alive) = elim (Option-cases (Dict.get c.goal_handles u)) [
    | inl e ↦
        let other : (u == id) ≡ false =
          differs u id
            (λ same. none-ne-some weak (sym e ∙ ap (Dict.get c.goal_handles) same ∙ tracked)) in
        rw (e, execute_one_status, other) (alive, tracked)
    | inr (w, e) ↦ elim (Option-cases (Dict.get c.handles w)) [
      | inl dead ↦
          let other : (u == id) ≡ false =
            differs u id (λ same. dead_tracked u id w weak c tracked alive e dead same) in
          rw (e, dead, execute_one_status, Dict.get-del c.goal_handles u id, other) (alive, tracked)
      | inr (handle, live) ↦
          let kept = set-alive c.handles w weak (record handle { status = status }) alive in
          elim (Bool-cases (is_done_status status)) [
            | inr d ↦
                rw (e, live, d, execute_one_status)
                  (
                    kept,
                    elim (Bool-cases (u == id)) [ inl k ↦ rw k tracked | inr k ↦ rw k tracked ],
                  )
            | inl d ↦
                rw (e, live, d, execute_one_status, Dict.get-del c.goal_handles u id)
                  (kept, elim (Bool-cases (u == id)) [ inl k ↦ rw k refl | inr k ↦ rw k tracked ])
          ]
    ]
  ]

  -- No status makes a goal tracked.
  one_untracked :
      (u status id : ℕ) (c : ActionClient R C E)
      → Dict.get c.goal_handles id ≡ none
      → Dict.get (execute_one_status u status c).1.goal_handles id ≡ none
  unfolding execute_one_status
  one_untracked u status id c h = elim (Option-cases (Dict.get c.goal_handles u)) [
    | inl e ↦ rw (e, execute_one_status) h
    | inr (w, e) ↦ elim (Option-cases (Dict.get c.handles w)) [
      | inl dead ↦ rw (e, dead, execute_one_status) (del-none c.goal_handles u id h)
      | inr (handle, live) ↦ elim (Bool-cases (is_done_status status)) [
        | inr d ↦ rw (e, live, d, execute_one_status) h
        | inl d ↦ rw (e, live, d, execute_one_status) (del-none c.goal_handles u id h)
      ]
    ]
  ]

  untracked_stays :
      (l : List (ℕ × ℕ)) (id : ℕ) (c : ActionClient R C E)
      → Dict.get c.goal_handles id ≡ none
      → Dict.get (execute_status l c).1.goal_handles id ≡ none
  unfolding execute_status
  untracked_stays [] id c h = h
  untracked_stays ((u, status) ∷ l) id c h =
      untracked_stays l id (execute_one_status u status c).1 (one_untracked u status id c h)

  -- A goal whose handle is alive and tracked stays so through a list of statuses, unless one of them says that this
  -- goal succeeded, was cancelled or aborted; then it is not tracked any more.
  pub execute_status-tracks :
      (l : List (ℕ × ℕ)) (id weak : ℕ) (c : ActionClient R C E)
      → Dict.get c.goal_handles id ≡ some weak
      → is_some (Dict.get c.handles weak) ≡ true
      → Dict.get (execute_status l c).1.goal_handles id
        ≡ (if is_finished id l then none else some weak)
  unfolding execute_status
  execute_status-tracks [] id weak c tracked alive = tracked
  execute_status-tracks ((u, status) ∷ l) id weak c tracked alive =
      let (live, one) = one_status u status id weak c (tracked, alive) in
      elim (Bool-cases (u == id && is_done_status status)) [
        | inr e ↦
            rw e
              (execute_status-tracks l id weak (execute_one_status u status c).1 (rw e at one) live)
        | inl e ↦ rw e (untracked_stays l id (execute_one_status u status c).1 (rw e at one))
      ]
