-- ===== src/Context/Nodes.antt =====
-- The loop of `Context._cleanup` (rclpy/rclpy/context.py) over a list from which every node that it destroys removes
-- itself.
use rclpy.Prelude.{
  ℕ, zero, suc, ◌*◌, ◌<◌, ◌≤◌, all, all-cons, ◌≡◌, inl, inr, refl, ap, ◌∙◌, Bool, true, false, some,
  none, List, [], ◌∷◌, ◌++◌, length, append_assoc, append-nil, if◌then◌else◌, ◌==◌, ==-eq,
  Bool-cases, arith, contains, remove, Distinct, Distinct-middle, remove-middle, get_elem?,
  get_elem?-middle, get_elem?-length, get_elem?-behind, length-snoc,
}
use rclpy.Context.{Environment, untrack, destroy, cleanup_loop, cleanup_nodes}

module _ (alive : ℕ → Bool) where
  -- The nodes that are destroyed, of a list: the one behind a node that goes is passed over.
  pub destroyed : List ℕ → List ℕ
  destroyed [] = []
  destroyed (x ∷ []) = if alive x then x ∷ [] else []
  destroyed (x ∷ y ∷ xs) =
      let rest = destroyed xs in let all = destroyed (y ∷ xs) in if alive x then x ∷ rest else all

  -- The references that stay on the list.
  pub left : List ℕ → List ℕ
  left [] = []
  left (x ∷ []) = if alive x then [] else x ∷ []
  left (x ∷ y ∷ xs) =
      let rest = left xs in let all = left (y ∷ xs) in if alive x then y ∷ rest else x ∷ all

  untrack-remove : (x : ℕ) (xs : List ℕ) → alive x ≡ true → untrack alive x xs ≡ remove x xs
  unfolding untrack
  untrack-remove x [] h = refl
  untrack-remove x (y ∷ xs) h = elim (Bool-cases (y == x)) [
    | inl e ↦ rw (e, ap alive (==-eq y x e) ∙ h) refl
    | inr e ↦ ground (arith, e, untrack-remove x xs h)
  ]

  remove-missing : (x : ℕ) (xs : List ℕ) → contains x xs ≡ false → remove x xs ≡ xs
  remove-missing x [] h = refl
  remove-missing x (y ∷ xs) h = ground (arith, remove-missing x xs, h)

  contains-append_false :
      (x : ℕ) (xs ys : List ℕ)
      → contains x xs ≡ false
      → contains x ys ≡ false
      → contains x (xs ++ ys) ≡ false
  contains-append_false x [] ys h k = k
  contains-append_false x (y ∷ xs) ys h k = ground (arith, contains-append_false x xs ys, h, k)

  contains-behind :
      (xs : List ℕ) (y : ℕ) (ys : List ℕ) → Distinct (xs ++ y ∷ ys) → contains y ys ≡ false
  contains-behind [] y ys d = d.0
  contains-behind (x ∷ xs) y ys d = contains-behind xs y ys d.1

  -- A live node that occurs once takes itself off, at the first of two tries.
  destroy-middle :
      (xs : List ℕ) (y : ℕ) (ys : List ℕ)
      → Distinct (xs ++ y ∷ ys)
      → alive y ≡ true
      → destroy alive y (xs ++ y ∷ ys) ≡ xs ++ ys
  unfolding destroy
  destroy-middle xs y ys d h =
      let before = (Distinct-middle xs y ys d).0 in
      let gone =
        remove-missing y (xs ++ ys)
          (contains-append_false y xs ys before (contains-behind xs y ys d)) in
      rw
        (
          untrack-remove y (xs ++ y ∷ ys) h,
          remove-middle xs y ys before,
          untrack-remove y (xs ++ ys) h,
        )
        gone

  -- The loop behind `before`, with fuel for the rest.
  abbrev Sweeps : ℕ → List ℕ → List ℕ → Type 0
  Sweeps fuel before rest =
      cleanup_loop alive fuel (length before) (before ++ rest)
      ≡ some (destroyed rest, before ++ left rest)

  shift :
      (fuel x : ℕ) (before rest : List ℕ)
      → Sweeps fuel (before ++ x ∷ []) rest
      → cleanup_loop alive fuel (suc (length before)) (before ++ x ∷ rest)
        ≡ some (destroyed rest, before ++ x ∷ left rest)
  shift fuel x before rest h =
      rw
        (
          length-snoc before x,
          append_assoc before (x ∷ []) rest,
          append_assoc before (x ∷ []) (left rest),
        )
        at h

  loop_stop :
      (fuel i : ℕ) (refs : List ℕ)
      → get_elem? refs i ≡ none
      → cleanup_loop alive (suc fuel) i refs ≡ some ([], refs)
  unfolding cleanup_loop
  loop_stop fuel i refs h = rw (h, cleanup_loop) refl

  loop_skip :
      (fuel i x : ℕ) (refs : List ℕ)
      → get_elem? refs i ≡ some x
      → alive x ≡ false
      → cleanup_loop alive (suc fuel) i refs ≡ cleanup_loop alive fuel (suc i) refs
  unfolding cleanup_loop
  loop_skip fuel i x refs h a = rw (h, cleanup_loop, a) refl

  loop_go :
      (fuel i x : ℕ) (refs : List ℕ) (d l : List ℕ)
      → get_elem? refs i ≡ some x
      → alive x ≡ true
      → cleanup_loop alive fuel (suc i) (destroy alive x refs) ≡ some (d, l)
      → cleanup_loop alive (suc fuel) i refs ≡ some (x ∷ d, l)
  unfolding cleanup_loop
  loop_go fuel i x refs d l h a e = rw (h, cleanup_loop, a, e) refl

  loop-sweep :
      (fuel : ℕ) (before rest : List ℕ)
      → Distinct (before ++ rest)
      → length rest < fuel
      → Sweeps fuel before rest
  unfolding destroyed left
  loop-sweep zero before rest d enough = absurd (omega (arith, enough))
  loop-sweep (suc fuel) before [] d enough =
      loop_stop fuel (length before) (before ++ [])
        (rw (append-nil before) (get_elem?-length before))
  loop-sweep (suc zero) before (x ∷ xs) d enough = absurd (omega (arith, enough))
  loop-sweep (suc (suc fuel)) before (x ∷ []) d enough = elim (Bool-cases (alive x)) [
    | inl a ↦ rw a (
        loop_go (suc fuel) (length before) x (before ++ x ∷ []) [] (before ++ [])
          (get_elem?-middle before x []) a
          (rw (destroy-middle before x [] d a, append-nil before)
            (loop_stop fuel (suc (length before)) before (get_elem?-behind before))))
    | inr a ↦ rw a (
        loop_skip (suc fuel) (length before) x (before ++ x ∷ []) (get_elem?-middle before x []) a
        ∙ shift (suc fuel) x before [] (
            loop-sweep (suc fuel) (before ++ x ∷ []) [] (rw (append-nil (before ++ x ∷ [])) d)
              (omega arith)))
  ]
  loop-sweep (suc (suc fuel)) before (x ∷ y ∷ xs) d enough = elim (Bool-cases (alive x)) [
    | inl a ↦ rw a (
        loop_go (suc fuel) (length before) x (before ++ x ∷ y ∷ xs) (destroyed xs)
          (before ++ y ∷ left xs) (get_elem?-middle before x (y ∷ xs)) a
          (rw (destroy-middle before x (y ∷ xs) d a) (
            shift (suc fuel) y before xs (
              loop-sweep (suc fuel) (before ++ y ∷ []) xs
                (rw (append_assoc before (y ∷ []) xs) (Distinct-middle before x (y ∷ xs) d).1)
                (omega (arith, enough))))))
    | inr a ↦ rw a (
        loop_skip (suc fuel) (length before) x (before ++ x ∷ y ∷ xs)
          (get_elem?-middle before x (y ∷ xs)) a
        ∙ shift (suc fuel) x before (y ∷ xs) (
            loop-sweep (suc fuel) (before ++ x ∷ []) (y ∷ xs)
              (rw (append_assoc before (x ∷ []) (y ∷ xs)) d) (omega (arith, enough))))
  ]

-- Of live nodes, about a half.
destroyed-half :
    (alive : ℕ → Bool) (xs : List ℕ)
    → all alive xs ≡ true
    → (length xs ≤ 2 * length (destroyed alive xs))
      × (2 * length (destroyed alive xs) ≤ suc (length xs))
unfolding destroyed
destroyed-half alive [] h = (omega arith, omega arith)
destroyed-half alive (x ∷ []) h = ground (arith, h)
destroyed-half alive (x ∷ y ∷ xs) h =
    let (a, h') = all-cons alive x (y ∷ xs) h in
    let (b, h'') = all-cons alive y xs h' in
    let (low, high) = destroyed-half alive xs h'' in
    rw a (omega (arith, low, high), omega (arith, low, high))

-- The loop over the nodes of a context comes to its end, whichever of the references are alive, where no node is
-- tracked twice. It goes down the list and passes over the reference behind every node that it destroys, and the
-- nodes passed over are still tracked when it is done: where all the nodes are alive, it destroys every other one, a
-- half of them, rounded up.
pub cleanup_nodes-sweep :
    (env : Environment) (refs : List ℕ)
    → Distinct refs
    → (cleanup_loop env.node_alive (suc (length refs)) 0 refs
        ≡ some (destroyed env.node_alive refs, left env.node_alive refs))
      × (cleanup_nodes env refs ≡ (destroyed env.node_alive refs, left env.node_alive refs))
      × (all env.node_alive refs ≡ true
          → (length refs ≤ 2 * length (cleanup_nodes env refs).0)
            × (2 * length (cleanup_nodes env refs).0 ≤ suc (length refs)))
unfolding cleanup_nodes
cleanup_nodes-sweep env refs d =
    let ends = loop-sweep env.node_alive (suc (length refs)) [] refs d (omega arith) in
    (
      ends,
      rw (ends, cleanup_nodes) refl,
      λ h. rw (ends, cleanup_nodes) (destroyed-half env.node_alive refs h),
    )
