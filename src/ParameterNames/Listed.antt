-- ===== src/ParameterNames/Listed.antt =====
-- list_parameters (rclpy/rclpy/node.py): the names and the prefixes in its result.
use rclpy.Prelude.{
  ℕ, ◌≤◌, ◌≡◌, ◌↔◌, ◌⊎◌, refl, sym, ap, ◌∙◌, inl, inr, Bool, true, false, ◌||◌, none, some, List,
  [], ◌∷◌, ◌++◌, any, keep, length, append_assoc, append-nil, Bool-cases, Option-cases, arith,
}
use rclpy.ParameterNames.{
  Text, text_eq, text_eq_iff, prefix_matches, is_listed, before_last_separator, holds, add_prefix,
  list_loop, list_parameters,
}
use rclpy.ParameterNames.Segments.{segments, Covers, depth_iff, prefix_matches_iff}

abbrev pub SomeCovers : ℕ → Text → List Text → Type 0
SomeCovers depth s [] = ⊥
SomeCovers depth s (p ∷ ps) = Covers depth s p ⊎ SomeCovers depth s ps

-- What it means that a name is asked for.
abbrev pub Asked : List Text → ℕ → Text → Type 0
Asked [] depth s = (depth ≡ 0) ⊎ (length (segments s) ≤ depth)
Asked (p ∷ ps) depth s = SomeCovers depth s (p ∷ ps)

or-true : (a b : Bool) → b ≡ true → a || b ≡ true
or-true true b h = refl
or-true false b h = h

or-false : (a : Bool) → a ≡ a || false
or-false true = refl
or-false false = refl

or_assoc : (a b c : Bool) → (a || b) || c ≡ a || (b || c)
or_assoc true b c = refl
or_assoc false b c = refl

any_iff :
    (depth : ℕ) (s : Text) (ps : List Text)
    → (any (prefix_matches depth s) ps ≡ true) ↔ SomeCovers depth s ps
any_iff depth s [] = (λ h. cc, λ h. absurd h)
any_iff depth s (p ∷ ps) =
    let (covers, matches) = any_iff depth s ps in
    let (covers_p, matches_p) = prefix_matches_iff depth s p in
    (
      λ h. elim (Bool-cases (prefix_matches depth s p)) [
        | inl e ↦ inl (covers_p e)
        | inr e ↦ inr (covers (rw e at h))
      ],
      λ c. elim c [ inl c ↦ rw (matches_p c) refl | inr c ↦ or-true _ _ (matches c) ],
    )

-- The parent of a name, if it has one, is `t`.
abbrev pub is_parent : Text → Text → Bool
is_parent t s = elim (before_last_separator s) [ none ↦ false | some p ↦ text_eq p t ]

-- No text occurs twice.
abbrev pub DistinctTexts : List Text → Type 0
DistinctTexts [] = Unit
DistinctTexts (t ∷ ts) = (holds t ts ≡ false) × DistinctTexts ts

is_listed_iff :
    (prefixes : List Text) (depth : ℕ) (s : Text)
    → (is_listed prefixes depth s ≡ true) ↔ Asked prefixes depth s
unfolding is_listed
is_listed_iff [] depth s = depth_iff depth s
is_listed_iff (p ∷ ps) depth s = any_iff depth s (p ∷ ps)

holds-append :
    (t : Text) (xs : List Text) (y : Text) → holds t (xs ++ y ∷ []) ≡ holds t xs || text_eq y t
holds-append t [] y = ground arith
holds-append t (x ∷ xs) y = ground (arith, holds-append t xs y)

text_eq-sym : (a b : Text) → text_eq a b ≡ true → text_eq b a ≡ true
text_eq-sym a b h = (text_eq_iff b a).1 (sym ((text_eq_iff a b).0 h))

-- A text that is there under another name is there.
holds-subst :
    (t p : Text) (xs : List Text) → text_eq p t ≡ true → holds p xs ≡ true → holds t xs ≡ true
holds-subst t p xs e h = rw (sym ((text_eq_iff p t).0 e)) h

DistinctTexts-append :
    (xs : List Text) (y : Text)
    → DistinctTexts xs
    → holds y xs ≡ false
    → DistinctTexts (xs ++ y ∷ [])
DistinctTexts-append [] y d h = (refl, tt)
DistinctTexts-append (x ∷ xs) y (fresh, d) h = elim (Bool-cases (text_eq x y)) [
  | inl e ↦ (let c : true ≡ false = rw e at h in cc)
  | inr e ↦
      let other : text_eq y x ≡ false = not_sym x y e in
      (rw (holds-append x xs y, fresh, other) refl, DistinctTexts-append xs y d (rw e at h))
]
  where
    not_sym : (a b : Text) → text_eq a b ≡ false → text_eq b a ≡ false
    not_sym a b h = elim (Bool-cases (text_eq b a)) [
      | inl e ↦ (let c : true ≡ false = sym (text_eq-sym b a e) ∙ h in cc)
      | inr e ↦ e
    ]

is_parent-some : (t s p : Text) → before_last_separator s ≡ some p → is_parent t s ≡ text_eq p t
is_parent-some t s p e = rw (e, is_parent) refl

holds_already :
    (t p : Text) (xs : List Text) → holds p xs ≡ true → holds t xs ≡ holds t xs || text_eq p t
holds_already t p xs old = elim (Bool-cases (text_eq p t)) [
  | inl same ↦ rw (same, holds-subst t p xs same old) refl
  | inr other ↦ rw other (or-false (holds t xs))
]

add_prefix-holds :
    (t s : Text) (fp : List Text) → holds t (add_prefix s fp) ≡ holds t fp || is_parent t s
unfolding add_prefix
add_prefix-holds t s fp = elim (Option-cases (before_last_separator s)) [
  | inl e ↦ rw (e, add_prefix) (ground arith)
  | inr (p, e) ↦ elim (Bool-cases (holds p fp)) [
    | inr new ↦
        rw (e, new, add_prefix)
          (holds-append t fp p ∙ ap (λ (b : Bool). holds t fp || b) (sym (is_parent-some t s p e)))
    | inl old ↦
        rw (e, old, add_prefix)
          (holds_already t p fp old
            ∙ ap (λ (b : Bool). holds t fp || b) (sym (is_parent-some t s p e)))
  ]
]

add_prefix-Distinct :
    (s : Text) (fp : List Text) → DistinctTexts fp → DistinctTexts (add_prefix s fp)
unfolding add_prefix
add_prefix-Distinct s fp d = elim (Option-cases (before_last_separator s)) [
  | inl e ↦ rw (e, add_prefix) d
  | inr (p, e) ↦ elim (Bool-cases (holds p fp)) [
    | inr new ↦ rw (e, new, add_prefix) (DistinctTexts-append fp p d new)
    | inl old ↦ rw (e, old, add_prefix) d
  ]
]

module _ (prefixes : List Text) (depth : ℕ) where
  loop_in :
      (s : Text) (names found fp : List Text)
      → is_listed prefixes depth s ≡ true
      → list_loop prefixes depth (s ∷ names) found fp
        ≡ list_loop prefixes depth names (found ++ s ∷ []) (add_prefix s fp)
  unfolding list_loop
  loop_in s names found fp e = rw (e, list_loop) refl

  loop_out :
      (s : Text) (names found fp : List Text)
      → is_listed prefixes depth s ≡ false
      → list_loop prefixes depth (s ∷ names) found fp ≡ list_loop prefixes depth names found fp
  unfolding list_loop
  loop_out s names found fp e = rw (e, list_loop) refl

  -- What the loop adds to what it found before.
  loop-exact :
      (names found fp : List Text)
      → DistinctTexts fp
      → let r = list_loop prefixes depth names found fp in
        let listed = keep (is_listed prefixes depth) names in
        (r.0 ≡ found ++ listed)
        × ((t : Text) → holds t r.1 ≡ holds t fp || any (is_parent t) listed)
        × DistinctTexts r.1
  unfolding list_loop
  loop-exact [] found fp d = (sym (append-nil found), λ t. or-false (holds t fp), d)
  loop-exact (s ∷ names) found fp d = elim (Bool-cases (is_listed prefixes depth s)) [
    | inr e ↦ rw (loop_out s names found fp e, e) (loop-exact names found fp d)
    | inl e ↦
        let listed = keep (is_listed prefixes depth) names in
        let (a, b, c) =
          loop-exact names (found ++ s ∷ []) (add_prefix s fp) (add_prefix-Distinct s fp d) in
        rw (loop_in s names found fp e, e)
          (
            a ∙ append_assoc found (s ∷ []) listed,
            λ t.
                b t
                ∙ ap (λ (x : Bool). x || any (is_parent t) listed) (add_prefix-holds t s fp)
                ∙ or_assoc (holds t fp) (is_parent t s) (any (is_parent t) listed),
            c,
          )
  ]

  -- The names in the result are those of the parameters, in their order, that are asked for: all of them for no
  -- prefixes and depth 0; for no prefixes, those whose path is not longer than the depth; and else those that are one
  -- of the prefixes, or continue one of them by a path that is not longer than the depth, or of any length for depth
  -- 0. The prefixes in the result are the parents of these names, each of them once.
  pub list_parameters-exact :
      (names : List Text)
      → let r = list_parameters prefixes depth names in
        (r.0 ≡ keep (is_listed prefixes depth) names)
        × ((s : Text) → (is_listed prefixes depth s ≡ true) ↔ Asked prefixes depth s)
        × ((t : Text) → holds t r.1 ≡ any (is_parent t) r.0)
        × DistinctTexts r.1
  unfolding list_parameters
  list_parameters-exact names =
      let (a, b, c) = loop-exact names [] [] tt in
      (a, is_listed_iff prefixes depth, λ t. b t ∙ ap (any (is_parent t)) (sym a), c)
