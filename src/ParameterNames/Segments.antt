-- ===== src/ParameterNames/Segments.antt =====
-- Names of parameters as paths: the texts between their separators (rclpy/rclpy/node.py, list_parameters).
use rclpy.Prelude.{
  ℕ, suc, ◌+◌, ◌≤◌, ◌≡◌, ◌↔◌, ◌⊎◌, refl, sym, ap, ◌∙◌, inl, inr, true, false, ◌||◌, List, [], ◌∷◌,
  ◌++◌, length, length-append, append_assoc, if◌then◌else◌, ◌==◌, ==-eq, ltb, Bool-cases, arith,
}
use rclpy.ParameterNames.{
  Text, separator, text_eq, text_eq_iff, starts_with, drop, count_separators, prefix_matches,
}

-- One more code point in front of the first segment.
abbrev pub push : ℕ → List Text → List Text
push x [] = (x ∷ []) ∷ []
push x (w ∷ ws) = (x ∷ w) ∷ ws

-- The path of a name.
pub segments : Text → List Text
segments [] = [] ∷ []
segments (x ∷ s) = let rest = segments s in if x == separator then [] ∷ rest else push x rest

length-push : (x : ℕ) (w : Text) (ws : List Text) → length (push x (w ∷ ws)) ≡ length (w ∷ ws)
length-push x w ws = refl

segments-cons : (s : Text) → (w : Text) × (ws : List Text) × (segments s ≡ w ∷ ws)
unfolding segments
segments-cons [] = ([], [], refl)
segments-cons (x ∷ s) = elim (Bool-cases (x == separator)) [
  | inl e ↦ ([], segments s, rw e refl)
  | inr e ↦ let (w, ws, h) = segments-cons s in (x ∷ w, ws, rw (e, h) refl)
]

pub count-segments : (s : Text) → suc (count_separators s) ≡ length (segments s)
unfolding count_separators segments
count-segments [] = refl
count-segments (x ∷ s) = elim (Bool-cases (x == separator)) [
  | inl e ↦ rw e (omega (arith, count-segments s))
  | inr e ↦
      let (w, ws, h) = segments-cons s in rw (e, h) (count-segments s ∙ ap (length {A = Text}) h)
]

push-append :
    (x : ℕ) (w : Text) (ws vs : List Text) → push x ((w ∷ ws) ++ vs) ≡ push x (w ∷ ws) ++ vs
push-append x w ws vs = refl

-- A separator between two names joins their paths.
pub segments-append : (p r : Text) → segments (p ++ separator ∷ r) ≡ segments p ++ segments r
unfolding segments
segments-append [] r = refl
segments-append (x ∷ p) r = elim (Bool-cases (x == separator)) [
  | inl e ↦ rw e (ap (λ (l : List Text). [] ∷ l) (segments-append p r))
  | inr e ↦ let (w, ws, h) = segments-cons p in rw (e, segments-append p r, h) refl
]

pub starts_with-drop : (p s : Text) → starts_with p s ≡ true → s ≡ p ++ drop (length p) s
unfolding starts_with drop
starts_with-drop [] s h = refl
starts_with-drop (y ∷ p) [] h = cc
starts_with-drop (y ∷ p) (x ∷ s) h = ground (arith, starts_with-drop p s, h)

pub starts_with-append : (p r : Text) → starts_with p (p ++ r) ≡ true
unfolding starts_with
starts_with-append [] r = refl
starts_with-append (x ∷ p) r = ground (arith, starts_with-append p r)

pub drop-append : (p r : Text) → drop (length p) (p ++ r) ≡ r
unfolding drop
drop-append [] r = refl
drop-append (x ∷ p) r = drop-append p r

-- What it means that a name is covered by a prefix: it is the prefix, or lies below it, not deeper than allowed.
abbrev pub Covers : ℕ → Text → Text → Type 0
Covers depth s p =
    (s ≡ p)
    ⊎ ((r : Text) × (s ≡ p ++ separator ∷ r)
        × (segments s ≡ segments p ++ segments r)
        × ((depth ≡ 0) ⊎ (length (segments r) ≤ depth)))

pub depth_iff :
    (depth : ℕ) (r : Text)
    → (depth == 0 || ltb (count_separators r) depth ≡ true)
      ↔ ((depth ≡ 0) ⊎ (length (segments r) ≤ depth))
depth_iff depth r = (
  λ h. elim (Bool-cases (depth == 0)) [
    | inl e ↦ inl (==-eq depth 0 e)
    | inr e ↦ inr (ground (arith, h, e, count-segments r))
  ],
  λ h. ground (arith, h, count-segments r),
)

starts_below : (p r : Text) → starts_with (p ++ separator ∷ []) (p ++ separator ∷ r) ≡ true
starts_below p r =
    rw (sym (append_assoc p (separator ∷ []) r)) (starts_with-append (p ++ separator ∷ []) r)

length_below : (p : Text) → length p + 1 ≡ length (p ++ separator ∷ [])
length_below p = omega (arith, length-append p (separator ∷ []))

drop_below : (p r : Text) → drop (length p + 1) (p ++ separator ∷ r) ≡ r
drop_below p r =
    rw (length_below p, sym (append_assoc p (separator ∷ []) r))
      (drop-append (p ++ separator ∷ []) r)

-- A name that starts with a prefix and a separator lies below it.
below :
    (s p : Text)
    → starts_with (p ++ separator ∷ []) s ≡ true
    → s ≡ p ++ separator ∷ drop (length p + 1) s
below s p h = rw (length_below p) (
    starts_with-drop (p ++ separator ∷ []) s h
    ∙ append_assoc p (separator ∷ []) (drop (length (p ++ separator ∷ [])) s))

pub prefix_matches_iff :
    (depth : ℕ) (s p : Text) → (prefix_matches depth s p ≡ true) ↔ Covers depth s p
unfolding prefix_matches
prefix_matches_iff depth s p = (covers, matches)
  where
    covers : prefix_matches depth s p ≡ true → Covers depth s p
    covers h = elim (Bool-cases (text_eq s p)) [
      | inl e ↦ inl ((text_eq_iff s p).0 e)
      | inr e ↦ elim (Bool-cases (starts_with (p ++ separator ∷ []) s)) [
        | inr o ↦ (let c : false ≡ true = rw (e, o) at h in cc)
        | inl o ↦
            let r = drop (length p + 1) s in
            inr (
              r,
              below s p o,
              ap segments (below s p o) ∙ segments-append p r,
              (depth_iff depth r).0 (rw (e, o) at h),
            )
      ]
    ]

    matches : Covers depth s p → prefix_matches depth s p ≡ true
    matches (inl e) = rw ((text_eq_iff s p).1 e) refl
    matches (inr (r, e, _, d)) = elim (Bool-cases (text_eq s p)) [
      | inl t ↦ rw t refl
      | inr t ↦
          let st : starts_with (p ++ separator ∷ []) s ≡ true = rw e (starts_below p r) in
          let dr : drop (length p + 1) s ≡ r = rw e (drop_below p r) in
          rw (t, st, dr) ((depth_iff depth r).1 d)
    ]
