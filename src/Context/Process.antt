-- ===== src/Context/Process.antt =====
-- All the contexts of a process (rclpy/rclpy/context.py), which share g_logging_ref_count and the logging of the C
-- library.
use rclpy.Prelude.{
  ℕ, ◌+◌, ◌≡◌, refl, sym, ap, subst, ◌∙◌, Bool, true, false, Option, none, some, List, [], ◌∷◌,
  ◌++◌, All, ok, ltb, arith,
}
use rclpy.Prelude.Int.{ℤ, pos}
use rclpy.Context.{ContextApi, Context, Outcome, new, logging_fini_if_last}
use rclpy.Context.Logging.{
  LoggingWorks, bit, drive, Operation, Operation-Good, logging_fini_if_last-Good,
}

module _ {C : Type 0} where
  -- How many contexts use logging.
  abbrev pub count : List (Context C) → ℕ
  count [] = 0
  count (c ∷ cs) = bit c.logging_initialized + count cs

  count-middle :
      (before : List (Context C)) (c : Context C) (after : List (Context C))
      → count (before ++ c ∷ after) ≡ count (before ++ after) + bit c.logging_initialized
  count-middle [] c after = omega arith
  count-middle (b ∷ before) c after = omega (arith, count-middle before c after)

-- The contexts, the count, and whether the logging of the C library is configured: `none` where it was misused.
pub record World (C : Type 0) : Type 0 where
  pub contexts : List (Context C)
  pub g_logging_ref_count : ℤ
  pub configured : Option Bool

module _ {C : Type 0} (api : ContextApi C) where
  abbrev drive_from : Option Bool → Outcome C (Unit {0}) → Option Bool
  drive_from none o = none
  drive_from (some b) o = drive o.effects b

  -- A context is made, or one of them runs a method.
  pub data Step (w : World C) : World C → Type 0 where
    makes : Step w (record w { contexts = new ∷ w.contexts })
    runs :
        (before : List (Context C)) (c : Context C) (after : List (Context C))
        {o : Outcome C (Unit {0})}
        → w.contexts ≡ before ++ c ∷ after
        → Operation api w.g_logging_ref_count c o
        → Step w (record {
          contexts = before ++ o.self ∷ after;
          g_logging_ref_count = o.g_logging_ref_count;
          configured = drive_from w.configured o;
        })

  pub data Reach : World C → Type 0 where
    here : Reach (record { contexts = []; g_logging_ref_count = pos 0; configured = some false })
    next : {w w' : World C} → Reach w → Step w w' → Reach w'

  pub record IsCounted (w : World C) : Type 0 where
    pub counted : w.g_logging_ref_count ≡ pos (count w.contexts)
    pub driven : w.configured ≡ some (ltb 0 (count w.contexts))

  Step-IsCounted : LoggingWorks api → {w w' : World C} → Step w w' → IsCounted w → IsCounted w'
  unfolding new
  Step-IsCounted works {w} makes v =
      let same : count (new ∷ w.contexts) ≡ count w.contexts = omega arith in
      record {
        counted = v.counted ∙ ap pos (sym same);
        driven = v.driven ∙ ap (λ (n : ℕ). some (ltb 0 n)) (sym same);
      }
  Step-IsCounted works {w} (runs before c after {o} e op) v =
      let k = count (before ++ after) in
      let total : count w.contexts ≡ k + bit c.logging_initialized =
        ap count e ∙ count-middle before c after in
      let total' = count-middle before o.self after in
      let good =
        Operation-Good api works k c
          (subst (λ (g : ℤ). Operation api g c o) (v.counted ∙ ap pos total) op) in
      record {
        counted = good.0 ∙ ap pos (sym total');
        driven = rw (v.driven, total) (good.1 ∙ ap (λ (n : ℕ). some (ltb 0 n)) (sym total'));
      }

  fini_all :
      (k : ℕ) (cs : List (Context C))
      → All
          (λ (c : Context C). (logging_fini_if_last true (pos (k + count cs)) c).result ≡ ok tt)
          cs
  fini_all k [] = tt
  fini_all k (c ∷ cs) =
      let first : k + count (c ∷ cs) ≡ (k + count cs) + bit c.logging_initialized = omega arith in
      let rest : k + count (c ∷ cs) ≡ (k + bit c.logging_initialized) + count cs = omega arith in
      (
        subst (λ (n : ℕ). (logging_fini_if_last true (pos n) c).result ≡ ok tt) (sym first)
            (logging_fini_if_last-Good (k + count cs) c).1,
        subst
            (λ (n : ℕ).
              All (λ (d : Context C). (logging_fini_if_last true (pos n) d).result ≡ ok tt) cs)
            (sym rest) (fini_all (k + bit c.logging_initialized) cs),
      )

  Reach-keeps : LoggingWorks api → {w : World C} → Reach w → IsCounted w
  Reach-keeps works here = record { counted = refl; driven = refl }
  Reach-keeps works (next r s) = Step-IsCounted works s (Reach-keeps works r)

  -- If configuring and finishing the logging of the C library do not raise, then, whatever contexts a process makes,
  -- and however they are initialized, entered, left and shut down, also where user code or the C library's context
  -- raises: g_logging_ref_count is the number of contexts that use logging; the logging of the C library is configured
  -- exactly while there is one, never configured twice and never finished twice; and so _logging_fini never raises.
  pub Reach-IsCounted :
      LoggingWorks api
      → {w : World C} → Reach w
      → (w.g_logging_ref_count ≡ pos (count w.contexts))
        × (w.configured ≡ some (ltb 0 (count w.contexts)))
        × All
            (λ (c : Context C).
              (logging_fini_if_last api.logging_finishes w.g_logging_ref_count c).result ≡ ok tt)
            w.contexts
  Reach-IsCounted works {w} r =
      let v = Reach-keeps works r in
      let same : 0 + count w.contexts ≡ count w.contexts = omega arith in
      (
        v.counted,
        v.driven,
        rw (v.counted, works.finishes)
            (subst
              (λ (n : ℕ).
                All (λ (c : Context C). (logging_fini_if_last true (pos n) c).result ≡ ok tt)
                  w.contexts)
              same (fini_all 0 w.contexts)),
      )
