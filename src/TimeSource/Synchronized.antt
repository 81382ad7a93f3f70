-- ===== src/TimeSource/Synchronized.antt =====
-- The clocks of a time source and the source agree (rclpy/rclpy/time_source.py).
use text.Mathlib.Text.{◌==◌ as str_eq}
use rclpy.Prelude.{
  ℕ, ◌≡◌, ◌≢◌, ◌∙◌, sym, ok-injective, inl, inr, subst, refl, Bool, true, false, Option, none, some,
  List, [], ◌∷◌, map, ok, err, All, ◌==◌, arith, Bool-cases, Option-cases, Result-cases,
}
use rclpy.Prelude.Int.{ℤ, pos}
use rclpy.Duration.{Error}
use rclpy.Time.{ClockType, ros_time, clock_eq, Time}
use rclpy.Parameter
use rclpy.Parameter.{type_eq, Parameter}
use rclpy.NodeParameters.{Node}
use rclpy.NodeParameters.Apply.{FloatOps}
use rclpy.TimeSource.{
  Clock, TimeSource, new, use_sim_time, as_bool, subscribe_to_clock_topic, set_ros_time_is_active,
  detach_node, add_clock, attach_clock, clock_callback, on_parameter_event, adopt, refer,
  use_sim_time_param, attach_node,
}

-- The clock runs on ROS time, shows the source's last time, and is on when the source is.
pub record Agrees (is_active : Bool) (time : ℤ) (c : Clock) : Type 0 where
  pub kind : c.clock_type ≡ ros_time
  pub on : c.ros_time_is_active ≡ is_active
  pub shows : c.ros_time_override ≡ time

-- Every clock agrees and shows this time, as the source does, and there is a subscription only while the source is active, on its node.
pub record IsShowing (shown : ℤ) (self : TimeSource) : Type 0 where
  pub clocks : All (Agrees self.is_active shown) self.associated_clocks
  pub last : self.last_time_set ≡ shown
  pub sub : (n : ℕ) → self.clock_sub ≡ some n → (self.node ≡ some n) × (self.is_active ≡ true)

abbrev pub IsSynchronized : TimeSource → Type 0
IsSynchronized self = IsShowing self.last_time_set self

none≢some : {n : ℕ} → none ≢ some n
none≢some h = cc

switch_all :
    (a b : Bool) (t : ℤ) (cs : List Clock)
    → All (Agrees a t) cs
    → All (Agrees b t) (map (λ (c : Clock). record c { ros_time_is_active = b }) cs)
switch_all a b t [] h = tt
switch_all a b t (c ∷ cs) h =
    (record { kind = h.0.kind; on = refl; shows = h.0.shows }, switch_all a b t cs h.1)

move_all :
    (a : Bool) (s t : ℤ) (cs : List Clock)
    → All (Agrees a s) cs
    → All (Agrees a t) (map (λ (c : Clock). record c { ros_time_override = t }) cs)
move_all a s t [] h = tt
move_all a s t (c ∷ cs) h =
    (record { kind = h.0.kind; on = h.0.on; shows = refl }, move_all a s t cs h.1)

add_all :
    (a : Bool) (t : ℤ) (c : Clock) (cs : List Clock)
    → Agrees a t c
    → All (Agrees a t) cs
    → All (Agrees a t) (add_clock c cs)
unfolding add_clock
add_all a t c [] h k = (h, tt)
add_all a t c (d ∷ ds) h k = elim (Bool-cases (d.ident == c.ident)) [
  | inl e ↦ rw (e, add_clock) (h, k.1)
  | inr e ↦ rw (e, add_clock) (k.0, add_all a t c ds h k.1)
]

subscribed_on :
    (alive : ℕ → Bool) (there sub : Option ℕ) (n : ℕ)
    → ((m : ℕ) → sub ≡ some m → there ≡ some m)
    → subscribe_to_clock_topic alive there sub ≡ some n
    → there ≡ some n
subscribed_on alive there (some m) n h e = h n e
subscribed_on alive none none n h e = cc
subscribed_on alive (some m) none n h e = ground arith

module _ (alive : ℕ → Bool) (self : TimeSource) where
  pub set_same : (b : Bool) → self.is_active ≡ b → set_ros_time_is_active alive b self ≡ self
  unfolding set_ros_time_is_active
  set_same true e = ground arith
  set_same false e = ground arith

  pub set_on :
      self.is_active ≡ false
      → set_ros_time_is_active alive true self ≡ record self {
        is_active = true;
        associated_clocks =
            map (λ (c : Clock). record c { ros_time_is_active = true }) self.associated_clocks;
        clock_sub = subscribe_to_clock_topic alive self.node self.clock_sub;
      }
  unfolding set_ros_time_is_active
  set_on e = ground arith

  set_off :
      self.is_active ≡ true
      → set_ros_time_is_active alive false self ≡ record self {
        is_active = false;
        associated_clocks =
            map (λ (c : Clock). record c { ros_time_is_active = false }) self.associated_clocks;
        clock_sub = none;
      }
  unfolding set_ros_time_is_active
  set_off e = ground arith

  set_active-IsSynchronized :
      {shown : ℤ} (enabled : Bool)
      → IsShowing shown self
      → IsShowing shown (set_ros_time_is_active alive enabled self)
  set_active-IsSynchronized true v = elim (Bool-cases self.is_active) [
    | inl e ↦ rw (set_same true e) v
    | inr e ↦ rw (set_on e) (record {
      clocks = switch_all _ true _ self.associated_clocks v.clocks;
      last = v.last;
      sub = λ n h. (subscribed_on alive self.node self.clock_sub n (λ m k. (v.sub m k).0) h, refl);
    })
  ]
  set_active-IsSynchronized false v = elim (Bool-cases self.is_active) [
    | inr e ↦ rw (set_same false e) v
    | inl e ↦ rw (set_off e) (record {
      clocks = switch_all _ false _ self.associated_clocks v.clocks;
      last = v.last;
      sub = λ n h. absurd (none≢some h);
    })
  ]

detach_node-IsSynchronized :
    {shown : ℤ} (self : TimeSource) → IsShowing shown self → IsShowing shown (detach_node self)
unfolding detach_node
detach_node-IsSynchronized self v = record {
  clocks = v.clocks;
  last = v.last;
  sub = λ n h. absurd (none≢some h);
}

clock_eq_sound : (c d : ClockType) → clock_eq c d ≡ true → c ≡ d
unfolding clock_eq
clock_eq_sound c d h = ground arith

err≢ok : {x : Error} {s : TimeSource} → err x ≢ ok s
err≢ok h = cc

attach_clock-IsSynchronized :
    {shown : ℤ} (c : Clock) (self next : TimeSource)
    → attach_clock c self ≡ ok next
    → IsShowing shown self
    → IsShowing shown next
unfolding attach_clock
attach_clock-IsSynchronized c self next h v = elim (Bool-cases (clock_eq c.clock_type ros_time)) [
  | inr e ↦ absurd (err≢ok (rw (e, attach_clock) at h))
  | inl e ↦ subst (IsShowing _) (ok-injective (rw (e, attach_clock) at h)) (record {
    clocks =
        add_all _ _ _ self.associated_clocks
          (record { kind = clock_eq_sound c.clock_type ros_time e; on = refl; shows = v.last })
          v.clocks;
    last = v.last;
    sub = v.sub;
  })
]

clock_callback-IsSynchronized :
    {shown : ℤ} (t : Time) (self : TimeSource)
    → IsShowing shown self
    → IsShowing t.nanoseconds (clock_callback t self)
unfolding clock_callback
clock_callback-IsSynchronized t self v = record {
  clocks = move_all _ _ _ self.associated_clocks v.clocks;
  last = refl;
  sub = v.sub;
}

module _ {F : Type 0} where
  on_parameter_event-IsSynchronized :
      {shown : ℤ} (alive : ℕ → Bool) (ps : List (Parameter F)) (self : TimeSource)
      → IsShowing shown self
      → IsShowing shown (on_parameter_event alive ps self).1
  unfolding on_parameter_event
  on_parameter_event-IsSynchronized alive [] self v = v
  on_parameter_event-IsSynchronized alive (p ∷ ps) self v =
      let rest = on_parameter_event-IsSynchronized alive ps self v in
      elim (Bool-cases (str_eq p.name use_sim_time)) [
        | inr e ↦ rw (e, on_parameter_event) rest
        | inl e ↦ elim (Bool-cases (type_eq p.type_ Parameter.ParameterType.bool)) [
          | inl k ↦
              rw (e, on_parameter_event)
                (rw k (set_active-IsSynchronized alive self (as_bool p.value) v))
          | inr k ↦ rw (e, on_parameter_event) (rw k v)
        ]
      ]

  adopt-IsSynchronized :
      {shown : ℤ} (p : Parameter F) (self : TimeSource)
      → IsShowing shown self
      → IsShowing shown (adopt p self)
  unfolding adopt
  adopt-IsSynchronized p self v = elim (Bool-cases (type_eq p.type_ Parameter.ParameterType.bool)) [
    | inl k ↦ rw k (set_active-IsSynchronized (λ n. true) self (as_bool p.value) v)
    | inr k ↦ rw k v
  ]

unsubscribed :
    {shown : ℤ} (self : TimeSource)
    → IsShowing shown self
    → self.node ≡ none
    → self.clock_sub ≡ none
unsubscribed self v e = elim (Option-cases self.clock_sub) [
  | inl k ↦ k
  | inr (m, k) ↦ absurd (none≢some (sym e ∙ (v.sub m k).0))
]

-- Whether a node was there or not, the reference is new and there is no subscription.
pub refer-exact :
    {shown : ℤ} (n : ℕ) (self : TimeSource)
    → IsShowing shown self
    → refer n self ≡ record self { clock_sub = none; node = some n }
unfolding refer detach_node
refer-exact n self v = elim (Option-cases self.node) [
  | inl e ↦ ground (arith, unsubscribed self v e)
  | inr (old, e) ↦ ground arith
]

refer-IsSynchronized :
    {shown : ℤ} (n : ℕ) (self : TimeSource) → IsShowing shown self → IsShowing shown (refer n self)
refer-IsSynchronized n self v =
    rw (refer-exact n self v)
      (record { clocks = v.clocks; last = v.last; sub = λ m h. absurd (none≢some h) })

module _ {F : Type 0} (ops : FloatOps F) where
  attach_node-IsSynchronized :
      {shown : ℤ} (n : ℕ) (node : Node F) (self : TimeSource)
      → IsShowing shown self
      → IsShowing shown (attach_node ops n node self).1.0
  unfolding attach_node
  attach_node-IsSynchronized n node self v = elim (Result-cases (use_sim_time_param ops node).0) [
    | inl (p, e) ↦
        rw (e, attach_node) (adopt-IsSynchronized p (refer n self) (refer-IsSynchronized n self v))
    | inr (x, e) ↦ rw (e, attach_node) (refer-IsSynchronized n self v)
  ]

  -- What happens to a time source: it is attached to nodes and clocks, hears of parameters and of
  -- messages, and is switched. A call that raises leaves what it had changed.
  -- The number is the time that the clocks should show, that of the last message.
  pub data Step (shown : ℤ) : TimeSource → ℤ → TimeSource → Type 0 where
    switch :
        (alive : ℕ → Bool) (enabled : Bool) (self : TimeSource)
        → Step shown self shown (set_ros_time_is_active alive enabled self)
    attach :
        (n : ℕ) (node : Node F) (self : TimeSource)
        → Step shown self shown (attach_node ops n node self).1.0
    detach : (self : TimeSource) → Step shown self shown (detach_node self)
    clock :
        (c : Clock) (self after : TimeSource)
        → attach_clock c self ≡ ok after
        → Step shown self shown after
    message : (t : Time) (self : TimeSource) → Step shown self t.nanoseconds (clock_callback t self)
    event :
        (alive : ℕ → Bool) (ps : List (Parameter F)) (self : TimeSource)
        → Step shown self shown (on_parameter_event alive ps self).1

  -- What a time source comes to, and the time of the last message until then, 0 before the first.
  pub data Reach (self : TimeSource) : ℤ → TimeSource → Type 0 where
    here : Reach self (pos 0) self
    next :
        {shown shown' : ℤ} {t u : TimeSource}
        → Reach self shown t
        → Step shown t shown' u
        → Reach self shown' u

  Step-IsSynchronized :
      {shown shown' : ℤ} {s t : TimeSource}
      → Step shown s shown' t
      → IsShowing shown s
      → IsShowing shown' t
  Step-IsSynchronized (switch alive enabled self) v = set_active-IsSynchronized alive self enabled v
  Step-IsSynchronized (attach n node self) v = attach_node-IsSynchronized n node self v
  Step-IsSynchronized (detach self) v = detach_node-IsSynchronized self v
  Step-IsSynchronized (clock c self after h) v = attach_clock-IsSynchronized c self after h v
  Step-IsSynchronized (message t self) v = clock_callback-IsSynchronized t self v
  Step-IsSynchronized (event alive ps self) v = on_parameter_event-IsSynchronized alive ps self v

  Reach-from_IsSynchronized :
      {s : TimeSource} {shown : ℤ} {t : TimeSource}
      → Reach s shown t
      → IsShowing (pos 0) s
      → IsShowing shown t
  Reach-from_IsSynchronized here v = v
  Reach-from_IsSynchronized (next r st) v = Step-IsSynchronized st (Reach-from_IsSynchronized r v)

  set_active-told :
      (alive : ℕ → Bool) (b : Bool) (self : TimeSource)
      → (set_ros_time_is_active alive b self).is_active ≡ b
  unfolding set_ros_time_is_active
  set_active-told alive true self = ground arith
  set_active-told alive false self = ground arith

  -- From a new time source, whatever it is attached to, told and switched to, in any order: the source
  -- and each of its clocks show the time of the last message, which is 0 before the first one; each clock
  -- runs on ROS time and is on exactly while the source is active; a subscription is there only while the
  -- source is active, on the node that the source refers to; and a switch makes it what it is told.
  pub Reach-IsSynchronized :
      (ident : ℕ) (shown : ℤ) (t : TimeSource)
      → Reach (new ident) shown t
      → IsShowing shown t
        × ((alive : ℕ → Bool) (b : Bool) → (set_ros_time_is_active alive b t).is_active ≡ b)
  Reach-IsSynchronized ident shown t r = (
    Reach-from_IsSynchronized r
        (record { clocks = tt; last = refl; sub = λ n h. absurd (none≢some h) }),
    λ alive b. set_active-told alive b t,
  )
