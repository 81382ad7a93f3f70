-- ===== src/TimeSource/Attached.antt =====
-- A time source that is attached to a node whose parameter use_sim_time is true
-- (rclpy/rclpy/time_source.py, `attach_node`).
use rclpy.Prelude.{
  ℕ, ◌≡◌, inl, inr, refl, ap, true, none, some, Result, ok, Bool-cases, if◌then◌else◌,
}
use rclpy.Parameter
use rclpy.Parameter.{Parameter, Value}
use rclpy.NodeParameters.{Exception, Node, has_parameter, get_parameter}
use rclpy.NodeParameters.Apply.{FloatOps}
use rclpy.TimeSource.{
  TimeSource, use_sim_time, set_ros_time_is_active, refer, adopt, use_sim_time_param, listen,
  attach_node,
}
use rclpy.TimeSource.Synchronized.{IsSynchronized, set_same, set_on, refer-exact}

module _ {F : Type 0} (ops : FloatOps F) (n : ℕ) (node : Node F) (p : Parameter F) where
  param_there :
      has_parameter node use_sim_time ≡ true
      → get_parameter node use_sim_time ≡ ok p
      → use_sim_time_param ops node ≡ (ok p, node)
  unfolding use_sim_time_param
  param_there h g = rw (h, use_sim_time_param) (rw g refl)

  attach_node-adopt :
      (self : TimeSource)
      → use_sim_time_param ops node ≡ (ok p, node)
      → attach_node ops n node self ≡ (ok tt, (adopt p (refer n self), listen (refer n self) node))
  unfolding attach_node
  attach_node-adopt self e =
      rw (e, attach_node)
        (ap
          (λ (after : Result Exception (Parameter F) × Node F).
            (ok tt, (adopt p (refer n self), listen (refer n self) after.1)))
          e)

  adopt-true :
      (self : TimeSource)
      → p.type_ ≡ Parameter.ParameterType.bool
      → p.value ≡ Value.bool true
      → adopt p self ≡ set_ros_time_is_active (λ m. true) true self
  unfolding adopt
  adopt-true self t v = rw (t, v) refl

  subscribes :
      (self : TimeSource)
      → let s =
          set_ros_time_is_active
            (λ m. true)
            true
            (record self { clock_sub = none; node = some n }) in
        (s.is_active ≡ true)
        × (s.node ≡ some n)
        × (s.clock_sub ≡ (if self.is_active then none else some n))
  subscribes self =
      let self' : TimeSource = record self { clock_sub = none; node = some n } in
      elim (Bool-cases self.is_active) [
        | inl e ↦ rw (set_same (λ m. true) self' true e) (e, refl, rw e refl)
        | inr e ↦ rw (set_on (λ m. true) self' e) (refl, refl, rw e refl)
      ]

  -- A well-formed time source is attached to a node that has the parameter use_sim_time, and it is
  -- true. Then the source is active and refers to the node. It has subscribed to the clock topic on
  -- the node if it was not active before; if it was, for a node before this one, it has no
  -- subscription at all, so that its clocks stand still.
  pub attach_node-subscription :
      (self : TimeSource)
      → IsSynchronized self
      → has_parameter node use_sim_time ≡ true
      → get_parameter node use_sim_time ≡ ok p
      → p.type_ ≡ Parameter.ParameterType.bool
      → p.value ≡ Value.bool true
      → let (r, (s, node')) = attach_node ops n node self in
        (r ≡ ok tt)
        × (s.is_active ≡ true)
        × (s.node ≡ some n)
        × (s.clock_sub ≡ (if self.is_active then none else some n))
  attach_node-subscription self v h g t k =
      let after = subscribes self in
      rw
        (
          attach_node-adopt self (param_there h g),
          refer-exact n self v,
          adopt-true (record self { clock_sub = none; node = some n }) t k,
        )
        (refl, after.0, after.1, after.2)
