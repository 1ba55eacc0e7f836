-- ===== src/Interrupt/Plan/Tests.antt =====
-- The plan of two bindings is accepted.
use grevir_core.Common.{take, refl}
use grevir_core.Interrupt.Events.Laws.{all_events}
use grevir_core.Interrupt.Plan.Laws.{BindsOnce, binding_plan-BindsOnce}
use grevir_core.Interrupt.Plan.Samples.{
  two_descriptors, in_front, allocation, two_demands, binding_plan-two,
}

binding_plan-BindsOnce_example :
    BindsOnce
      (all_events two_descriptors)
      allocation.problem
      (take allocation.plan.count allocation.plan.bindings)
binding_plan-BindsOnce_example =
    binding_plan-BindsOnce in_front (λ xs ys. refl) two_descriptors allocation two_demands
      allocation.plan binding_plan-two
