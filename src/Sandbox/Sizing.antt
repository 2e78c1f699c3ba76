-- ===== src/Sandbox/Sizing.antt =====
-- The arithmetic of the warm pool's size in pkg/sandboxmatrix/controller.go: the adaptive target,
-- its bound by capacity, and the capacity of the cluster. Numbers are int64.
pub mod Capacity
use k8e.Common.{
  String, ◌≡◌, Bool, ◌&&◌, ◌||◌, Option, none, some, List, [], ◌∷◌, arith, if◌then◌else◌,
}
use k8e.Common.Int.{ℤ, pos, ◌+ℤ◌, ◌*ℤ◌, ◌≤ℤ◌, ◌<ℤ◌, ltb_ℤ, leb_ℤ, eqb_ℤ, div_ℤ, wrap64}
use k8e.Sandbox.Pods.{SandboxConfig}

-- The target starts at `Size`, follows recent cold starts up to `MaxSize`, and stays above `MinSize`.
unfoldable pub adaptive_target : ℤ → ℤ → ℤ → ℤ → ℤ
adaptive_target configured_size min_size max_size boost =
    let base : ℤ = if leb_ℤ configured_size (pos 0) then pos 1 else configured_size in
    if leb_ℤ max_size base
    then base
    else let lo : ℤ = if leb_ℤ min_size (pos 0) then base else min_size in
      let grown : ℤ = if ltb_ℤ base boost then boost else base in
      let raised : ℤ = if ltb_ℤ grown lo then lo else grown in
      if ltb_ℤ max_size raised then max_size else raised

unfoldable pub pool_target_size : ℤ → ℤ → ℤ
pool_target_size configured max_pods =
    let t : ℤ = if leb_ℤ configured (pos 0) then pos 1 else configured in
    let capped : ℤ = if ltb_ℤ (pos 0) max_pods && ltb_ℤ max_pods t then max_pods else t in
    if ltb_ℤ capped (pos 1) then pos 1 else capped

-- The effective `Size`: an unset or negative one counts as 1.
abbrev pub base_size : ℤ → ℤ
base_size size = if leb_ℤ size (pos 0) then pos 1 else size

-- Where MaxSize exceeds the effective Size, the adaptive target lies between the two, covers the
-- recent cold starts as far as MaxSize allows, and is no smaller than a MinSize up to MaxSize.
pub adaptive_bounds :
    (size min max boost : ℤ)
    → base_size size <ℤ max
    → (base_size size ≤ℤ adaptive_target size min max boost)
      × (adaptive_target size min max boost ≤ℤ max)
      × (boost ≤ℤ max → boost ≤ℤ adaptive_target size min max boost)
      × (min ≤ℤ max → min ≤ℤ adaptive_target size min max boost)
unfolding adaptive_target
adaptive_bounds size min max boost h = (ground arith, ground arith, ground arith, ground arith)

-- resource.Quantity, by what the code asks of it.
pub record Quantity : Type 0 where
  pub value : ℤ
  pub milli_value : ℤ
  pub is_zero : Bool

-- Status.Allocatable.Memory() and .Cpu() of a node, `none` for a nil quantity.
pub record Node : Type 0 where
  pub memory : Option Quantity
  pub cpu : Option Quantity

add_value : (Quantity → ℤ) → ℤ → Option Quantity → ℤ
add_value read sum none = sum
add_value read sum (some q) = wrap64 (sum +ℤ read q)

unfoldable pub sum_node_allocatable : ℤ → ℤ → List Node → ℤ × ℤ
unfolding add_value
sum_node_allocatable mem cpu [] = (mem, cpu)
sum_node_allocatable mem cpu (n ∷ nodes) =
    sum_node_allocatable (add_value (λ q. q.value) mem n.memory)
      (add_value (λ q. q.milli_value) cpu n.cpu) nodes

unfoldable pub capacity_for : ℤ → ℤ → ℤ
capacity_for total divisor =
    if leb_ℤ total (pos 0) || leb_ℤ divisor (pos 0)
    then pos 0
    else div_ℤ (div_ℤ (wrap64 (total *ℤ pos 9)) (pos 10)) divisor

unfoldable pub tighter_capacity : ℤ → ℤ → ℤ
tighter_capacity a b = if eqb_ℤ a (pos 0) then b else if eqb_ℤ b (pos 0) || ltb_ℤ a b then a else b

-- resource.MustParse is the parameter: it belongs to k8s.io/apimachinery.
module _ (must_parse : String → Quantity) where
  unfoldable pub per_pod_resources : SandboxConfig → Quantity × Quantity
  per_pod_resources cfg =
      let mem = must_parse cfg.default_memory in
      let cpu = must_parse cfg.default_cpu in
      (
        if mem.is_zero then must_parse "512Mi" else mem,
        if cpu.is_zero then must_parse "500m" else cpu,
      )

  -- `none` for a failed List call.
  unfoldable pub compute_max_pods : Option (List Node) → SandboxConfig → ℤ
  compute_max_pods none cfg = pos 0
  compute_max_pods (some []) cfg = pos 0
  compute_max_pods (some (n ∷ nodes)) cfg =
      let (total_mem, total_cpu) = sum_node_allocatable (pos 0) (pos 0) (n ∷ nodes) in
      let (per_pod_mem, per_pod_cpu) = per_pod_resources cfg in
      if eqb_ℤ total_mem (pos 0) && eqb_ℤ total_cpu (pos 0)
      then pos 0
      else tighter_capacity (capacity_for total_mem per_pod_mem.value)
          (capacity_for total_cpu per_pod_cpu.milli_value)
