-- ===== src/Sandbox/Sizing/Capacity.antt =====
-- What the capacity arithmetic of pkg/sandboxmatrix/controller.go guarantees.
use k8e.Common.{ℕ, ◌*◌, ◌/◌, ◌^◌, ◌≤◌, ◌<◌, String, ◌≡◌, some, List, ◌∷◌, arith}
use k8e.Common.Int.{ℤ, pos, pos_part, ◌*ℤ◌, div_ℤ, wrap64}
use k8e.Sandbox.Pods.{SandboxConfig}
use k8e.Sandbox.Sizing.{
  Quantity, per_pod_resources, compute_max_pods, Node, capacity_for, tighter_capacity,
  sum_node_allocatable,
}

-- With nothing wrapped, a positive total holds exactly so many pods in nine tenths of it.
pub capacity_exact :
    (t d : ℕ) → 0 < t → 0 < d → t * 9 < 2 ^ 63 → capacity_for (pos t) (pos d) ≡ pos (t * 9 / 10 / d)
unfolding capacity_for wrap64 div_ℤ ◌*ℤ◌
capacity_exact t d ht hd h = ground arith

fits_below : (n d : ℕ) → 0 < d → n / 10 / d * d * 10 ≤ n
fits_below n d h = grind arith

tighter-le :
    (a b : ℕ)
    → 0 < a
    → 0 < b
    → (pos_part (tighter_capacity (pos a) (pos b)) ≤ a)
      × (pos_part (tighter_capacity (pos a) (pos b)) ≤ b)
unfolding tighter_capacity
tighter-le a b ha hb = ground arith

mul-le : (a b c n : ℕ) → a ≤ b → b * c * 10 ≤ n → a * c * 10 ≤ n
mul-le a b c n h k = grind arith

abbrev pub totals : Node → List Node → ℤ × ℤ
totals n nodes = sum_node_allocatable (pos 0) (pos 0) (n ∷ nodes)

div-pos : (n d : ℕ) → 0 < d → d * 10 ≤ n → 0 < n / 10 / d
div-pos n d h k = grind arith

capacity-pos :
    (t d : ℕ)
    → 0 < d
    → t * 9 < 2 ^ 63
    → d * 10 ≤ t * 9
    → (c : ℕ) × (0 < c) × (capacity_for (pos t) (pos d) ≡ pos c) × (c * d * 10 ≤ t * 9)
capacity-pos t d hd h k = (
  t * 9 / 10 / d,
  div-pos (t * 9) d hd k,
  capacity_exact t d (omega arith) hd h,
  fits_below (t * 9) d hd,
)

module _ (must_parse : String → Quantity) (cfg : SandboxConfig) (n : Node) (nodes : List Node)
    (mem cpu per_mem per_cpu : ℕ) (allocatable : totals n nodes ≡ (pos mem, pos cpu))
    (mem_of_pod : (per_pod_resources must_parse cfg).0.value ≡ pos per_mem)
    (cpu_of_pod : (per_pod_resources must_parse cfg).1.milli_value ≡ pos per_cpu)
    (mem_pos : 0 < mem) where
  compute_max_pods_lem :
      compute_max_pods must_parse (some (n ∷ nodes)) cfg
      ≡ tighter_capacity
          (capacity_for (pos mem) (pos per_mem))
          (capacity_for (pos cpu) (pos per_cpu))
  unfolding compute_max_pods
  compute_max_pods_lem = rw (allocatable, mem_of_pod, cpu_of_pod) (ground arith)

  -- Where the nodes' memory and CPU sum up without overflow, and nine tenths of each hold at least
  -- one pod, the computed number of pods fits into nine tenths of the memory and of the CPU.
  pub max_pods_fit :
      0 < per_mem
      → 0 < per_cpu
      → mem * 9 < 2 ^ 63
      → cpu * 9 < 2 ^ 63
      → per_mem * 10 ≤ mem * 9
      → per_cpu * 10 ≤ cpu * 9
      → let max_pods = pos_part (compute_max_pods must_parse (some (n ∷ nodes)) cfg) in
        (max_pods * per_mem * 10 ≤ mem * 9) × (max_pods * per_cpu * 10 ≤ cpu * 9)
  max_pods_fit pm pc fm fc hm hc =
      let (a, a_pos, a_eq, a_le) = capacity-pos mem per_mem pm fm hm in
      let (b, b_pos, b_eq, b_le) = capacity-pos cpu per_cpu pc fc hc in
      let least = tighter-le a b a_pos b_pos in
      rw (compute_max_pods_lem, a_eq, b_eq)
        (mul-le _ a per_mem (mem * 9) least.0 a_le, mul-le _ b per_cpu (cpu * 9) least.1 b_le)
