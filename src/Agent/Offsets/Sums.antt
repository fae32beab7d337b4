-- ===== src/Agent/Offsets/Sums.antt =====
-- partition.rs: the sums of the sizes of partitions.
use rack_director.Prelude.{
  ℕ, suc, ◌+◌, ◌-◌, ◌*◌, ◌^◌, ◌≤◌, ◌<◌, ◌≡◌, sym, ◌∙◌, ap, Option, none, some, List, [], ◌∷◌,
  length, ltb, if◌then◌else◌, ok, >>=-eq-ok, arith, ok-injective, zero,
}
use rack_director.DiskLayout.{PartitionConfig}
use rack_director.Agent.Sizes.{Floats, parse_partition_size}
use rack_director.Agent.Offsets.{
  u64, as_offset_error, partition_sizes, rest_count, fixed_total, size_or,
}

-- The sum of the sizes, with `rest_size` for the rest.
unfoldable pub sum : ℕ → List (Option ℕ) → ℕ
sum rest_size [] = 0
sum rest_size (size ∷ sizes) = size_or rest_size size + sum rest_size sizes

pub no_wrap : (n : ℕ) → n < 2 ^ 64 → u64 n ≡ n
no_wrap n h = omega arith

pub length-partition_sizes :
    (f : Floats) (usable : ℕ) (ps : List PartitionConfig) (sizes : List (Option ℕ))
    → partition_sizes f usable ps ≡ ok sizes
    → length sizes ≡ length ps
unfolding partition_sizes
length-partition_sizes f usable [] sizes h = ap length (sym (ok-injective h))
length-partition_sizes f usable (p ∷ ps) sizes h =
    let (size, _, h1) =
      >>=-eq-ok (as_offset_error (parse_partition_size f p.size usable)) _ sizes h in
    let (rest, h2, h3) = >>=-eq-ok (partition_sizes f usable ps) _ sizes h1 in
    ap length (sym (ok-injective h3)) ∙ ap suc (length-partition_sizes f usable ps rest h2)

-- The sum of the sizes that are given.
pub fixed_total-eq :
    (total : ℕ) (sizes : List (Option ℕ))
    → total + sum 0 sizes < 2 ^ 64
    → fixed_total total sizes ≡ total + sum 0 sizes
unfolding fixed_total sum
fixed_total-eq total [] h = omega arith
fixed_total-eq total (none ∷ sizes) h = fixed_total-eq total sizes (omega arith) ∙ omega arith
fixed_total-eq total (some n ∷ sizes) h =
    ap (λ z. fixed_total z sizes) (no_wrap (total + n) (omega arith))
    ∙ fixed_total-eq (total + n) sizes (omega arith)
    ∙ omega arith

pub sum-rest :
    (rest_size : ℕ) (sizes : List (Option ℕ))
    → sum rest_size sizes ≡ sum 0 sizes + rest_count sizes * rest_size
unfolding sum rest_count
sum-rest rest_size [] = omega arith
sum-rest rest_size (none ∷ sizes) = grind (arith, sum-rest rest_size sizes)
sum-rest rest_size (some n ∷ sizes) = grind (arith, sum-rest rest_size sizes)

pub rest-fits :
    (c total usable : ℕ)
    → c ≤ 1
    → total ≤ usable
    → total + c * (if ltb 0 c then usable - total else 0) ≤ usable
rest-fits zero total usable one fits = omega arith
rest-fits (suc zero) total usable one fits = omega arith
rest-fits (suc (suc c)) total usable one fits = elim (absurd one) [ ]
  where
    absurd : suc (suc c) ≤ 1 → ⊥
    absurd h = omega arith
