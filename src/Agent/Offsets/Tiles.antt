-- ===== src/Agent/Offsets/Tiles.antt =====
-- partition.rs: the partitions lie one after the other on the usable bytes of the disk.
use rack_director.Prelude.{
  ℕ, suc, ◌+◌, ◌-◌, ◌*◌, ◌%◌, ◌^◌, ◌≤◌, ◌<◌, ◌≡◌, min, refl, subst, sym, ◌∙◌, ap, false, Option,
  List, [], ◌∷◌, length, leb, ltb, if◌then◌else◌, ok, arith, All,
}
use rack_director.DiskLayout.{PartitionConfig}
use rack_director.Agent.Sizes.{Floats}
use rack_director.Agent.Offsets.{
  align, u64, usable_end, partition_sizes, rest_count, fixed_total, div_ceil, size_or, end_of,
  assign_offsets, checked_offsets, calculate_partition_offsets,
}
use rack_director.Agent.Offsets.Sums.{
  sum, no_wrap, length-partition_sizes, fixed_total-eq, sum-rest, rest-fits,
}

-- Each partition starts where the one before it ends, and none ends beyond the limit; a partition may
-- be empty.
abbrev pub Tiles : ℕ → ℕ → List (ℕ × ℕ) → Type 0
Tiles current limit [] = current ≤ limit
Tiles current limit ((first, last) ∷ rest) =
    (first ≡ current) × (first ≤ suc last) × Tiles (suc last) limit rest

-- Each partition has the size that was asked for.
abbrev pub HaveSizes : ℕ → List (Option ℕ) → List (ℕ × ℕ) → Type 0
HaveSizes rest_size [] offsets = Unit
HaveSizes rest_size (size ∷ sizes) [] = Unit
HaveSizes rest_size (size ∷ sizes) ((first, last) ∷ offsets) =
    (suc last ≡ first + size_or rest_size size) × HaveSizes rest_size sizes offsets

abbrev pub IsAligned : ℕ → Option ℕ → Type 0
IsAligned rest_size size = size_or rest_size size % align ≡ 0

aligned-bounds : (n : ℕ) → (n ≤ div_ceil n align * align) × (div_ceil n align * align < n + align)
aligned-bounds n = ground arith

aligned-exact : (n : ℕ) → n % align ≡ 0 → div_ceil n align * align ≡ n
aligned-exact n h = ground arith

end_of-eq :
    (limit current n : ℕ)
    → limit ≤ 2 ^ 62
    → current ≤ limit
    → n ≤ limit
    → end_of limit current n ≡ min (current + div_ceil n align * align) limit
end_of-eq limit current n small below fits =
    let (_, up) = aligned-bounds n in
    let a : ℕ = div_ceil n align * align in
    ap (λ z. min (u64 (current + z)) limit) (no_wrap a (below_2_64 n a fits up))
    ∙ ap (λ z. min z limit) (no_wrap (current + a) (sum_below_2_64 n a fits up))
  where
    below_2_64 : (n a : ℕ) → n ≤ limit → a < n + align → a < 2 ^ 64
    below_2_64 n a fits up = omega arith

    sum_below_2_64 : (n a : ℕ) → n ≤ limit → a < n + align → current + a < 2 ^ 64
    sum_below_2_64 n a fits up = omega arith

end_of-bounds :
    (limit current n : ℕ)
    → limit ≤ 2 ^ 62
    → current ≤ limit
    → n ≤ limit
    → (current ≤ end_of limit current n) × (end_of limit current n ≤ limit)
end_of-bounds limit current n small below fits =
    rw (end_of-eq limit current n small below fits) (between (div_ceil n align * align))
  where
    between : (a : ℕ) → (current ≤ min (current + a) limit) × (min (current + a) limit ≤ limit)
    between a = ground arith

module _ (limit rest_size : ℕ) (small : limit ≤ 2 ^ 62) where
  assign_offsets-Tiles :
      (current : ℕ) (sizes : List (Option ℕ))
      → 1 ≤ current
      → sum rest_size sizes ≤ limit
      → current ≤ limit
      → Tiles current limit (assign_offsets limit rest_size current sizes)
  unfolding assign_offsets sum
  assign_offsets-Tiles current [] start fits below = below
  assign_offsets-Tiles current (size ∷ sizes) start fits below =
      let n : ℕ = size_or rest_size size in
      let e : ℕ = end_of limit current n in
      let (from, to) = end_of-bounds limit current n small below (omega arith) in
      let back : suc (e - 1) ≡ e = omega arith in
      (
        refl,
        subst (λ z. current ≤ z) (sym back) from,
        subst (λ z. Tiles z limit (assign_offsets limit rest_size e sizes)) (sym back)
            (assign_offsets-Tiles e sizes (omega arith) (omega arith) to),
      )

  -- Where the sizes are whole MiB and there is room for all, nothing is cut.
  assign_offsets-HaveSizes :
      (current : ℕ) (sizes : List (Option ℕ))
      → 1 ≤ current
      → current + sum rest_size sizes ≤ limit
      → All (IsAligned rest_size) sizes
      → HaveSizes rest_size sizes (assign_offsets limit rest_size current sizes)
  unfolding assign_offsets sum
  assign_offsets-HaveSizes current [] start fits aligned = tt
  assign_offsets-HaveSizes current (size ∷ sizes) start fits (whole, aligned) =
      let n : ℕ = size_or rest_size size in
      let e : ℕ = end_of limit current n in
      let exact : div_ceil n align * align ≡ n = aligned-exact n whole in
      let ends : e ≡ current + n =
        end_of-eq limit current n small (omega arith) (omega arith)
        ∙ ap (λ z. min (current + z) limit) exact
        ∙ omega arith in
      let last : suc (e - 1) ≡ current + n = omega arith in
      (last, assign_offsets-HaveSizes e sizes (omega arith) (omega arith) aligned)

  length-assign_offsets :
      (current : ℕ) (sizes : List (Option ℕ))
      → length (assign_offsets limit rest_size current sizes) ≡ length sizes
  unfolding assign_offsets
  length-assign_offsets current [] = refl
  length-assign_offsets current (size ∷ sizes) =
      ap suc (length-assign_offsets (end_of limit current (size_or rest_size size)) sizes)

ltb_no : (a b : ℕ) → b ≤ a → ltb a b ≡ false
ltb_no a b h = ground arith

leb_no : (a b : ℕ) → b < a → leb a b ≡ false
leb_no a b h = ground arith

-- What is left for the partition that takes the rest, if there is one.
abbrev pub rest_of : ℕ → List (Option ℕ) → ℕ
rest_of usable sizes = if ltb 0 (rest_count sizes) then usable - sum 0 sizes else 0

-- On a disk of at most 2^62 bytes and more than two MiB, for partitions whose sizes can be read, at
-- most one of which takes the rest and the others of which fit in the usable bytes: there are offsets,
-- as many as partitions, one partition after the other from the first MiB to the last MiB at most. If
-- the sizes, that of the rest included, are whole MiB, each partition has its size.
pub calculate_partition_offsets-Tiles :
    (f : Floats) (ps : List PartitionConfig) (disk : ℕ) (sizes : List (Option ℕ))
    → disk ≤ 2 ^ 62
    → align < usable_end disk
    → partition_sizes f (usable_end disk - align) ps ≡ ok sizes
    → rest_count sizes ≤ 1
    → sum 0 sizes ≤ usable_end disk - align
    → (offsets : List (ℕ × ℕ)) × (calculate_partition_offsets f ps disk ≡ ok offsets)
      × (length offsets ≡ length ps)
      × Tiles align (usable_end disk) offsets
      × (All (IsAligned (rest_of (usable_end disk - align) sizes)) sizes
          → HaveSizes (rest_of (usable_end disk - align) sizes) sizes offsets)
unfolding calculate_partition_offsets
calculate_partition_offsets-Tiles f ps disk sizes small room read one fits = (
  assign_offsets limit rest_size align sizes,
  rw (has_room, read) checked,
  length-assign_offsets limit rest_size (omega arith) align sizes
      ∙ length-partition_sizes f usable ps sizes read,
  assign_offsets-Tiles limit rest_size (omega arith) align sizes (omega arith)
      (omega (arith, room_for_rest)) (omega arith),
  λ aligned.
      assign_offsets-HaveSizes limit rest_size (omega arith) align sizes (omega arith)
        (omega (arith, room_for_rest)) aligned,
)
  where
    limit : ℕ
    limit = usable_end disk

    usable : ℕ
    usable = limit - align

    rest_size : ℕ
    rest_size = rest_of usable sizes

    room_for_rest : sum rest_size sizes ≤ usable
    room_for_rest =
        subst (λ z. z ≤ usable) (sym (sum-rest rest_size sizes))
          (rest-fits (rest_count sizes) (sum 0 sizes) usable one fits)

    total : fixed_total 0 sizes ≡ sum 0 sizes
    total = fixed_total-eq 0 sizes (omega arith) ∙ omega arith

    has_room : leb limit align ≡ false
    has_room = leb_no limit align room

    no_more_rest : ltb 1 (rest_count sizes) ≡ false
    no_more_rest = ltb_no 1 (rest_count sizes) one

    no_excess : ltb usable (sum 0 sizes) ≡ false
    no_excess = ltb_no usable (sum 0 sizes) fits

    checked : checked_offsets limit sizes ≡ ok (assign_offsets limit rest_size align sizes)
    checked = rw (no_more_rest, total, no_excess) refl
