-- ===== src/Allocation/Bands.antt =====
-- `_partition`: the bands of a range of ticks.
use native.Mathlib.Nat.{le_trans, mul-zero, zero-div, zero-mul}
use mathlib.Core.Path.{subst}
use robinhoodpools.Prelude.{
  ℕ, zero, suc, ◌+◌, ◌*◌, ◌/◌, ◌≤◌, ◌<◌, ◌≡◌, refl, ap, ◌∙◌, List, [], ◌∷◌, ◌++◌, arith, length,
  length-append, min, max, Bool-cases, inl, inr, ltb→lt, ltb→ge,
}
use robinhoodpools.Prelude.Int.{ℤ, pos, ◌+ℤ◌, ◌≤ℤ◌, ◌<ℤ◌, ltb_ℤ, int_laws}
use robinhoodpools.Allocation.{partition, boundaries_from, rising_pairs, max_bands}

-- Bands that follow one another with no gap from `a` to `c`, none of them empty.
abbrev pub Chain : ℤ → List (ℤ × ℤ) → ℤ → Type 0
Chain a [] c = a ≡ c
Chain a ((x, y) ∷ bands) c = (x ≡ a) × (x <ℤ y) × Chain y bands c

-- Boundaries that do not fall, from `a` to `c`.
abbrev Rises : ℤ → List ℤ → ℤ → Type 0
Rises a [] c = a ≡ c
Rises a (b ∷ rest) c = (a ≤ℤ b) × Rises b rest c

rising_pairs-Chain :
    (a c : ℤ) (rest : List ℤ) → Rises a rest c → Chain a (rising_pairs (a ∷ rest)) c
unfolding rising_pairs
rising_pairs-Chain a c [] h = h
rising_pairs-Chain a c (b ∷ rest) (le, h) =
    let ih = rising_pairs-Chain b c rest h in
    elim (Bool-cases (ltb_ℤ a b)) [
      | inl lt ↦ rw lt (refl, ltb→lt _ _ lt, ih)
      | inr ge ↦ let ge' = ltb→ge _ _ ge in let e : b ≡ a = omega int_laws in rw ge (rw e at ih)
    ]

length-rising_pairs : (a : ℤ) (rest : List ℤ) → length (rising_pairs (a ∷ rest)) ≤ length rest
unfolding rising_pairs
length-rising_pairs a [] = omega arith
length-rising_pairs a (b ∷ rest) = ground (arith, length-rising_pairs b rest)

quotient_mono : (m n d : ℕ) → 0 < d → m ≤ n → m / d ≤ n / d
quotient_mono m n d h le = grind arith

mul_mono : (k x y : ℕ) → x ≤ y → k * x ≤ k * y
mul_mono k x y h = grind arith

mul_mono' : (k x y : ℕ) → x ≤ y → x * k ≤ y * k
mul_mono' k x y h = grind arith

quotient-mul-le : (n d : ℕ) → n / d * d ≤ n
quotient-mul-le n d = grind arith

quotient_self : (n d : ℕ) → 0 < d → n * d / d ≡ n
quotient_self n d h = grind arith

module _ (lo : ℤ) (span units count spacing : ℕ) (some_bands : 0 < count)
    (fits : units * spacing ≤ span) where
  offset_mono : (i j : ℕ) → i ≤ j → units * i / count * spacing ≤ units * j / count * spacing
  offset_mono i j h =
      mul_mono' spacing _ _ (quotient_mono _ _ count some_bands (mul_mono units i j h))

  offset-le-span : (i : ℕ) → i ≤ count → units * i / count * spacing ≤ span
  offset-le-span i h =
      let at_end : units * count / count ≡ units = quotient_self units count some_bands in
      let le = offset_mono i count h in le_trans (rw at_end at le) fits

  boundaries-Rises :
      (left i : ℕ) (x : ℕ)
      → i + left ≡ count
      → x ≤ units * i / count * spacing
      → x ≤ span
      → Rises
          (lo +ℤ pos x)
          (boundaries_from lo units count spacing left i ++ (lo +ℤ pos span) ∷ [])
          (lo +ℤ pos span)
  unfolding boundaries_from
  boundaries-Rises zero i x e le le' = (omega int_laws, refl)
  boundaries-Rises (suc left) i x e le le' = (
    omega int_laws,
    boundaries-Rises left (i + 1) (units * i / count * spacing) (omega arith)
        (offset_mono i (i + 1) (omega arith)) (offset-le-span i (omega arith)),
  )

length-boundaries :
    (lo : ℤ) (units count spacing left i : ℕ)
    → length (boundaries_from lo units count spacing left i) ≡ left
unfolding boundaries_from
length-boundaries lo units count spacing zero i = refl
length-boundaries lo units count spacing (suc left) i =
    omega (arith, length-boundaries lo units count spacing left (i + 1))

first_offset : (lo : ℤ) (units count spacing : ℕ) → lo +ℤ pos (units * 0 / count * spacing) ≡ lo
first_offset lo units count spacing =
    let none_yet : units * 0 / count * spacing ≡ 0 =
      rw (mul-zero units, zero-div count, zero-mul spacing) in
    let here : lo +ℤ pos 0 ≡ lo = omega int_laws in ap (λ (x : ℕ). lo +ℤ pos x) none_yet ∙ here

bands_of_count :
    (lo : ℤ) (span units count spacing : ℕ)
    → 0 < count
    → units * spacing ≤ span
    → let bands =
        rising_pairs (boundaries_from lo units count spacing count 0 ++ (lo +ℤ pos span) ∷ []) in
      Chain lo bands (lo +ℤ pos span) × (length bands ≤ count)
unfolding boundaries_from
bands_of_count lo span units zero spacing h fits = absurd (omega arith)
bands_of_count lo span units (suc k) spacing h fits =
    let count = suc k in
    let rest = boundaries_from lo units count spacing k (0 + 1) ++ (lo +ℤ pos span) ∷ [] in
    let x = units * 0 / count * spacing in
    let rises =
      boundaries-Rises lo span units count spacing h fits k (0 + 1) x (omega arith)
        (offset_mono lo span units count spacing h fits 0 (0 + 1) (omega arith))
        (offset-le-span lo span units count spacing h fits 0 (omega arith)) in
    let chain = rising_pairs-Chain (lo +ℤ pos x) (lo +ℤ pos span) rest rises in
    (
      subst (λ (a : ℤ). Chain a (rising_pairs ((lo +ℤ pos x) ∷ rest)) (lo +ℤ pos span))
          (first_offset lo units count spacing) chain,
      omega (
        arith,
        length-rising_pairs (lo +ℤ pos x) rest,
        length-append {0} (boundaries_from lo units count spacing k (0 + 1))
            ((lo +ℤ pos span) ∷ []),
        length-boundaries lo units count spacing k (0 + 1),
      ),
    )

-- Whatever the spacing and the number of bands asked for, the bands of a range follow one another
-- with no gap and no overlap from its lower to its upper end, and there are at
-- most as many as asked for and at most twelve, but always room for one.
pub partition-Chain :
    (lo : ℤ) (span requested spacing : ℕ)
    → 0 < spacing
    → let bands = partition lo span requested spacing in
      Chain lo bands (lo +ℤ pos span) × (length bands ≤ max 1 (min requested max_bands))
unfolding partition
partition-Chain lo span requested spacing h =
    let units = span / spacing in
    let count = max 1 (min (min requested units) max_bands) in
    let bands =
      bands_of_count lo span units count spacing (omega arith) (quotient-mul-le span spacing) in
    (bands.0, omega (arith, bands.1))
