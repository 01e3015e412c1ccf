-- ===== src/Cabi/Store/Ranges.antt =====
-- What stores in parts of a range do to the whole range.
use polyengine.Base.{ℕ, ◌+◌, ◌≤◌, ◌≡◌, refl, ◌∙◌, Result, ok, arith}
use polyengine.Cabi.Memory.{Memory}
use polyengine.Cabi.Memory.RoundTrip.{SameOutside, SameInside}
use polyengine.Cabi.Float.{Floats}
use polyengine.Cabi.Value.{Host}
use polyengine.Cabi.Access.{HostCx}
use polyengine.Cabi.Store.Scalars.{Holds}

module _ {fl : Floats} (host : Host fl) where
  pub SameOutside-refl : (m : Memory) (ptr n : ℕ) → SameOutside m m ptr n
  unfolding SameOutside
  SameOutside-refl m ptr n = (refl, refl, λ i h. refl)

  -- Two stores, one after the other in disjoint parts of a range.
  SameOutside-both :
      (m m' m'' : Memory) (ptr n p₁ n₁ p₂ n₂ : ℕ)
      → SameOutside m m' p₁ n₁
      → SameOutside m' m'' p₂ n₂
      → (ptr ≤ p₁) × (p₁ + n₁ ≤ ptr + n)
      → (ptr ≤ p₂) × (p₂ + n₂ ≤ ptr + n)
      → SameOutside m m'' ptr n
  unfolding SameOutside
  SameOutside-both m m' m'' ptr n p₁ n₁ p₂ n₂ (len, addr, same) (len', addr', same') in₁ in₂ =
      (len' ∙ len, addr' ∙ addr, λ i out. same' i (omega arith) ∙ same i (omega arith))

  -- The first part is kept by the second store and by what keeps the range.
  SameInside-first :
      (m m' kept : Memory) (ptr n p₁ n₁ p₂ n₂ : ℕ)
      → SameOutside m m' p₂ n₂
      → SameInside m' kept ptr n
      → (ptr ≤ p₁) × (p₁ + n₁ ≤ ptr + n)
      → (p₁ + n₁ ≤ p₂)
      → SameInside m kept p₁ n₁
  unfolding SameOutside SameInside
  SameInside-first m m' kept ptr n p₁ n₁ p₂ n₂ (len, addr, same) (len', addr', same') in₁ apart = (
    len' ∙ len,
    addr' ∙ addr,
    λ i lo hi. same' i (omega arith) (omega arith) ∙ same i (omega arith),
  )

  SameInside-part :
      (m kept : Memory) (ptr n p₁ n₁ : ℕ)
      → SameInside m kept ptr n
      → (ptr ≤ p₁) × (p₁ + n₁ ≤ ptr + n)
      → SameInside m kept p₁ n₁
  unfolding SameInside
  SameInside-part m kept ptr n p₁ n₁ (len, addr, same) part =
      (len, addr, λ i lo hi. same i (omega arith) (omega arith))

  -- Two stores in disjoint parts, the first below the second, and a reader that reads both.
  pub Holds-both {ℓ κ μ} :
      {A : Type ℓ} {B : Type κ} {C : Type μ} (cx cx' cx'' : HostCx host) (ptr n p₁ n₁ p₂ n₂ : ℕ)
      {first : HostCx host → Result (A × HostCx host)}
      {second : HostCx host → Result (B × HostCx host)}
      (reader : HostCx host → Result (C × HostCx host)) {a : A} {b : B} (c : C)
      → Holds host first a cx p₁ n₁ cx'
      → Holds host second b cx' p₂ n₂ cx''
      → (ptr ≤ p₁) × (p₁ + n₁ ≤ p₂) × (p₂ + n₂ ≤ ptr + n)
      → ((kept : HostCx host)
          → first kept ≡ ok (a, kept)
          → second kept ≡ ok (b, kept)
          → reader kept ≡ ok (c, kept))
      → Holds host reader c cx ptr n cx''
  unfolding Holds
  Holds-both cx cx' cx'' ptr n p₁ n₁ p₂ n₂ reader c (s, o, back) (s', o', back') within read =
      let in₁ : (ptr ≤ p₁) × (p₁ + n₁ ≤ ptr + n) = omega arith in
      let in₂ : (ptr ≤ p₂) × (p₂ + n₂ ≤ ptr + n) = omega arith in
      (
        s' ∙ s,
        SameOutside-both cx.memory cx'.memory cx''.memory ptr n p₁ n₁ p₂ n₂ o o' in₁ in₂,
        λ kept i.
            read kept
              (back kept (
                SameInside-first cx'.memory cx''.memory kept.memory ptr n p₁ n₁ p₂ n₂ o' i in₁
                  within.1))
              (back' kept (SameInside-part cx''.memory kept.memory ptr n p₂ n₂ i in₂)),
      )

  -- A reader that goes on from another one, in a larger range.
  pub Holds-through {ℓ κ} :
      {A : Type ℓ} {C : Type κ} (cx cx' : HostCx host) (p n p' n' : ℕ)
      {first : HostCx host → Result (A × HostCx host)}
      (reader : HostCx host → Result (C × HostCx host)) {a : A} (c : C)
      → Holds host first a cx p n cx'
      → (p' ≤ p) × (p + n ≤ p' + n')
      → ((kept : HostCx host) → first kept ≡ ok (a, kept) → reader kept ≡ ok (c, kept))
      → Holds host reader c cx p' n' cx'
  unfolding Holds SameOutside
  Holds-through cx cx' p n p' n' reader c (s, (len, addr, same), back) within read = (
    s,
    (len, addr, λ i h. same i (omega arith)),
    λ kept i. read kept (back kept (SameInside-part cx'.memory kept.memory p' n' p n i within)),
  )
