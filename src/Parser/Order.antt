-- ===== src/Parser/Order.antt =====
-- The in-flight maps of src/parser.cpp as ordered lists, and the loop that retires from their front.
use hsa_snoop.Prelude.{
  length, All, emplace, ℕ, suc, ◌+◌, ◌≤◌, ◌<◌, ◌≡◌, refl, ap, inl, inr, Bool, true, false, List, [],
  ◌∷◌, ◌++◌, arith, Bool-cases,
}
use hsa_snoop.Parser.State.{retire}

module _ {ℓ} {V : Type ℓ} where
  -- The keys ascend strictly, from `lo` on and below `hi`.
  abbrev pub Asc : ℕ → ℕ → List (ℕ × V) → Type 0
  Asc lo hi [] = Unit {0}
  Asc lo hi ((k, v) ∷ m) = (lo ≤ k) × (k < hi) × Asc (k + 1) hi m

  abbrev pub keys : List (ℕ × V) → List ℕ
  keys [] = []
  keys ((k, v) ∷ m) = k ∷ keys m

  -- Every entry satisfies `P`.
  abbrev pub AllEntries {κ} : (ℕ → V → Type κ) → List (ℕ × V) → Type κ
  AllEntries P [] = Unit {κ}
  AllEntries P ((k, v) ∷ m) = P k v × AllEntries P m

  pub Asc-widen :
      (lo lo' hi hi' : ℕ) (m : List (ℕ × V)) → lo' ≤ lo → hi ≤ hi' → Asc lo hi m → Asc lo' hi' m
  Asc-widen lo lo' hi hi' [] p q a = tt
  Asc-widen lo lo' hi hi' ((k, v) ∷ m) p q a =
      (omega arith, omega arith, Asc-widen (k + 1) (k + 1) hi hi' m (omega arith) q a.2)

  -- A key above all others goes to the end.
  pub emplace_last :
      (lo hi k : ℕ) (v : V) (m : List (ℕ × V))
      → hi ≤ k
      → Asc lo hi m
      → emplace k v m ≡ m ++ (k, v) ∷ []
  unfolding emplace
  emplace_last lo hi k v [] h a = refl
  emplace_last lo hi k v ((j, w) ∷ m) h a = ground (arith, emplace_last (j + 1) hi k v m h a.2)

  pub Asc-snoc :
      (lo hi k : ℕ) (v : V) (m : List (ℕ × V))
      → hi ≤ k
      → lo ≤ k
      → Asc lo hi m
      → Asc lo (k + 1) (m ++ (k, v) ∷ [])
  Asc-snoc lo hi k v [] h l a = (l, omega arith, tt)
  Asc-snoc lo hi k v ((j, w) ∷ m) h l a =
      (a.0, omega arith, Asc-snoc (j + 1) hi k v m h (omega arith) a.2)

  pub AllEntries-snoc {κ} :
      (P : ℕ → V → Type κ) (k : ℕ) (v : V) (m : List (ℕ × V))
      → AllEntries P m
      → P k v
      → AllEntries P (m ++ (k, v) ∷ [])
  AllEntries-snoc P k v [] a p = (p, tt)
  AllEntries-snoc P k v ((j, w) ∷ m) a p = (a.0, AllEntries-snoc P k v m a.1 p)

  pub Asc-above :
      (b lo hi : ℕ) (m : List (ℕ × V)) → b ≤ lo → Asc lo hi m → AllEntries (λ k v. b ≤ k) m
  Asc-above b lo hi [] p a = tt
  Asc-above b lo hi ((k, v) ∷ m) p a = (omega arith, Asc-above b (k + 1) hi m (omega arith) a.2)

  pub length-keys : (m : List (ℕ × V)) → length (keys m) ≡ length m
  length-keys [] = refl
  length-keys ((k, v) ∷ m) = ap suc (length-keys m)

  pub keys-append : (m n : List (ℕ × V)) → keys (m ++ n) ≡ keys m ++ keys n
  keys-append [] n = refl
  keys-append ((k, v) ∷ m) n = ap (◌∷◌ k) (keys-append m n)

-- `retire`: what leaves and what stays.
module _ {ℓ} {V : Type ℓ} (stop : ℕ → Bool) (finish : V → V) where
  pub length-retire :
      (m : List (ℕ × V))
      → length (retire stop finish m).0 + length (retire stop finish m).1 ≡ length m
  unfolding retire
  length-retire [] = omega arith
  length-retire ((k, v) ∷ m) = ground (arith, length-retire m)

  pub retire-Asc : (lo hi : ℕ) (m : List (ℕ × V)) → Asc lo hi m → Asc lo hi (retire stop finish m).1
  unfolding retire
  retire-Asc lo hi [] a = tt
  retire-Asc lo hi ((k, v) ∷ m) a = elim (Bool-cases (stop k)) [
    | inl e ↦ rw e a
    | inr e ↦ rw e (
        Asc-widen (k + 1) lo hi hi (retire stop finish m).1 (omega arith) (omega arith)
          (retire-Asc (k + 1) hi m a.2))
  ]

  pub retire-AllEntries {κ} :
      (P : ℕ → V → Type κ) (m : List (ℕ × V))
      → AllEntries P m
      → AllEntries P (retire stop finish m).1
  unfolding retire
  retire-AllEntries P [] a = tt
  retire-AllEntries P ((k, v) ∷ m) a = elim (Bool-cases (stop k)) [
    | inl e ↦ rw e a
    | inr e ↦ rw e (retire-AllEntries P m a.1)
  ]

  -- What leaves was at a key that does not stop.
  pub retire_out {κ} :
      (P : V → Type κ) (m : List (ℕ × V))
      → AllEntries (λ k v. stop k ≡ false → P (finish v)) m
      → All P (retire stop finish m).0
  unfolding retire
  retire_out P [] a = tt
  retire_out P ((k, v) ∷ m) a = elim (Bool-cases (stop k)) [
    | inl e ↦ rw e tt
    | inr e ↦ rw e (a.0 e, retire_out P m a.1)
  ]

-- What stays, in order, is at or above a bound that the loop stops at.
pub retire_rest {ℓ} :
    {V : Type ℓ} (bound hi lo : ℕ) (stop : ℕ → Bool) (finish : V → V) (m : List (ℕ × V))
    → ((k : ℕ) → stop k ≡ true → bound ≤ k)
    → Asc lo hi m
    → AllEntries (λ k v. bound ≤ k) (retire stop finish m).1
unfolding retire
retire_rest bound hi lo stop finish [] h a = tt
retire_rest bound hi lo stop finish ((k, v) ∷ m) h a = elim (Bool-cases (stop k)) [
  | inl e ↦ rw e (h k e, Asc-above bound (k + 1) hi m (omega (arith, h k e)) a.2)
  | inr e ↦ rw e (retire_rest bound hi (k + 1) stop finish m h a.2)
]
