-- ===== src/Counter/Partition.antt =====
-- How `get_and_add_count_multithred` divides the samples among the threads.
use mathlib.Core.List.{append-nil}
use skolemfc.Base.{
  ℕ, zero, suc, ◌+◌, ◌*◌, ◌<◌, ◌≤◌, ◌≡◌, refl, ap, ◌∙◌, List, [], ◌∷◌, ◌++◌, arith, length,
  length-drop, length-take, take, drop, take-append-drop, inl, inr, All, if◌then◌else◌, ltb,
  Bool-cases,
}

module _ {ℓ} {A : Type ℓ} where
  -- The loop over the threads `i ..`, with what stands behind `it`; `n` is the number of samples.
  -- The product is a size_t; it is kept without a wrap-around, which takes 2 ^ 64 samples.
  unfoldable pub partition_from : (size n i threads : ℕ) → List A → List (List A)
  partition_from size n i zero rest = []
  partition_from size n i (suc more) rest =
      let cut = take size rest ∷ partition_from size n (i + 1) more (drop size rest) in
      let last = rest ∷ partition_from size n (i + 1) more [] in
      if ltb ((i + 1) * size) n then cut else last

  unfoldable pub partition : (size threads : ℕ) → List A → List (List A)
  unfolding partition_from
  partition size threads samples = partition_from size (length samples) 0 threads samples

  abbrev pub concat : List (List A) → List A
  concat [] = []
  concat (x ∷ xs) = x ++ concat xs

  take_nil : (k : ℕ) → take {A = A} k [] ≡ []
  take_nil zero = refl
  take_nil (suc k) = refl

  drop_nil : (k : ℕ) → drop {A = A} k [] ≡ []
  drop_nil zero = refl
  drop_nil (suc k) = refl

  partition_from-length :
      (size n i threads : ℕ) (rest : List A)
      → length (partition_from size n i threads rest) ≡ threads
  unfolding partition_from
  partition_from-length size n i zero rest = refl
  partition_from-length size n i (suc more) rest = elim (Bool-cases (ltb ((i + 1) * size) n)) [
    | inl e ↦ rw e (ap suc (partition_from-length size n (i + 1) more (drop size rest)))
    | inr e ↦ rw e (ap suc (partition_from-length size n (i + 1) more []))
  ]

  -- Once all is given out, the other threads get nothing.
  partition_from-nil :
      (size n i threads : ℕ)
      → (concat (partition_from size n i threads []) ≡ [])
        × All (λ part. length part ≤ size) (partition_from size n i threads [])
  unfolding partition_from
  partition_from-nil size n i zero = (refl, tt)
  partition_from-nil size n i (suc more) =
      let (none, small) = partition_from-nil size n (i + 1) more in
      elim (Bool-cases (ltb ((i + 1) * size) n)) [
        | inl e ↦ rw (e, take_nil size, drop_nil size) (none, (omega arith, small))
        | inr e ↦ rw e (none, (omega arith, small))
      ]

  partition_from-concat :
      (size n i threads : ℕ) (rest : List A)
      → 0 < threads
      → n ≤ (i + threads) * size
      → length rest + i * size ≡ n
      → (concat (partition_from size n i threads rest) ≡ rest)
        × All (λ part. length part ≤ size) (partition_from size n i threads rest)
  unfolding partition_from
  partition_from-concat size n i zero rest some h e = absurd (omega arith)
  partition_from-concat size n i (suc more) rest some h e =
      elim (Bool-cases (ltb ((i + 1) * size) n)) [
        | inl lt ↦
            let inside : (i + 1) * size < n = ground arith in
            let left : 0 < more = grind arith in
            let shorter : length (drop size rest) + (i + 1) * size ≡ n =
              omega (arith, length-drop size rest) in
            let (whole, small) =
              partition_from-concat size n (i + 1) more (drop size rest) left (omega arith)
                shorter in
            let head : length (take size rest) ≤ size = omega (arith, length-take size rest) in
            rw lt (ap (◌++◌ (take size rest)) whole ∙ take-append-drop size rest, (head, small))
        | inr ge ↦
            let (none, small) = partition_from-nil size n (i + 1) more in
            let head : length rest ≤ size = ground arith in
            rw ge (ap (◌++◌ rest) none ∙ append-nil rest, (head, small))
      ]

  pub length-partition :
      (size threads : ℕ) (samples : List A) → length (partition size threads samples) ≡ threads
  unfolding partition
  length-partition size threads samples =
      partition_from-length size (length samples) 0 threads samples

  -- For at least one thread and parts that are large enough together: the parts are the samples, in
  -- their order and each once; there is one part for each thread; and none is larger than asked.
  pub partition_lem :
      (size threads : ℕ) (samples : List A)
      → 0 < threads
      → length samples ≤ threads * size
      → (concat (partition size threads samples) ≡ samples)
        × (length (partition size threads samples) ≡ threads)
        × All (λ part. length part ≤ size) (partition size threads samples)
  unfolding partition
  partition_lem size threads samples pos h =
      let (whole, small) =
        partition_from-concat size (length samples) 0 threads samples pos (omega arith)
          (omega arith) in
      (whole, partition_from-length size (length samples) 0 threads samples, small)
