-- ===== src/History.antt =====
-- `ResourceHistory` (include/resource_history.hpp): the bounded buffer of samples.
use arch_task_manager.Base.{
  ℕ, ◌≤◌, ◌<◌, ◌≡◌, refl, sym, ap, ◌∙◌, Bool, not, ◌&&◌, List, [], ◌∷◌, ◌++◌, if◌then◌else◌, leb,
  eqb, length, tail, last, arith, Bool-cases, inl, inr, length-append, length-tail, last-of_le,
  last-last-append, drop_at,
}
use mathlib.Core.List.{append_assoc, append-nil}

pub record History {ℓ} (A : Type ℓ) : Type ℓ where
  pub max_samples : ℕ
  pub buffer : List A

module _ {ℓ} {A : Type ℓ} where
  unfoldable pub create : ℕ → History A
  create n = record { max_samples = n; buffer = [] }

  pub add_sample : History A → A → History A
  add_sample h x =
      let kept =
        if not (eqb h.max_samples 0) && leb h.max_samples (length h.buffer)
        then tail h.buffer
        else h.buffer in
      record h { buffer = kept ++ (x ∷ []) }

  pub clear : History A → History A
  clear h = record h { buffer = [] }

  pub add_all : History A → List A → History A
  add_all h [] = h
  add_all h (x ∷ xs) = add_all (add_sample h x) xs

  pub max_samples-add_sample :
      (h : History A) (x : A) → (add_sample h x).max_samples ≡ h.max_samples
  unfolding add_sample
  max_samples-add_sample h x = refl

  -- A bounded history that is within its bound stays within it.
  pub add_sample-bounded :
      (h : History A) (x : A)
      → 0 < h.max_samples
      → length h.buffer ≤ h.max_samples
      → length (add_sample h x).buffer ≤ h.max_samples
  unfolding add_sample
  add_sample-bounded h x p b = ground (
    arith,
    length-append h.buffer (x ∷ []),
    length-append (tail h.buffer) (x ∷ []),
    length-tail h.buffer,
  )

  last-cons_full :
      (n : ℕ) (xs : List A) (x : A)
      → 0 < n
      → length xs ≡ n
      → tail xs ++ (x ∷ []) ≡ last n (xs ++ (x ∷ []))
  last-cons_full n [] x p e = absurd (omega arith)
  last-cons_full n (y ∷ ys) x p e =
      sym (drop_at {n = 1} (y ∷ (ys ++ (x ∷ []))) (omega (arith, length-append ys (x ∷ []))))

  is_full : History A → Bool
  is_full h = not (eqb h.max_samples 0) && leb h.max_samples (length h.buffer)

  add_sample_unbounded :
      (h : History A) (x : A) → h.max_samples ≡ 0 → (add_sample h x).buffer ≡ h.buffer ++ (x ∷ [])
  unfolding add_sample
  add_sample_unbounded h x e = ground arith

  -- One sample more keeps the last `max_samples` of the samples and the new one.
  add_sample-last :
      (h : History A) (x : A)
      → 0 < h.max_samples
      → length h.buffer ≤ h.max_samples
      → (add_sample h x).buffer ≡ last h.max_samples (h.buffer ++ (x ∷ []))
  unfolding add_sample is_full
  add_sample-last h x p b = elim (Bool-cases (is_full h)) [
    | inl full ↦ rw full (last-cons_full h.max_samples h.buffer x p (ground arith))
    | inr room ↦ rw room (
        sym (
          last-of_le h.max_samples (h.buffer ++ (x ∷ []))
            (ground (arith, length-append h.buffer (x ∷ [])))))
  ]

  -- A history with a bound above 0 holds the last `max_samples` samples that were added, in their order.
  pub buffer-add_all :
      (h : History A) (xs : List A)
      → 0 < h.max_samples
      → length h.buffer ≤ h.max_samples
      → (add_all h xs).buffer ≡ last h.max_samples (h.buffer ++ xs)
  unfolding add_all
  buffer-add_all h [] p b = sym (rw (append-nil h.buffer) (last-of_le h.max_samples h.buffer b))
  buffer-add_all h (x ∷ xs) p b =
      buffer-add_all (add_sample h x) xs (rw (max_samples-add_sample h x) p)
        (rw (max_samples-add_sample h x) (add_sample-bounded h x p b))
      ∙ rw (max_samples-add_sample h x, add_sample-last h x p b)
          (last-last-append h.max_samples (h.buffer ++ (x ∷ [])) xs
            ∙ ap (last h.max_samples) (append_assoc h.buffer (x ∷ []) xs))

  -- A bound of 0 means no bound.
  pub buffer-add_all_unbounded :
      (h : History A) (xs : List A) → h.max_samples ≡ 0 → (add_all h xs).buffer ≡ h.buffer ++ xs
  unfolding add_all
  buffer-add_all_unbounded h [] e = sym (append-nil h.buffer)
  buffer-add_all_unbounded h (x ∷ xs) e =
      buffer-add_all_unbounded (add_sample h x) xs (max_samples-add_sample h x ∙ e)
      ∙ rw (add_sample_unbounded h x e) (append_assoc h.buffer (x ∷ []) xs)
