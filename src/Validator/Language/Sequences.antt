-- ===== src/Validator/Language/Sequences.antt =====
-- Laws of concatenation and repetition of sets of words.
use marsh.Base.{
  ℕ, zero, suc, ◌≤◌, ◌≡◌, refl, sym, ap, ◌∙◌, fun_ext, Bool, true, false, ◌&&◌, ◌||◌, List, [], ◌∷◌,
  arith, length, is_empty, all,
}
use marsh.Validator.Language.Words.{
  WordSet, splits, repeats, repeats_within, splits-nothing, single, repeats-single,
}

module _ {E : Type 0} where
  pub splits-or :
      (f g k : WordSet E) (h : List E)
      → splits (λ w. f w || g w) k h ≡ (splits f k h || splits g k h)
  unfolding splits
  splits-or f g k [] = ground arith
  splits-or f g k (e ∷ h) = ground (arith, splits-or (λ w. f (e ∷ w)) (λ w. g (e ∷ w)) k h)

  splits-and :
      (b : Bool) (f k : WordSet E) (h : List E) → splits (λ w. b && f w) k h ≡ (b && splits f k h)
  splits-and true f k h = refl
  splits-and false f k h = splits-nothing k h

  pub splits_assoc :
      (f g k : WordSet E) (h : List E) → splits (splits f g) k h ≡ splits f (splits g k) h
  unfolding splits
  splits_assoc f g k [] = ground arith
  splits_assoc f g k (e ∷ h) =
      ap (λ b. (splits f g [] && k (e ∷ h)) || b)
        (splits-or (λ w. f [] && g (e ∷ w)) (splits (λ w. f (e ∷ w)) g) k h)
      ∙ ground (arith, splits-and (f []) (λ w. g (e ∷ w)) k h, splits_assoc (λ w. f (e ∷ w)) g k h)

  -- Concatenation asks the second set about parts of the word only.
  pub splits-suffixes :
      (f g g' : WordSet E) (h : List E)
      → ((k : List E) → length k ≤ length h → g k ≡ g' k)
      → splits f g h ≡ splits f g' h
  unfolding splits
  splits-suffixes f g g' [] same = rw (same [] (omega arith))
  splits-suffixes f g g' (e ∷ h) same = rw (
    same (e ∷ h) (omega arith),
    splits-suffixes (λ w. f (e ∷ w)) g g' h (λ k le. same k (omega (arith, le))),
  )

  repeats_within-enough :
      (n m : ℕ) (f : WordSet E) (h : List E)
      → length h ≤ n
      → length h ≤ m
      → repeats_within n f h ≡ repeats_within m f h
  unfolding repeats_within
  repeats_within-enough zero zero f [] le le' = refl
  repeats_within-enough zero (suc m) f [] le le' = refl
  repeats_within-enough (suc n) zero f [] le le' = refl
  repeats_within-enough (suc n) (suc m) f [] le le' = refl
  repeats_within-enough zero m f (e ∷ h) le le' = absurd (omega arith)
  repeats_within-enough n zero f (e ∷ h) le le' = absurd (omega arith)
  repeats_within-enough (suc n) (suc m) f (e ∷ h) le le' =
      splits-suffixes (λ k. f (e ∷ k)) (repeats_within n f) (repeats_within m f) h
        (λ k short. repeats_within-enough n m f k (omega (arith, short)) (omega (arith, short)))

  pub repeats-cons :
      (f : WordSet E) (e : E) (h : List E)
      → repeats f (e ∷ h) ≡ splits (λ k. f (e ∷ k)) (repeats f) h
  unfolding repeats
  repeats-cons f e h =
      splits-suffixes (λ k. f (e ∷ k)) (repeats_within (length h) f)
        (λ k. repeats_within (length k) f k) h
        (λ k short. repeats_within-enough (length h) (length k) f k short (omega arith))

  pub repeats-nil : (f : WordSet E) → repeats f [] ≡ true
  unfolding repeats repeats_within
  repeats-nil f = refl

  -- A set without a nonempty word repeats to the empty word only.
  pub repeats-none :
      (f : WordSet E)
      → ((e : E) (k : List E) → f (e ∷ k) ≡ false)
      → (h : List E) → repeats f h ≡ is_empty h
  repeats-none f never [] = repeats-nil f
  repeats-none f never (e ∷ h) =
      repeats-cons f e h
      ∙ ap (λ (g : WordSet E). splits g (repeats f) h) (fun_ext (never e))
      ∙ splits-nothing (repeats f) h

  pub repeats-everything : (h : List E) → repeats (λ (_ : List E). true) h ≡ true
  unfolding splits
  repeats-everything [] = repeats-nil (λ _. true)
  repeats-everything (e ∷ h) = repeats-cons (λ _. true) e h ∙ whole h
    where
      whole : (k : List E) → splits (λ (_ : List E). true) (repeats (λ _. true)) k ≡ true
      whole [] = rw (repeats-nil (λ (_ : List E). true))
      whole (x ∷ k) = ground (arith, whole k)

  all-always : (h : List E) → all (λ _. true) h ≡ true
  all-always [] = refl
  all-always (e ∷ h) = all-always h

  pub repeats-any_event : (h : List E) → repeats (single (λ _. true)) h ≡ true
  repeats-any_event h = repeats-single (λ _. true) h ∙ all-always h

  repeats-twice_within :
      (n : ℕ) (f : WordSet E) (h : List E)
      → length h ≤ n
      → splits (repeats f) (repeats f) h ≡ repeats f h
  unfolding splits
  repeats-twice_within n f [] le = rw (repeats-nil f)
  repeats-twice_within zero f (e ∷ h) le = absurd (omega arith)
  repeats-twice_within (suc n) f (e ∷ h) le =
      let tail : splits (λ w. repeats f (e ∷ w)) (repeats f) h ≡ repeats f (e ∷ h) =
        ap (λ (g : WordSet E). splits g (repeats f) h) (fun_ext (repeats-cons f e))
        ∙ splits_assoc (λ k. f (e ∷ k)) (repeats f) (repeats f) h
        ∙ splits-suffixes (λ k. f (e ∷ k)) (splits (repeats f) (repeats f)) (repeats f) h
            (λ k short. repeats-twice_within n f k (omega (arith, short)))
        ∙ sym (repeats-cons f e h) in
      ground (arith, repeats-nil f, tail)

  repeats-repeats_within :
      (n : ℕ) (f : WordSet E) (h : List E) → length h ≤ n → repeats (repeats f) h ≡ repeats f h
  repeats-repeats_within n f [] le = repeats-nil (repeats f) ∙ sym (repeats-nil f)
  repeats-repeats_within zero f (e ∷ h) le = absurd (omega arith)
  repeats-repeats_within (suc n) f (e ∷ h) le =
      repeats-cons (repeats f) e h
      ∙ ap (λ (g : WordSet E). splits g (repeats (repeats f)) h) (fun_ext (repeats-cons f e))
      ∙ splits_assoc (λ k. f (e ∷ k)) (repeats f) (repeats (repeats f)) h
      ∙ splits-suffixes (λ k. f (e ∷ k)) (splits (repeats f) (repeats (repeats f))) (repeats f) h
          (λ k short.
            splits-suffixes (repeats f) (repeats (repeats f)) (repeats f) k
              (λ w shorter. repeats-repeats_within n f w (omega (arith, short, shorter)))
            ∙ repeats-twice_within (length k) f k (omega arith))
      ∙ sym (repeats-cons f e h)

  pub repeats-repeats : (f : WordSet E) (h : List E) → repeats (repeats f) h ≡ repeats f h
  repeats-repeats f h = repeats-repeats_within (length h) f h (omega arith)
