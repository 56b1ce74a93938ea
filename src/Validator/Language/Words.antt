-- ===== src/Validator/Language/Words.antt =====
-- Operations on sets of words, as Boolean tests: concatenation by every split, and repetition.
use marsh.Base.{
  ℕ, zero, suc, ◌≤◌, ◌≡◌, refl, ap, fun_ext, Bool, true, false, ◌&&◌, ◌||◌, List, [], ◌∷◌, arith,
  length, is_empty, all, Option, none, is_none, is_some_and, or_else,
}

abbrev pub WordSet {ℓ} : Type ℓ → Type ℓ
WordSet E = List E → Bool

module _ {ℓ} {E : Type ℓ} where
  -- Some split of the word has its first part in `f` and its second part in `g`.
  unfoldable pub splits : WordSet E → WordSet E → WordSet E
  splits f g [] = f [] && g []
  splits f g (e ∷ h) = (f [] && g (e ∷ h)) || splits (λ k. f (e ∷ k)) g h

  -- The word is a sequence of nonempty words of `f`, at most `n` of them.
  unfoldable pub repeats_within : ℕ → WordSet E → WordSet E
  repeats_within n f [] = true
  repeats_within zero f (e ∷ h) = false
  repeats_within (suc n) f (e ∷ h) = splits (λ k. f (e ∷ k)) (repeats_within n f) h

  unfoldable pub repeats : WordSet E → WordSet E
  unfolding repeats_within
  repeats f h = repeats_within (length h) f h

  abbrev pub single : (E → Bool) → WordSet E
  single p [] = false
  single p (e ∷ []) = p e
  single p (e ∷ e' ∷ h) = false

  pub splits-nothing : (g : WordSet E) (h : List E) → splits (λ _. false) g h ≡ false
  unfolding splits
  splits-nothing g [] = refl
  splits-nothing g (e ∷ h) = splits-nothing g h

  pub splits-is_empty : (f : WordSet E) (h : List E) → splits f is_empty h ≡ f h
  unfolding splits
  splits-is_empty f [] = ground arith
  splits-is_empty f (e ∷ h) = ground (arith, splits-is_empty (λ k. f (e ∷ k)) h)

  pub splits-epsilon : (g : WordSet E) (h : List E) → splits is_empty g h ≡ g h
  unfolding splits
  splits-epsilon g [] = refl
  splits-epsilon g (e ∷ h) = ground (arith, splits-nothing g h)

  single-cons : (p : E → Bool) (e : E) (k : List E) → single p (e ∷ k) ≡ p e && is_empty k
  single-cons p e [] = ground arith
  single-cons p e (e' ∷ k) = ground arith

  splits-guard :
      (b : Bool) (g : WordSet E) (h : List E) → splits (λ k. b && is_empty k) g h ≡ b && g h
  splits-guard true g h = splits-epsilon g h
  splits-guard false g h = splits-nothing g h

  pub splits-single :
      (p : E → Bool) (g : WordSet E) (e : E) (h : List E) → splits (single p) g (e ∷ h) ≡ p e && g h
  unfolding splits
  splits-single p g e h = rw (fun_ext (single-cons p e)) (splits-guard (p e) g h)

  repeats_within-single :
      (p : E → Bool) (n : ℕ) (h : List E) → length h ≤ n → repeats_within n (single p) h ≡ all p h
  unfolding repeats_within
  repeats_within-single p n [] le = refl
  repeats_within-single p zero (e ∷ h) le = absurd (omega arith)
  repeats_within-single p (suc n) (e ∷ h) le = rw (
    fun_ext (single-cons p e),
    splits-guard (p e) (repeats_within n (single p)) h,
    repeats_within-single p n h (omega arith),
  )

  pub repeats-single : (p : E → Bool) (h : List E) → repeats (single p) h ≡ all p h
  unfolding repeats
  repeats-single p h = repeats_within-single p (length h) h (omega arith)

  -- The word `a e b` with `p e` and every event of `b` in `q`.
  unfoldable pub ends_with : (E → Bool) → (E → Bool) → WordSet E
  ends_with p q [] = false
  ends_with p q (e ∷ h) = (p e && all q h) || ends_with p q h

  pub splits-all-single :
      (p q : E → Bool) (h : List E)
      → splits (λ _. true) (splits (single p) (all q)) h ≡ ends_with p q h
  unfolding splits ends_with
  splits-all-single p q [] = refl
  splits-all-single p q (e ∷ h) =
      rw (splits-single p (all q) e h) (ap (λ b. (p e && all q h) || b) (splits-all-single p q h))

-- The last value that the events of a history set, if any does.
module _ {ℓ κ} {E : Type ℓ} {R : Type κ} (f : E → Option R) where
  abbrev pub last_set : List E → Option R
  last_set [] = none
  last_set (e ∷ h) = or_else (last_set h) (f e)

  pub all-last_set :
      (q : E → Bool)
      → ((e : E) → q e ≡ is_none (f e))
      → (h : List E) → all q h ≡ is_none (last_set h)
  all-last_set q stable [] = refl
  all-last_set q stable (e ∷ h) = ground (arith, all-last_set q stable h, stable e)

  -- Where `q` holds of the events that set nothing, and `p` of those that set a value in `c`.
  pub ends_with-last_set :
      (p q : E → Bool) (c : R → Bool)
      → ((e : E) → q e ≡ is_none (f e))
      → ((e : E) → p e ≡ is_some_and c (f e))
      → (h : List E) → ends_with p q h ≡ is_some_and c (last_set h)
  unfolding ends_with
  ends_with-last_set p q c stable setter [] = refl
  ends_with-last_set p q c stable setter (e ∷ h) =
      ground (arith, ends_with-last_set p q c stable setter h, all-last_set q stable h, setter e)
