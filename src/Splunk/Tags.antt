-- ===== src/Splunk/Tags.antt =====
-- pumps/splunk.go: which tags `FilterTags` leaves.
use mathlib.Core.List.{append_assoc}
use mathlib.Core.Path.{ap₂}
use tyk_pump.Base.{
  ℕ, zero, suc, ◌+◌, ◌≤◌, ◌≡◌, ◌≢◌, refl, sym, ap, ◌∙◌, true, false, List, [], ◌∷◌, ◌++◌, some,
  ◌>>=◌, Text, length, length-append, ltb, has_prefix, for_each, Bool-cases, inl, inr, if_true,
  if◌then◌else◌, arith,
}
use tyk_pump.Splunk.{remove_at, tag_at, remove_matching, filter_rounds, filter_tags}

-- What one prefix leaves: a tag that has it is removed, and the tag behind such a one stays, unread.
unfoldable pub remaining : Text → List Text → List Text
remaining prefix [] = []
remaining prefix (t ∷ []) = if has_prefix t prefix then [] else t ∷ []
remaining prefix (t ∷ u ∷ ts) =
    if has_prefix t prefix then u ∷ remaining prefix ts else t ∷ remaining prefix (u ∷ ts)

tag_at-append : (pre ts : List Text) (t : Text) → tag_at (length pre) (pre ++ (t ∷ ts)) ≡ t
tag_at-append [] ts t = refl
tag_at-append (p ∷ pre) ts t = tag_at-append pre ts t

tag_at-beyond : (i : ℕ) (ts : List Text) → length ts ≤ i → tag_at i ts ≡ []
tag_at-beyond i [] h = refl
tag_at-beyond zero (t ∷ ts) h = absurd (omega arith)
tag_at-beyond (suc i) (t ∷ ts) h = tag_at-beyond i ts (omega arith)

remove_at-append :
    (pre ts : List Text) (t : Text) → remove_at (length pre) (pre ++ (t ∷ ts)) ≡ pre ++ ts
remove_at-append [] ts t = refl
remove_at-append (p ∷ pre) ts t = ap (λ l. p ∷ l) (remove_at-append pre ts t)

has_prefix-empty : (prefix : Text) → prefix ≢ [] → has_prefix [] prefix ≡ false
unfolding has_prefix
has_prefix-empty [] h = absurd (h refl)
has_prefix-empty (x ∷ xs) h = refl

module _ (prefix : Text) (nonempty : prefix ≢ []) where
  rounds_beyond : (n i : ℕ) (ts : List Text) → length ts ≤ i → filter_rounds prefix n i ts ≡ some ts
  unfolding filter_rounds
  rounds_beyond zero i ts h = refl
  rounds_beyond (suc n) i ts h =
      ap (λ b. remove_matching b i ts >>= filter_rounds prefix n (suc i))
        (ap (λ t. has_prefix t prefix) (tag_at-beyond i ts h) ∙ has_prefix-empty prefix nonempty)
      ∙ rounds_beyond n (suc i) ts (omega arith)

  -- A round, by what is read.
  round_matches :
      (n : ℕ) (pre ts : List Text) (t : Text)
      → has_prefix t prefix ≡ true
      → filter_rounds prefix (suc n) (length pre) (pre ++ (t ∷ ts))
        ≡ filter_rounds prefix n (suc (length pre)) (pre ++ ts)
  unfolding filter_rounds
  round_matches n pre ts t h =
      ap
        (λ b.
          remove_matching b (length pre) (pre ++ (t ∷ ts))
          >>= filter_rounds prefix n (suc (length pre)))
        (ap (λ s. has_prefix s prefix) (tag_at-append pre ts t) ∙ h)
      ∙ ap (λ o. o >>= filter_rounds prefix n (suc (length pre)))
          (if_true (ltb (length pre) (length (pre ++ (t ∷ ts)))) _ _
              (in_range (length pre) (length ts) _ (length-append pre (t ∷ ts)))
            ∙ ap some (remove_at-append pre ts t))
    where
      in_range : (a b c : ℕ) → c ≡ a + suc b → ltb a c ≡ true
      in_range a b c h = ground arith

  round_differs :
      (n : ℕ) (pre ts : List Text) (t : Text)
      → has_prefix t prefix ≡ false
      → filter_rounds prefix (suc n) (length pre) (pre ++ (t ∷ ts))
        ≡ filter_rounds prefix n (suc (length pre)) (pre ++ (t ∷ ts))
  unfolding filter_rounds
  round_differs n pre ts t h =
      ap
        (λ b.
          remove_matching b (length pre) (pre ++ (t ∷ ts))
          >>= filter_rounds prefix n (suc (length pre)))
        (ap (λ s. has_prefix s prefix) (tag_at-append pre ts t) ∙ h)

  -- The next element stands behind those that have been passed.
  pass_on :
      (n : ℕ) (pre ts : List Text) (t : Text)
      → filter_rounds prefix n (suc (length pre)) (pre ++ (t ∷ ts))
        ≡ filter_rounds prefix n (length (pre ++ (t ∷ []))) ((pre ++ (t ∷ [])) ++ ts)
  pass_on n pre ts t =
      ap₂ (λ i l. filter_rounds prefix n i l) (one_more (length pre) _ (length-append pre (t ∷ [])))
        (sym (append_assoc pre (t ∷ []) ts))
    where
      one_more : (a c : ℕ) → c ≡ a + 1 → suc a ≡ c
      one_more a c h = omega arith

  rounds-remaining :
      (n : ℕ) (pre ts : List Text)
      → length ts ≤ n
      → filter_rounds prefix n (length pre) (pre ++ ts) ≡ some (pre ++ remaining prefix ts)
  unfolding remaining
  rounds-remaining n pre [] h =
      rounds_beyond n (length pre) (pre ++ []) (omega (arith, length-append pre []))
  rounds-remaining zero pre (t ∷ ts) h = absurd (omega arith)
  rounds-remaining (suc n) pre (t ∷ []) h = elim (Bool-cases (has_prefix t prefix)) [
    | inl e ↦ rw e (
        round_matches n pre [] t e
        ∙ rounds_beyond n (suc (length pre)) (pre ++ []) (omega (arith, length-append pre [])))
    | inr e ↦ rw e (
        round_differs n pre [] t e
        ∙ rounds_beyond n (suc (length pre)) (pre ++ (t ∷ []))
            (omega (arith, length-append pre (t ∷ []))))
  ]
  rounds-remaining (suc n) pre (t ∷ u ∷ ts) h = elim (Bool-cases (has_prefix t prefix)) [
    | inl e ↦ rw e (
        round_matches n pre (u ∷ ts) t e
        ∙ pass_on n pre ts u
        ∙ rounds-remaining n (pre ++ (u ∷ [])) ts (omega arith)
        ∙ ap some (append_assoc pre (u ∷ []) (remaining prefix ts)))
    | inr e ↦ rw e (
        round_differs n pre (u ∷ ts) t e
        ∙ pass_on n pre (u ∷ ts) t
        ∙ rounds-remaining n (pre ++ (t ∷ [])) (u ∷ ts) (omega arith)
        ∙ ap some (append_assoc pre (t ∷ []) (remaining prefix (u ∷ ts))))
  ]

  -- With one prefix, which is not empty, `FilterTags` returns without a panic. It removes the tags that it
  -- reads and that have the prefix, and reads every tag but those that stand behind one that it has
  -- removed: these stay, whether they have the prefix or not.
  pub filter_tags-remaining :
      (tags : List Text) → filter_tags (prefix ∷ []) tags ≡ some (remaining prefix tags)
  unfolding filter_tags for_each
  filter_tags-remaining tags =
      ap (λ o. o >>= λ ts. some ts) (rounds-remaining (length tags) [] tags (omega arith))
