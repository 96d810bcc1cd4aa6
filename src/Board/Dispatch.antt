-- ===== src/Board/Dispatch.antt =====
-- A Rust match on integer constants: the first arm whose constant is equal, and the laws that both
-- boards use.
use micro_morse_chat.Prelude.{
  ℕ, ◌≡◌, ◌≢◌, ◌↔◌, ◌⊎◌, ap, sym, inl, inr, List, [], ◌∷◌, Option, none, some, ◌==◌, if◌then◌else◌,
  Option-cases, Avoids, arith,
}

module _ {ℓ} {D : Type ℓ} where
  abbrev pub match_num : List (ℕ × D) → ℕ → Option D
  match_num [] n = none
  match_num ((c, d) ∷ arms) n = if n == c then some d else match_num arms n

  -- Every arm has the number of its driver.
  abbrev pub Labelled : (D → ℕ) → List (ℕ × D) → Type 0
  Labelled number [] = Unit
  Labelled number ((c, d) ∷ arms) = (c ≡ number d) × Labelled number arms

  -- Under every number the lookup finds the driver that stands with it.
  abbrev pub Finds : (ℕ → Option D) → List (ℕ × D) → Type ℓ
  Finds lookup [] = Unit
  Finds lookup ((n, d) ∷ rs) = (lookup n ≡ some d) × Finds lookup rs

  pub Labelled-Finds :
      (number : D → ℕ) (lookup : ℕ → Option D)
      → ((n : ℕ) (d : D) → (lookup n ≡ some d) ↔ (n ≡ number d))
      → (rs : List (ℕ × D)) → Labelled number rs
      → Finds lookup rs
  Labelled-Finds number lookup iff [] h = tt
  Labelled-Finds number lookup iff ((n, d) ∷ rs) (same, h) =
      ((iff n d).1 same, Labelled-Finds number lookup iff rs h)

  match_num_sound :
      (number : D → ℕ) (arms : List (ℕ × D)) (n : ℕ) (d : D)
      → Labelled number arms
      → match_num arms n ≡ some d
      → n ≡ number d
  match_num_sound number [] n d h e = cc
  match_num_sound number ((c, x) ∷ arms) n d h e =
      ground (arith, match_num_sound number arms n d h.1)

  -- With one arm for each driver, and numbers that differ, the match finds exactly the driver that
  -- was asked for.
  pub match_num_iff :
      (number : D → ℕ) (arms : List (ℕ × D))
      → Labelled number arms
      → ((d e : D) → number d ≡ number e → d ≡ e)
      → ((d : D) → match_num arms (number d) ≢ none)
      → (n : ℕ) (d : D) → (match_num arms n ≡ some d) ↔ (n ≡ number d)
  match_num_iff number arms labelled distinct served n d =
      (match_num_sound number arms n d labelled, back)
    where
      back : n ≡ number d → match_num arms n ≡ some d
      back e = elim (Option-cases (match_num arms (number d))) [
        | inl missing ↦ absurd (served d missing)
        | inr (x, found) ↦
            rw (e, found)
              (ap some
                (sym (distinct d x (match_num_sound number arms (number d) x labelled found))))
      ]

-- What a list of numbers and drivers says of one driver, and of all numbers in a list.
module _ {D : Type 0} where
  abbrev pub Occurs : D → List (ℕ × D) → Type 0
  Occurs d [] = ⊥
  Occurs d ((n, x) ∷ rs) = (d ≡ x) ⊎ Occurs d rs

-- No number twice.
abbrev pub AllDiffer : List ℕ → Type 0
AllDiffer [] = Unit
AllDiffer (x ∷ xs) = Avoids x xs × AllDiffer xs
