-- ===== src/Yaml/Parse/Loop.antt =====
-- The readers' loops: where a loop ends, whatever the fuel beyond the number of events, and its run
-- without any fuel.
use famfs.Prelude.{ℕ, zero, suc, ◌<◌, ◌≡◌, ◌⊎◌, inl, inr, refl, List, arith}
use famfs.Prelude.Lists.{length}
use famfs.Yaml.{Event}
use famfs.Yaml.Parse.{Parsed, Turn, again, finished, loop}

pub Turn-cases {ℓ} :
    {A : Type ℓ} (t : Turn A)
    → ((a : A) × (rest : List Event) × (t ≡ again a rest)) ⊎ ((p : Parsed A) × (t ≡ finished p))
Turn-cases (again a rest) = inl (a, rest, refl)
Turn-cases (finished p) = inr (p, refl)

module _ {ℓ} {A : Type ℓ} (turn : A → List Event → Turn A) where
  abbrev pub EndsIn : A → List Event → Parsed A → Type ℓ
  EndsIn a events p = (fuel : ℕ) → length events < fuel → loop turn fuel a events ≡ p

  pub one_turn :
      (a b : A) (events rest : List Event) (p : Parsed A)
      → turn a events ≡ again b rest
      → length rest < length events
      → EndsIn b rest p
      → EndsIn a events p
  unfolding loop
  one_turn a b events rest p e shorter ends zero h = absurd (omega arith)
  one_turn a b events rest p e shorter ends (suc fuel) h = rw (loop, e) (ends fuel (omega arith))

  pub last_turn :
      (a : A) (events : List Event) (p : Parsed A) → turn a events ≡ finished p → EndsIn a events p
  unfolding loop
  last_turn a events p e zero h = absurd (omega arith)
  last_turn a events p e (suc fuel) h = rw (loop, e) refl

  -- Turns that take events make the fuel irrelevant.
  abbrev pub Advances : Type ℓ
  Advances =
      (a b : A) (events rest : List Event)
      → turn a events ≡ again b rest
      → length rest < length events

  -- The run of the loop without fuel: turns, and a last one with its result.
  pub data Ends : A → List Event → Parsed A → Type ℓ where
    last :
        (a : A) (events : List Event) (p : Parsed A) → turn a events ≡ finished p → Ends a events p
    next :
        (a b : A) (events rest : List Event) (p : Parsed A)
        → turn a events ≡ again b rest
        → Ends b rest p
        → Ends a events p

  pub loop_ends :
      Advances
      → (fuel : ℕ) (a : A) (events : List Event) → length events < fuel
      → Ends a events (loop turn fuel a events)
  unfolding loop
  loop_ends advances zero a events h = absurd (omega arith)
  loop_ends advances (suc fuel) a events h = elim (Turn-cases (turn a events)) [
    | inl (b, rest, e) ↦
        let shorter = advances a b events rest e in
        rw (loop, e)
          (next a b events rest (loop turn fuel b rest) e
            (loop_ends advances fuel b rest (omega arith)))
    | inr (p, e) ↦ rw (loop, e) (last a events p e)
  ]
