-- ===== src/Yaml/Parse/Fuel.antt =====
-- What the readers' loops leave: a turn takes at least one event.
pub mod Lists
pub mod Readers
use mathlib.Core.Path.{subst}
use mathlib.Core.Option.{some-injective}
use famfs.Prelude.{
  ℕ, zero, suc, ◌≤◌, ◌<◌, ◌≡◌, ◌⊎◌, refl, sym, ap, Bool, true, false, Option, none, some, ◌>>=◌,
  List, [], ◌∷◌, arith, Bool-cases, Option-cases, inl, inr, ◌==◌,
}
use famfs.Prelude.Lists.{length}
use famfs.Yaml.{Event, stream_start, stream_end, document_start, document_end, seq_start, seq_end}
use famfs.Yaml.{map_start, map_end, other, scalar}
use famfs.Yaml.Parse.{Parsed, parsed, error, Turn, again, finished, loop, expect, expect_scalar}
use famfs.Yaml.Parse.{expect_end, event_type}
use famfs.Yaml.Parse.Loop.{Advances, Turn-cases}

expect_shorter :
    (e : Event) (events rest : List Event)
    → expect e events ≡ some rest
    → length rest < length events
unfolding expect
expect_shorter e [] rest h = ground arith
expect_shorter e (next ∷ more) rest h = elim (Bool-cases (event_type next == event_type e)) [
  | inl y ↦
      let same : some more ≡ some rest = rw y at h in
      let e = some-injective more rest same in omega (arith, ap length e)
  | inr n ↦ let never : none ≡ some rest = rw n at h in absurd (ground arith)
]

scalar_cases :
    (events : List Event)
    → (expect_scalar events ≡ none)
      ⊎ ((text : List ℕ) × (rest : List Event) × (expect_scalar events ≡ some (text, rest))
          × (events ≡ scalar text ∷ rest))
unfolding expect_scalar
scalar_cases [] = inl refl
scalar_cases (scalar text ∷ rest) = inr (text, rest, refl, refl)
scalar_cases (stream_start ∷ rest) = inl refl
scalar_cases (stream_end ∷ rest) = inl refl
scalar_cases (document_start ∷ rest) = inl refl
scalar_cases (document_end ∷ rest) = inl refl
scalar_cases (seq_start ∷ rest) = inl refl
scalar_cases (seq_end ∷ rest) = inl refl
scalar_cases (map_start ∷ rest) = inl refl
scalar_cases (map_end ∷ rest) = inl refl
scalar_cases (other ∷ rest) = inl refl

module _ {ℓ} {A : Type ℓ} where
  -- What is left after a result is no longer than n; after another turn it is shorter.
  abbrev pub Leaves : ℕ → Parsed A → Type 0
  Leaves n (parsed a rest) = length rest ≤ n
  Leaves n (error rc a) = Unit

  abbrev pub Shortens : ℕ → Turn A → Type 0
  Shortens n (again a rest) = length rest < n
  Shortens n (finished p) = Leaves n p

  pub Leaves-le : (n m : ℕ) (p : Parsed A) → n ≤ m → Leaves n p → Leaves m p
  Leaves-le n m (parsed a rest) h l = omega arith
  Leaves-le n m (error rc a) h l = tt

  pub expect_end-Leaves :
      (e : Event) (a : A) (events : List Event) → Leaves (length events) (expect_end e a events)
  unfolding expect_end
  expect_end-Leaves e a events = elim (Option-cases (expect e events)) [
    | inl n ↦ rw (expect_end, n) tt
    | inr (rest, s) ↦ let shorter = expect_shorter e events rest s in rw (expect_end, s) omega arith
  ]

  pub value-Shortens :
      (f : Option (List ℕ × List Event) → Turn A)
      → ((n : ℕ) → Shortens n (f none))
      → ((text : List ℕ) (rest : List Event)
          → Shortens (suc (suc (length rest))) (f (some (text, rest))))
      → (events : List Event) → Shortens (suc (length events)) (f (expect_scalar events))
  value-Shortens f if_none if_some events = elim (scalar_cases events) [
    | inl n ↦
        subst (λ o. Shortens (suc (length events)) (f o)) (sym n) (if_none (suc (length events)))
    | inr (text, rest, s, e) ↦
        subst (λ o. Shortens (suc (length events)) (f o)) (sym s)
          (subst (λ es. Shortens (suc (length es)) (f (some (text, rest)))) (sym e)
            (if_some text rest))
  ]

  abbrev pub AllShorten : (A → List Event → Turn A) → Type ℓ
  AllShorten turn = (a : A) (events : List Event) → Shortens (length events) (turn a events)

  pub loop-Leaves :
      (turn : A → List Event → Turn A)
      → AllShorten turn
      → (fuel : ℕ) (a : A) (events : List Event) → Leaves (length events) (loop turn fuel a events)
  unfolding loop
  loop-Leaves turn shortens zero a events = tt
  loop-Leaves turn shortens (suc fuel) a events = elim (Turn-cases (turn a events)) [
    | inl (b, rest, e) ↦
        let shorter = subst (Shortens (length events)) e (shortens a events) in
        rw (loop, e)
          (Leaves-le (length rest) (length events) (loop turn fuel b rest) (omega arith)
            (loop-Leaves turn shortens fuel b rest))
    | inr (p, e) ↦ rw (loop, e) (subst (Shortens (length events)) e (shortens a events))
  ]

  pub AllShorten-Advances : (turn : A → List Event → Turn A) → AllShorten turn → Advances turn
  AllShorten-Advances turn shortens a b events rest e =
      subst (Shortens (length events)) e (shortens a events)

  -- The two events that a list starts with, and its loop.
  pub opened-Leaves :
      (from : Option (List Event) → Parsed A)
      → Leaves 0 (from none)
      → ((rest : List Event) → Leaves (length rest) (from (some rest)))
      → (e1 e2 : Event) (events : List Event)
      → Leaves (length events) (from (expect e1 events >>= expect e2))
  opened-Leaves from if_none if_some e1 e2 events = elim (Option-cases (expect e1 events)) [
    | inl n ↦
        subst (λ o. Leaves (length events) (from (o >>= expect e2))) (sym n)
          (Leaves-le 0 (length events) (from none) (omega arith) if_none)
    | inr (rest, s) ↦
        subst (λ o. Leaves (length events) (from (o >>= expect e2))) (sym s)
          (elim (Option-cases (expect e2 rest)) [
            | inl n ↦
                subst (λ o. Leaves (length events) (from o)) (sym n)
                  (Leaves-le 0 (length events) (from none) (omega arith) if_none)
            | inr (more, t) ↦
                let first = expect_shorter e1 events rest s in
                let second = expect_shorter e2 rest more t in
                subst (λ o. Leaves (length events) (from o)) (sym t)
                  (Leaves-le (length more) (length events) (from (some more)) (omega arith)
                    (if_some more))
          ])
  ]
