-- ===== src/Prelude/Verdicts.antt =====
-- Answers of code that can refuse: what it goes on with, or why not.
use mathlib.Core.Path.{◌≡◌, refl}
use mathlib.Core.Bool.{Bool, true, false}
use mathlib.Core.Option.{Option, none, some}
use mathlib.Core.Logic.{◌⊎◌, inl, inr}
use revoked.Prelude.Tests.{if◌then◌else◌}

pub data Verdict {ℓ κ} (Why : Type κ) (Answer : Type ℓ) : Type (ℓ ⊔ κ) where
  refused : Why → Verdict Why Answer
  allowed : Answer → Verdict Why Answer

module _ {ℓ κ ι} {Why : Type ι} {Before : Type ℓ} {After : Type κ} where
  infixl 5 ◌>>=◌
  abbrev pub ◌>>=◌ : Verdict Why Before → (Before → Verdict Why After) → Verdict Why After
  refused why >>= next = refused why
  allowed answer >>= next = next answer

  -- A chain that is allowed was allowed at its first step.
  pub allowed_parts :
      (first_step : Verdict Why Before) (next : Before → Verdict Why After) {last : After}
      → (first_step >>= next) ≡ allowed last
      → (answer : Before) × (first_step ≡ allowed answer) × (next answer ≡ allowed last)
  allowed_parts (refused why) next h = cc
  allowed_parts (allowed answer) next h = (answer, refl, h)

module _ {ℓ κ} {Why : Type κ} {Answer : Type ℓ} where
  -- What passes a guard was not caught by it.
  pub past_guard :
      (caught : Bool) (why : Why) (rest : Verdict Why Answer) {last : Answer}
      → (if caught then refused why else rest) ≡ allowed last
      → (caught ≡ false) × (rest ≡ allowed last)
  past_guard true why rest h = cc
  past_guard false why rest h = (refl, h)

  -- What passes a check that names its refusal found none.
  pub past_check :
      (check : Option Why) (rest : Verdict Why Answer) {last : Answer}
      → elim check as (λ _. Verdict Why Answer) [ none ↦ rest | some why ↦ refused why ]
        ≡ allowed last
      → (check ≡ none) × (rest ≡ allowed last)
  past_check none rest h = (refl, h)
  past_check (some why) rest h = cc

-- What passes a lookup found something.
pub past_lookup {ℓ κ ι} :
    {Why : Type κ} {Answer : Type ℓ} {Found : Type ι} (found : Option Found) (why : Why)
    (rest : Found → Verdict Why Answer) {last : Answer}
    → elim found as (λ _. Verdict Why Answer) [ none ↦ refused why | some x ↦ rest x ]
      ≡ allowed last
    → (x : Found) × (found ≡ some x) × (rest x ≡ allowed last)
past_lookup none why rest h = cc
past_lookup (some x) why rest h = (x, refl, h)

pub same_answer {ℓ κ} :
    {Why : Type κ} {Answer : Type ℓ} {a b : Answer}
    → Path (Verdict Why Answer) (allowed a) (allowed b)
    → a ≡ b
same_answer h = cc

pub same_refusal {ℓ κ} :
    {Why : Type κ} {Answer : Type ℓ} {a b : Why}
    → Path (Verdict Why Answer) (refused a) (refused b)
    → a ≡ b
same_refusal h = cc

pub Verdict-cases {ℓ κ} :
    {Why : Type κ} {Answer : Type ℓ} (v : Verdict Why Answer)
    → ((why : Why) × (v ≡ refused why)) ⊎ ((answer : Answer) × (v ≡ allowed answer))
Verdict-cases (refused why) = inl (why, refl)
Verdict-cases (allowed answer) = inr (answer, refl)
