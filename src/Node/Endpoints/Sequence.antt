-- ===== src/Node/Endpoints/Sequence.antt =====
-- node/node.go: steps that may fail, one after the other.
use mive.Base.{Option, none, some, ◌≡◌, refl, arith}
use mive.Node.State.{NodeError}
use mive.Node.Endpoints.{and_then, continue}

module _ {ℓ κ} {A : Type ℓ} (P : A → Type κ) where
  -- What holds before a step holds after it, whether it fails or not.
  abbrev pub Keeps : (A → Option NodeError × A) → Type (ℓ ⊔ κ)
  Keeps step = (a : A) → P a → P (step a).1

  pub and_then-Keeps : (f g : A → Option NodeError × A) → Keeps f → Keeps g → Keeps (and_then f g)
  and_then-Keeps f g keep_f keep_g a ok = continued (f a).0 (f a).1 (keep_f a ok)
    where
      continued : (e : Option NodeError) → (b : A) → P b → P (continue g e b).1
      continued none b kept = keep_g b kept
      continued (some err) b kept = kept

-- A sequence that returns no error has two steps that return none.
pub and_then-none {ℓ} :
    {A : Type ℓ}
    → (f g : A → Option NodeError × A) → (a : A) → (and_then f g a).0 ≡ none
    → ((f a).0 ≡ none) × ((g (f a).1).0 ≡ none) × ((and_then f g a).1 ≡ (g (f a).1).1)
and_then-none {A = A} f g a fine = continued (f a).0 (f a).1 fine
  where
    continued :
        (e : Option NodeError)
        → (b : A) → (continue g e b).0 ≡ none
        → (e ≡ none) × ((g b).0 ≡ none) × ((continue g e b).1 ≡ (g b).1)
    continued none b q = (refl, q, refl)
    continued (some err) b q = ground arith
