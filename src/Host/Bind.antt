-- ===== src/Host/Bind.antt =====
-- A sequence of calls that returned: each of its parts returned.
use bananabreadwasm.Prelude.{◌≡◌, refl}
use bananabreadwasm.Result.{Result, ok, err}
use bananabreadwasm.Host.{Host, World, Exec, ◌>>=◌}

module _ {h : Host} {A B : Type 0} where
  pub bind-eq-ok :
      (m : Exec h A) (f : A → Exec h B) (w w' : World h) {b : B}
      → (m >>= f) w ≡ (ok b, w')
      → (a : A) × (w1 : World h) × (m w ≡ (ok a, w1)) × (f a w1 ≡ (ok b, w'))
  bind-eq-ok m f w w' {b} e = go (m w) refl e
    where
      go :
          (t : Result A × World h)
          → m w ≡ t
          → (elim t.0 [ ok a ↦ f a t.1 | err x ↦ (err x, t.1) ]) ≡ (ok b, w')
          → (a : A) × (w1 : World h) × (m w ≡ (ok a, w1)) × (f a w1 ≡ (ok b, w'))
      go (ok a, w1) p q = (a, w1, p, q)
      go (err x, w1) p q = cc
